-- ===== src/Transport/Slots/Laws.antt =====
-- Handles of crates/mq-transport/src/slots.rs: a fresh one resolves, and a stale one does not, even when its place
-- is in use again.
use mqproxy.Prelude.{
  ℕ, ◌+◌, ◌-◌, ◌%◌, ◌^◌, ◌<◌, ◌≡◌, ◌≢◌, refl, ap, ◌∙◌, sym, get_elem?_lt, All-get_elem?, List, [],
  ◌∷◌, ◌++◌, none, some, true, false, ◌==◌, if◌then◌else◌, length, get_elem?, set, arith, All-set,
  All, get_elem?-set_self, get_elem?-set_ne, length-set, Bool-cases, inl, inr, ==_iff,
}
use mqproxy.Prelude.Options.{>>=-eq-some}
use mqproxy.Transport.Slots.{
  slot_id, index_of, generation_of, Entry, Slots, insert, get_entry, get, next_generation, remove,
  remove_entry, take_value,
}
use mqproxy.Transport.Slots.Places.{
  slot_id_parts, next_generation_lem, FreeList, LiveGen, IsSlots, Inserted, Moved, Removed, Reused,
  entry_held, still_vacant, pushed, reused, reuse_lem,
}

module _ {ℓ} {T : Type ℓ} where
  by_free :
      (free : List ℕ) (entries : List (Entry T)) (v : T)
      → length entries < 2 ^ 32
      → All LiveGen entries
      → FreeList entries free
      → let s : Slots T = record { entries = entries; free = free } in
        (s' : Slots T) × (id : ℕ) × (insert s v ≡ some (s', id)) × Inserted s s' v id
  unfolding insert
  by_free [] entries v few live f = (
    record { entries = entries ++ (record { generation = 1; value = some v } ∷ []); free = [] },
    slot_id (length entries % 2 ^ 32) 1,
    refl,
    pushed entries v few,
  )
  by_free (i ∷ rest) entries v few live ((e, at, vacant), f) = (
    record { entries = set entries i (record e { value = some v }); free = rest },
    slot_id i e.generation,
    reuse_lem entries i rest v e at,
    reused entries i rest v e few (All-get_elem? LiveGen entries i e live at) at vacant,
  )

  -- On a table in order, with fewer than 2^32 places, `insert` does not panic. Its id is not 0, resolved
  -- to nothing before, and resolves to the value now; no id of another place is affected.
  pub insert_lem :
      (s : Slots T) (v : T)
      → IsSlots s
      → (s' : Slots T) × (id : ℕ) × (insert s v ≡ some (s', id)) × Inserted s s' v id
  insert_lem s v ok = by_free s.free s.entries v ok.few ok.generations ok.free

  taken :
      (entries : List (Entry T)) (free : List ℕ) (id : ℕ) (v : T) (e : Entry T)
      → LiveGen e
      → get_elem? entries (index_of id) ≡ some e
      → (e.generation == generation_of id) ≡ true
      → e.value ≡ some v
      → let s : Slots T = record { entries = entries; free = free } in
        let s' : Slots T = record {
          entries =
              set entries
                (index_of id)
                (record { generation = next_generation e.generation; value = none });
          free = index_of id ∷ free;
        } in
        (remove s id ≡ (s', some v)) × Removed s s' v id
  unfolding remove remove_entry take_value get get_entry
  taken entries free id v e live at current full =
      let here : index_of id < length entries = get_elem?_lt entries (index_of id) e at in
      let fresh : next_generation e.generation ≢ e.generation =
        (next_generation_lem e.generation live.1).2 live.0 in
      let stale : (next_generation e.generation == generation_of id) ≡ false =
        elim (Bool-cases (next_generation e.generation == generation_of id)) [
          | inl same ↦ absurd (
              fresh (
                (==_iff (next_generation e.generation) (generation_of id)).0 same
                ∙ sym ((==_iff e.generation (generation_of id)).0 current)))
          | inr differs ↦ differs
        ] in
      (
        rw (at, current, full) refl,
        record {
          was_live = rw (at, current) full;
          dead = rw (get_elem?-set_self entries (index_of id) _ here, stale) refl;
          moved = record {
            entry = record { generation = next_generation e.generation; value = none };
            at = get_elem?-set_self entries (index_of id) _ here;
            vacant = refl;
            next =
                (next_generation_lem e.generation live.1).3
                ∙ ap (λ g. if g == 2 ^ 32 - 1 then 1 else g + 1)
                    ((==_iff e.generation (generation_of id)).0 current);
          };
          others = λ other ne.
              rw
                (get_elem?-set_ne entries {i = index_of id} {j = index_of other} _
                  (λ q. ne (sym q)))
                refl;
          reusable = refl;
        },
      )

  -- The next `insert` takes the place that became free, under its new generation.
  reinserted :
      (s : Slots T) (id : ℕ) (v : T) (rest : List ℕ)
      → IsSlots s
      → Moved s id
      → s.free ≡ index_of id ∷ rest
      → (s' : Slots T) × (id' : ℕ) × (insert s v ≡ some (s', id')) × Reused s' id id' v
  unfolding get get_entry insert
  reinserted s id v rest ok moved top =
      let e = moved.entry in
      let live = All-get_elem? LiveGen s.entries (index_of id) e ok.generations moved.at in
      let here : index_of id < length s.entries = get_elem?_lt s.entries (index_of id) e moved.at in
      let (place, g) = slot_id_parts (index_of id) e.generation (omega arith) in
      let done = reused s.entries (index_of id) rest v e ok.few live moved.at moved.vacant in
      let differs : e.generation ≢ generation_of id = λ q. ground (arith, q, moved.next, live) in
      let stale : (e.generation == generation_of id) ≡ false =
        elim (Bool-cases (e.generation == generation_of id)) [
          | inl same ↦ absurd (differs ((==_iff e.generation (generation_of id)).0 same))
          | inr other ↦ other
        ] in
      (
        record { entries = set s.entries (index_of id) (record e { value = some v }); free = rest },
        slot_id (index_of id) e.generation,
        rw top (reuse_lem s.entries (index_of id) rest v e moved.at),
        record {
          same_place = place;
          other_id = λ q. differs (sym g ∙ ap generation_of q);
          found = done.found;
          stale = rw (get_elem?-set_self s.entries (index_of id) _ here, stale) refl;
        },
      )

  removes :
      (s : Slots T) (id : ℕ) (v : T)
      → IsSlots s
      → get s id ≡ some v
      → (s' : Slots T) × (remove s id ≡ (s', some v)) × Removed s s' v id × IsSlots s'
  unfolding get get_entry
  removes s id v ok live =
      let (e, at, held) = >>=-eq-some (get_elem? s.entries (index_of id)) _ live in
      let gen : LiveGen e = All-get_elem? LiveGen s.entries (index_of id) e ok.generations at in
      let here : index_of id < length s.entries = get_elem?_lt s.entries (index_of id) e at in
      let (current, full) = entry_held e id v held in
      let (run, removed) = taken s.entries s.free id v e gen at current full in
      let (low, high, _, _) = next_generation_lem e.generation gen.1 in
      (
        record {
          entries =
              set s.entries (index_of id)
                (record { generation = next_generation e.generation; value = none });
          free = index_of id ∷ s.free;
        },
        run,
        removed,
        record {
          generations = All-set LiveGen s.entries (index_of id) _ ok.generations (low, high);
          few = omega (
            arith,
            length-set s.entries (index_of id)
                (record { generation = next_generation e.generation; value = none }),
            ok.few,
          );
          free = (
            (
              record { generation = next_generation e.generation; value = none },
              get_elem?-set_self s.entries (index_of id) _ here,
              refl,
            ),
            still_vacant s.entries (index_of id) _ s.free here refl ok.free,
          );
        },
      )

  -- On a table in order, `remove` of an id that resolves gives its value and keeps the table in order. The id resolves
  -- to nothing afterwards, its place is vacant under the next generation (after 2^32 - 1 that is 1), and no id of
  -- another place is affected. The next `insert`, of any value, does not panic and takes the same place: it resolves
  -- under another id, and the removed one still resolves to nothing.
  pub remove_lem :
      (s : Slots T) (id : ℕ) (v next : T)
      → IsSlots s
      → get s id ≡ some v
      → (s' : Slots T) × (remove s id ≡ (s', some v))
        × Removed s s' v id
        × IsSlots s'
        × ((s'' : Slots T) × (id' : ℕ) × (insert s' next ≡ some (s'', id'))
            × Reused s'' id id' next)
  remove_lem s id v next ok live =
      let (s', run, removed, ok') = removes s id v ok live in
      (s', run, removed, ok', reinserted s' id next s.free ok' removed.moved removed.reusable)
