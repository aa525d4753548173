-- ===== src/Transport/Slots/Places.antt =====
-- The places of a slot table of crates/mq-transport/src/slots.rs, and the ids that they go by.
use mqproxy.Prelude.{
  ℕ, ◌+◌, ◌-◌, ◌%◌, ◌^◌, ◌≤◌, ◌<◌, ◌≡◌, ◌≢◌, refl, ap, ◌∙◌, sym, get_elem?_lt, get_elem?-length,
  get_elem?-append_last, get_elem?-append_ne, List, [], ◌∷◌, ◌++◌, Option, none, some, true, ◌==◌,
  if◌then◌else◌, length, get_elem?, set, arith, All, get_elem?-set_self, get_elem?-set_ne,
  Bool-cases, inl, inr, ==_iff,
}
use mqproxy.Prelude.Bits.{bit_or-shifted}
use mqproxy.Transport.Slots.{
  slot_id, index_of, generation_of, Entry, Slots, reuse, get_entry, get, next_generation,
}

-- An id keeps its index and its generation.
pub slot_id_parts :
    (i g : ℕ) → i < 2 ^ 32 → (index_of (slot_id i g) ≡ i) × (generation_of (slot_id i g) ≡ g)
unfolding slot_id
slot_id_parts i g h = rw (bit_or-shifted 32 g i h) (omega arith, omega arith)

pub next_generation_lem :
    (g : ℕ)
    → g < 2 ^ 32
    → (1 ≤ next_generation g)
      × (next_generation g < 2 ^ 32)
      × (1 ≤ g → next_generation g ≢ g)
      × (next_generation g ≡ (if g == 2 ^ 32 - 1 then 1 else g + 1))
unfolding next_generation
next_generation_lem g h = ground arith

module _ {ℓ} {T : Type ℓ} where
  -- A place with no value.
  abbrev pub IsVacant : List (Entry T) → ℕ → Type ℓ
  IsVacant entries i = (e : Entry T) × (get_elem? entries i ≡ some e) × (e.value ≡ none)

  -- Every free place is vacant.
  abbrev pub FreeList : List (Entry T) → List ℕ → Type ℓ
  FreeList entries [] = Unit {ℓ}
  FreeList entries (i ∷ is) = IsVacant entries i × FreeList entries is

  abbrev pub LiveGen : Entry T → Type 0
  LiveGen e = (1 ≤ e.generation) × (e.generation < 2 ^ 32)

  pub record IsSlots (s : Slots T) : Type ℓ where
    pub generations : All LiveGen s.entries
    pub few : length s.entries < 2 ^ 32
    pub free : FreeList s.entries s.free

  -- What `insert` gives.
  pub record Inserted (s s' : Slots T) (v : T) (id : ℕ) : Type ℓ where
    pub found : get s' id ≡ some v
    pub was_dead : get s id ≡ none
    pub not_none : id ≢ 0
    pub others : (other : ℕ) → index_of other ≢ index_of id → get s' other ≡ get s other

  -- The place of a removed id: vacant, and under the next generation. A generation is a u32 that skips 0.
  pub record Moved (s' : Slots T) (id : ℕ) : Type ℓ where
    pub entry : Entry T
    pub at : get_elem? s'.entries (index_of id) ≡ some entry
    pub vacant : entry.value ≡ none
    pub next :
        entry.generation ≡ (if generation_of id == 2 ^ 32 - 1 then 1 else generation_of id + 1)

  -- What `remove` gives, when it gives a value.
  pub record Removed (s s' : Slots T) (v : T) (id : ℕ) : Type ℓ where
    pub was_live : get s id ≡ some v
    pub dead : get s' id ≡ none
    pub moved : Moved s' id
    pub others : (other : ℕ) → index_of other ≢ index_of id → get s' other ≡ get s other
    pub reusable : s'.free ≡ index_of id ∷ s.free

  -- What the `insert` after a `remove` gives: the value `v` under an id of the same place, which is not the
  -- removed one.
  pub record Reused (s' : Slots T) (id id' : ℕ) (v : T) : Type ℓ where
    pub same_place : index_of id' ≡ index_of id
    pub other_id : id' ≢ id
    pub found : get s' id' ≡ some v
    pub stale : get s' id ≡ none

  pub entry_held :
      (e : Entry T) (id : ℕ) (v : T)
      → (if e.generation == generation_of id then e.value else none) ≡ some v
      → ((e.generation == generation_of id) ≡ true) × (e.value ≡ some v)
  entry_held e id v h = elim (Bool-cases (e.generation == generation_of id)) [
    | inl current ↦ (current, (rw current at h))
    | inr stale ↦ let q : ◌≡◌ {A = Option T} none (some v) = rw stale at h in cc
  ]

  pub still_vacant :
      (entries : List (Entry T)) (i : ℕ) (e : Entry T) (free : List ℕ)
      → i < length entries
      → e.value ≡ none
      → FreeList entries free
      → FreeList (set entries i e) free
  still_vacant entries i e [] h v f = tt
  still_vacant entries i e (j ∷ free) h v ((x, at, vacant), f) = elim (Bool-cases (i == j)) [
    | inl same ↦
        let q : i ≡ j = (==_iff i j).0 same in
        ((e, rw (← q) (get_elem?-set_self entries i e h), v), still_vacant entries i e free h v f)
    | inr differs ↦ (
      (
        x,
        rw (get_elem?-set_ne entries {i = i} {j = j} e (λ q. cc (differs, (==_iff i j).1 q))) at,
        vacant,
      ),
      still_vacant entries i e free h v f,
    )
  ]

  pub pushed :
      (entries : List (Entry T)) (v : T)
      → length entries < 2 ^ 32
      → let s : Slots T = record { entries = entries; free = [] } in
        let s' : Slots T = record {
          entries = entries ++ (record { generation = 1; value = some v } ∷ []);
          free = [];
        } in
        Inserted s s' v (slot_id (length entries % 2 ^ 32) 1)
  unfolding get get_entry
  pushed entries v few =
      let n : length entries % 2 ^ 32 ≡ length entries = omega arith in
      let (i, g) = slot_id_parts (length entries) 1 few in
      rw n (record {
        found = rw (i, get_elem?-append_last entries, g) refl;
        was_dead = rw (i, get_elem?-length entries) refl;
        not_none = λ z. absurd (omega (arith, ap generation_of z, g));
        others = λ other ne.
            rw (get_elem?-append_ne entries _ (index_of other) (λ q. ne (q ∙ sym i))) refl;
      })

  pub reused :
      (entries : List (Entry T)) (i : ℕ) (rest : List ℕ) (v : T) (e : Entry T)
      → length entries < 2 ^ 32
      → LiveGen e
      → get_elem? entries i ≡ some e
      → e.value ≡ none
      → let s : Slots T = record { entries = entries; free = i ∷ rest } in
        let s' : Slots T = record {
          entries = set entries i (record e { value = some v });
          free = rest;
        } in
        Inserted s s' v (slot_id i e.generation)
  unfolding get get_entry
  reused entries i rest v e few live at vacant =
      let here : i < length entries = get_elem?_lt entries i e at in
      let (p, g) = slot_id_parts i e.generation (omega arith) in
      let same : (e.generation == e.generation) ≡ true =
        (==_iff e.generation e.generation).1 refl in
      record {
        found = rw (p, get_elem?-set_self entries i _ here, g, same) refl;
        was_dead = rw (p, at, g, same) vacant;
        not_none = λ z. absurd (omega (arith, ap generation_of z, g));
        others = λ other ne.
            rw (get_elem?-set_ne entries {i = i} {j = index_of other} _ (λ q. ne (sym q ∙ sym p)))
              refl;
      }

  pub reuse_lem :
      (entries : List (Entry T)) (i : ℕ) (rest : List ℕ) (v : T) (e : Entry T)
      → get_elem? entries i ≡ some e
      → reuse entries i rest v
        ≡ some (
          record { entries = set entries i (record e { value = some v }); free = rest },
          slot_id i e.generation,
        )
  unfolding reuse
  reuse_lem entries i rest v e at = rw at refl
