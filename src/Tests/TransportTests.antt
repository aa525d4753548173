-- ===== src/Tests/TransportTests.antt =====
-- Runs of the slot table and the byte buffer of crates/mq-transport and crates/mq-transport-api.
use mqproxy.Prelude.{ℕ, ◌^◌, ◌≡◌, refl, [], ◌∷◌, some, none, arith}
use mqproxy.Transport.Slots
use mqproxy.Transport.Slots.{slot_id, get, insert, remove}
use mqproxy.Transport.Slots.Laws.{insert_lem, remove_lem}
use mqproxy.Transport.Slots.Places.{IsSlots, Inserted, Removed, Reused}
use mqproxy.Transport.Slots.{iter_live, slot_id}
use mqproxy.Transport.RingBuf
use mqproxy.Transport.RingBuf.{space, write_slice, commit, read_slice, consume}
use mqproxy.Transport.RingBuf.Laws.{IsRingBuf}

-- One live entry, and one place that was used before.
abbrev table : Slots.Slots ℕ
table = record {
  entries =
      record { generation = 1; value = some 40 } ∷ record { generation = 2; value = none } ∷ [];
  free = 1 ∷ [];
}

table-IsSlots : IsSlots table
table-IsSlots = record {
  generations = ((omega arith, omega arith), ((omega arith, omega arith), tt));
  few = omega arith;
  free = ((record { generation = 2; value = none }, refl, refl), tt);
}

insert_lem_example :
    (s' : Slots.Slots ℕ) × (id : ℕ) × (insert table 50 ≡ some (s', id)) × Inserted table s' 50 id
insert_lem_example = insert_lem table 50 table-IsSlots

live_run : get table (2 ^ 32) ≡ some 40
unfolding get Slots.get_entry
live_run = refl

remove_lem_example :
    (s' : Slots.Slots ℕ) × (remove table (2 ^ 32) ≡ (s', some 40))
    × Removed table s' 40 (2 ^ 32)
    × IsSlots s'
    × ((s'' : Slots.Slots ℕ) × (id' : ℕ) × (insert s' 50 ≡ some (s'', id'))
        × Reused s'' (2 ^ 32) id' 50)
remove_lem_example = remove_lem table (2 ^ 32) 40 50 table-IsSlots live_run

-- Two bytes wait at the end of a buffer of six.
abbrev buffer : RingBuf.RingBuf
buffer = record { storage = 1 ∷ 2 ∷ 3 ∷ 4 ∷ 0 ∷ 0 ∷ []; r = 2; w = 4 }

buffer-IsRingBuf : IsRingBuf buffer
buffer-IsRingBuf = record { r_le_w = omega arith; w_le = omega arith }

consume_run :
    consume buffer 2 ≡ some (record { storage = 1 ∷ 2 ∷ 3 ∷ 4 ∷ 0 ∷ 0 ∷ []; r = 0; w = 0 })
unfolding consume
consume_run = refl

live_ids : iter_live table ≡ (2 ^ 32, 40) ∷ []
unfolding iter_live Slots.live_from slot_id
live_ids = refl
