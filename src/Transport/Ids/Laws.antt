-- ===== src/Transport/Ids/Laws.antt =====
-- The typed ids of crates/mq-transport-api/src/ids.rs are the handles with a generation.
use mqproxy.Prelude.{ℕ, ◌^◌, ◌≤◌, ◌<◌, ◌≡◌, refl, none, some, arith, ◌==◌, true, false}
use mqproxy.Transport.Slots.{generation_of}
use mqproxy.Transport.Slots.Places.{slot_id_parts}
use mqproxy.Transport.Ids.{GenId, from_slot, slot}

-- A typed id with a u32 index and a generation that is not 0 is read back from its handle; and no handle
-- whose generation is 0 gives one.
pub from_slot-slot :
    (id : GenId)
    → id.index < 2 ^ 32
    → 1 ≤ id.generation
    → (from_slot (slot id) ≡ some id) × ((s : ℕ) → s < 2 ^ 32 → from_slot s ≡ none)
unfolding from_slot
from_slot-slot id h k =
    let (i, g) = slot_id_parts id.index id.generation h in
    let live : (id.generation == 0) ≡ false = ground (arith, k) in
    (
      rw (i, g, live) refl,
      λ s small. let dead : (generation_of s == 0) ≡ true = ground (arith, small) in rw dead refl,
    )
