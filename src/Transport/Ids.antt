-- ===== src/Transport/Ids.antt =====
-- crates/mq-transport-api/src/ids.rs: raw slot handles, and the typed ids of live objects.
pub mod Laws
use mqproxy.Prelude.{ℕ, Bool, Option, none, some, ◌==◌, if◌then◌else◌}
use mqproxy.Transport.Slots.{slot_id, index_of, generation_of}

-- A `SlotId` is a number; `as_raw` and `from_raw` change nothing.
abbrev pub slot_none : ℕ
slot_none = 0

abbrev pub is_none : ℕ → Bool
is_none id = id == slot_none

-- What `gen_id!` declares: ConnId, StreamId and H3ReqId. The generation is not 0.
pub record GenId : Type 0 where
  pub index : ℕ
  pub generation : ℕ

unfoldable pub from_slot : ℕ → Option GenId
from_slot s =
    if generation_of s == 0
    then none
    else some (record { index = index_of s; generation = generation_of s })

abbrev pub slot : GenId → ℕ
slot id = slot_id id.index id.generation
