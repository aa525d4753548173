-- ===== src/Transport/Slots.antt =====
-- crates/mq-transport/src/slots.rs, with `SlotId` of crates/mq-transport-api/src/ids.rs: generational
-- slot tables. `none` stands for a panic on an index. The head of `free` is the top of the stack.
pub mod Laws
pub mod Places
use mqproxy.Prelude.{
  ℕ, ◌+◌, ◌-◌, ◌*◌, ◌/◌, ◌%◌, ◌^◌, List, [], ◌∷◌, ◌++◌, Option, none, some, Bool, true, false, not,
  ◌==◌, if◌then◌else◌, length, get_elem?, set, bit_or,
}
use mqproxy.Prelude.Options.{◌>>=◌}

-- `SlotId::new`, `index` and `generation`; an id is a u64.
unfoldable pub slot_id : ℕ → ℕ → ℕ
slot_id index generation = bit_or (generation * 2 ^ 32) index

abbrev pub index_of : ℕ → ℕ
index_of id = id % 2 ^ 32

abbrev pub generation_of : ℕ → ℕ
generation_of id = id / 2 ^ 32

pub record Entry {ℓ} (T : Type ℓ) : Type ℓ where
  pub generation : ℕ
  pub value : Option T

pub record Slots {ℓ} (T : Type ℓ) : Type ℓ where
  pub entries : List (Entry T)
  pub free : List ℕ

-- `wrapping_add(1)`, skipping 0.
unfoldable pub next_generation : ℕ → ℕ
next_generation g = let g' = (g + 1) % 2 ^ 32 in if g' == 0 then 1 else g'

module _ {ℓ} {T : Type ℓ} where
  abbrev pub new : Slots T
  new = record { entries = []; free = [] }

  -- The entry of a popped index gets the value.
  unfoldable pub reuse : List (Entry T) → ℕ → List ℕ → T → Option (Slots T × ℕ)
  reuse entries i rest v = do
    e ← get_elem? entries i
    some (
      record { entries = set entries i (record e { value = some v }); free = rest },
      slot_id i e.generation,
    )

  unfoldable pub insert_with : List (Entry T) → List ℕ → T → Option (Slots T × ℕ)
  unfolding reuse
  insert_with entries [] v = some (
    record { entries = entries ++ (record { generation = 1; value = some v } ∷ []); free = [] },
    slot_id (length entries % 2 ^ 32) 1,
  )
  insert_with entries (i ∷ rest) v = reuse entries i rest v

  -- The table and the id.
  unfoldable pub insert : Slots T → T → Option (Slots T × ℕ)
  unfolding insert_with
  insert s v = insert_with s.entries s.free v

  unfoldable pub get_entry : Entry T → ℕ → Option T
  get_entry e id = if e.generation == generation_of id then e.value else none

  unfoldable pub get : Slots T → ℕ → Option T
  unfolding get_entry
  get s id = get_elem? s.entries (index_of id) >>= λ e. get_entry e id

  -- The value of a live entry leaves, and its place becomes free.
  unfoldable pub take_value : Slots T → ℕ → ℕ → Option T → Slots T × Option T
  unfolding next_generation
  take_value s id generation none = (s, none)
  take_value s id generation (some v) = (
    record {
      entries =
          set s.entries (index_of id)
            (record { generation = next_generation generation; value = none });
      free = index_of id ∷ s.free;
    },
    some v,
  )

  unfoldable pub remove_entry : Slots T → ℕ → Option (Entry T) → Slots T × Option T
  unfolding take_value
  remove_entry s id none = (s, none)
  remove_entry s id (some e) =
      if not (e.generation == generation_of id)
      then (s, none)
      else take_value s id e.generation e.value

  -- The table, with the value taken if the id is live.
  unfoldable pub remove : Slots T → ℕ → Slots T × Option T
  unfolding remove_entry
  remove s id = remove_entry s id (get_elem? s.entries (index_of id))

module _ {ℓ} {T : Type ℓ} where
  -- A write through `get_mut`: `none` if the id does not resolve.
  unfoldable pub update : Slots T → ℕ → (T → T) → Option (Slots T)
  update s id f = do
    e ← get_elem? s.entries (index_of id)
    v ← get_entry e id
    some (record s { entries = set s.entries (index_of id) (record e { value = some (f v) }) })

  abbrev is_some : Option T → Bool
  is_some none = false
  is_some (some v) = true

  unfoldable pub is_live : Slots T → ℕ → Bool
  is_live s id = is_some (get s id)

  -- The live entries from place `i` on, with their ids.
  unfoldable pub live_from : ℕ → List (Entry T) → List (ℕ × T)
  live_from i [] = []
  live_from i (e ∷ es) = elim e.value [
    | none ↦ live_from (i + 1) es
    | some v ↦ (slot_id (i % 2 ^ 32) e.generation, v) ∷ live_from (i + 1) es
  ]

  unfoldable pub iter_live : Slots T → List (ℕ × T)
  unfolding live_from
  iter_live s = live_from 0 s.entries
