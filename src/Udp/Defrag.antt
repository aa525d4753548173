-- ===== src/Udp/Defrag.antt =====
-- crates/mq-proxy/src/udp/defrag.rs: the datagram defragmenter, with four slots.
-- `none` stands for a panic on an index; Invariant shows that there is none.
pub mod Lists
pub mod Invariant
pub mod Agree
pub mod Reassembly
pub mod Delivery
use mqproxy.Prelude.{
  ℕ, suc, ◌+◌, ◌-◌, ◌%◌, ◌^◌, List, [], ◌∷◌, ◌++◌, Option, none, some, Bool, true, false, ◌||◌, ltb,
  leb, ◌==◌, if◌then◌else◌, length, get_elem?, set, take, replicate,
}
use mqproxy.Prelude.Options.{◌>>=◌}
use mqproxy.Wire.UdpMsg.{UdpMsgHdr}

abbrev pub slots_max : ℕ
slots_max = 4

-- The largest reassembled packet.
abbrev pub max_total : ℕ
max_total = 65535

pub data Feed : Type 0 where
  complete : List ℕ → Feed
  pending : Feed
  rejected : Feed

pub record Slot : Type 0 where
  pub packet_id : ℕ
  pub frags : List (Option (List ℕ))
  pub received : ℕ
  pub total_len : ℕ
  pub seq : ℕ

pub record Defrag : Type 0 where
  pub slots : List Slot
  pub seq : ℕ

abbrev pub new : Defrag
new = record { slots = []; seq = 0 }

-- `slots.iter().position(|s| s.packet_id == packet_id)`.
unfoldable pub position : ℕ → List Slot → Option ℕ
position p [] = none
position p (s ∷ ss) =
    if s.packet_id == p
    then some 0
    else elim (position p ss) [ none ↦ none | some i ↦ some (suc i) ]

-- `Vec::swap_remove`: the last element takes the place of the one removed.
unfoldable pub swap_remove {ℓ} : {A : Type ℓ} → List A → ℕ → Option (List A)
swap_remove xs i = do
  last ← get_elem? xs (length xs - 1)
  (if ltb i (length xs) then some (take (length xs - 1) (set xs i last)) else none)

-- The index and the value of the first least `seq`: `min_by_key`.
unfoldable pub min_seq : List Slot → Option (ℕ × ℕ)
min_seq [] = none
min_seq (s ∷ ss) = elim (min_seq ss) [
  | none ↦ some (0, s.seq)
  | some (j, m) ↦ if leb s.seq m then some (0, s.seq) else some (suc j, m)
]

unfoldable pub fresh : UdpMsgHdr → ℕ → Slot
fresh h seq = record {
  packet_id = h.packet_id;
  frags = replicate h.frag_count none;
  received = 0;
  total_len = 0;
  seq = seq;
}

unfoldable pub is_some {ℓ} : {A : Type ℓ} → Option A → Bool
is_some none = false
is_some (some a) = true

-- The slot of a known packet: dropped, with no index, if its fragment count differs.
unfoldable pub reuse : Defrag → UdpMsgHdr → ℕ → Option (Defrag × Option ℕ)
reuse d h i = do
  s ← get_elem? d.slots i
  (if length s.frags == h.frag_count
      then some (record d { slots = set d.slots i (record s { seq = d.seq }) }, some i)
      else (swap_remove d.slots i >>= λ rest. some (record d { slots = rest }, none)))

-- A slot for a new packet: pushed, or in the place of the least recently fed of the four.
unfoldable pub open_slot : Defrag → UdpMsgHdr → Option (Defrag × Option ℕ)
unfolding min_seq fresh
open_slot d h =
    let s = fresh h d.seq in
    if ltb (length d.slots) slots_max
    then some (record d { slots = d.slots ++ (s ∷ []) }, some (length d.slots))
    else do
      (lru, least) ← min_seq (take slots_max d.slots)
      some (record d { slots = set d.slots lru s }, some lru)

unfoldable pub locate : Defrag → UdpMsgHdr → Option (Defrag × Option ℕ)
locate d h = elim (position h.packet_id d.slots) [ some i ↦ reuse d h i | none ↦ open_slot d h ]

-- The payloads of the fragments that are there, in order.
unfoldable pub assembled : List (Option (List ℕ)) → List ℕ
assembled [] = []
assembled (none ∷ fs) = assembled fs
assembled (some b ∷ fs) = b ++ assembled fs

-- The fragment goes into slot `i`. A repeated one is looked for before the length is checked.
unfoldable pub store : Defrag → ℕ → UdpMsgHdr → List ℕ → Option (Defrag × Feed)
unfolding is_some
store d i h bytes = do
  s ← get_elem? d.slots i
  old ← get_elem? s.frags h.frag_id
  (let s' : Slot = record s {
    frags = set s.frags h.frag_id (some bytes);
    received = s.received + 1;
    total_len = s.total_len + length bytes;
  } in
      if is_some old
      then some (d, pending)
      else if ltb max_total (s.total_len + length bytes)
      then (swap_remove d.slots i >>= λ rest. some (record d { slots = rest }, rejected))
      else if ltb s'.received (length s'.frags)
      then some (record d { slots = set d.slots i s' }, pending)
      else (swap_remove (set d.slots i s') i >>= λ rest.
          some (record d { slots = rest }, complete (assembled s'.frags))))

unfoldable pub feed : Defrag → UdpMsgHdr → List ℕ → Option (Defrag × Feed)
feed d h bytes =
    if h.frag_count == 0 || leb h.frag_count h.frag_id
    then some (d, rejected)
    else if h.frag_count == 1
    then some (d, complete bytes)
    else do
      (d', at) ← locate (record d { seq = (d.seq + 1) % 2 ^ 64 }) h
      elim at [ none ↦ some (d', rejected) | some i ↦ store d' i h bytes ]
