-- ===== src/Udp/Defrag/Invariant.antt =====
-- The defragmenter of crates/mq-proxy/src/udp/defrag.rs keeps its slots in order and never panics.
use mqproxy.Prelude.{
  All-set, All-get_elem?, get_elem?-some, get_elem?_lt, get_elem?-append_last, ℕ, ◌+◌, ◌%◌, ◌^◌,
  ◌≤◌, ◌<◌, ◌≡◌, refl, ◌∙◌, ◌⊎◌, List, [], ◌∷◌, Option, none, some, ◌||◌, length, get_elem?, set,
  take, get_elem?-set_self, ==_iff, length-set, length-take, length-append, length-replicate, All,
  All-append, arith, ltb, leb, ◌==◌, if◌then◌else◌, Option-cases, Bool-cases, inl, inr, ltb→lt,
  ltb→ge,
}
use mqproxy.Prelude.Options.{◌>>=◌}
use mqproxy.Wire.UdpMsg.{UdpMsgHdr}
use mqproxy.Udp.Defrag.{
  Feed, complete, pending, rejected, Slot, Defrag, new, position, swap_remove, fresh, is_some,
  reuse, open_slot, locate, assembled, store, feed, max_total, slots_max,
}
use mqproxy.Udp.Defrag.Lists.{
  swap_remove-some, length-swap_remove, swap_remove-set, All-swap_remove, position_get,
  min_seq-some, count_some, total, count_some-set, count_some-replicate, length-assembled,
}

-- A slot counts its fragments and their bytes, and always waits for one more.
pub record IsSlot (s : Slot) : Type 0 where
  pub counted : s.received ≡ count_some s.frags
  pub waiting : s.received < length s.frags
  pub sized : s.total_len ≡ total s.frags
  pub capped : s.total_len ≤ max_total

pub record IsDefrag (d : Defrag) : Type 0 where
  pub few : length d.slots ≤ slots_max
  pub slots : All IsSlot d.slots

pub new-IsDefrag : IsDefrag new
new-IsDefrag = record { few = omega arith; slots = tt }

fresh-IsSlot : (h : UdpMsgHdr) (seq : ℕ) → 0 < h.frag_count → IsSlot (fresh h seq)
unfolding fresh
fresh-IsSlot h seq many =
    let (c, t) = count_some-replicate h.frag_count in
    record {
      counted = omega arith;
      waiting = omega (arith, length-replicate {A = Option (List ℕ)} h.frag_count none);
      sized = omega arith;
      capped = omega arith;
    }

-- What `locate` gives: a defragmenter in order and, with an index, a slot for the header's packet.
pub record Located (h : UdpMsgHdr) (d : Defrag) (i : ℕ) : Type 0 where
  pub ok : IsDefrag d
  pub slot : (s : Slot) × (get_elem? d.slots i ≡ some s) × (length s.frags ≡ h.frag_count)

abbrev pub Locates : UdpMsgHdr → Option (Defrag × Option ℕ) → Type 0
Locates h none = ⊥
Locates h (some (d, none)) = IsDefrag d
Locates h (some (d, some i)) = Located h d i

removed :
    (d : Defrag) (i : ℕ) (rest : List Slot)
    → IsDefrag d
    → swap_remove d.slots i ≡ some rest
    → IsDefrag (record d { slots = rest })
removed d i rest v r = record {
  few = omega (arith, length-swap_remove d.slots i rest r);
  slots = All-swap_remove IsSlot d.slots i rest v.slots r;
}

placed :
    (d : Defrag) (i : ℕ) (s : Slot)
    → IsDefrag d
    → IsSlot s
    → IsDefrag (record d { slots = set d.slots i s })
placed d i s v k = record {
  few = omega (arith, length-set d.slots i s);
  slots = All-set IsSlot d.slots i s v.slots k;
}

touched :
    (d : Defrag) (i : ℕ) (s : Slot)
    → IsDefrag d
    → get_elem? d.slots i ≡ some s
    → IsDefrag (record d { slots = set d.slots i (record s { seq = d.seq }) })
touched d i s v e =
    let k : IsSlot s = All-get_elem? IsSlot d.slots i s v.slots e in
    placed d i (record s { seq = d.seq }) v
      (record { counted = k.counted; waiting = k.waiting; sized = k.sized; capped = k.capped })

reuse-Locates :
    (d : Defrag) (h : UdpMsgHdr) (i : ℕ) (s : Slot)
    → IsDefrag d
    → get_elem? d.slots i ≡ some s
    → Locates h (reuse d h i)
unfolding reuse
reuse-Locates d h i s v e =
    let here : i < length d.slots = get_elem?_lt d.slots i s e in
    elim (Bool-cases (length s.frags == h.frag_count)) [
      | inl same ↦
          rw (e, same)
            (record {
              ok = touched d i s v e;
              slot = (
                record s { seq = d.seq },
                get_elem?-set_self d.slots i _ here,
                (==_iff (length s.frags) h.frag_count).0 same,
              );
            })
      | inr differs ↦
          let (rest, r) = swap_remove-some d.slots i here in
          rw (e, differs, r) (removed d i rest v r)
    ]

open_slot-Locates :
    (d : Defrag) (h : UdpMsgHdr) → IsDefrag d → 0 < h.frag_count → Locates h (open_slot d h)
unfolding open_slot
open_slot-Locates d h v many =
    let s = fresh h d.seq in
    let k : IsSlot s = fresh-IsSlot h d.seq many in
    let size : length s.frags ≡ h.frag_count =
      length-replicate {A = Option (List ℕ)} h.frag_count none in
    elim (Bool-cases (ltb (length d.slots) slots_max)) [
      | inl few ↦ rw few (record {
        ok = record {
          few = omega (arith, ltb→lt (length d.slots) 4 few, length-append d.slots (s ∷ []));
          slots = All-append IsSlot d.slots (s ∷ []) v.slots (k, tt);
        };
        slot = (s, get_elem?-append_last d.slots s, size);
      })
      | inr full ↦
          let l = length-take 4 d.slots in
          let (lru, least, e, lt) =
            min_seq-some (take 4 d.slots) (omega (arith, l, ltb→ge (length d.slots) 4 full)) in
          rw (full, e)
            (record {
              ok = placed d lru s v k;
              slot = (s, get_elem?-set_self d.slots lru s (omega (arith, l)), size);
            })
    ]

-- What `store` and `feed` give: no panic, a defragmenter in order, and a packet that is not too long.
abbrev pub Fed : List ℕ → Option (Defrag × Feed) → Type 0
Fed bytes none = ⊥
Fed bytes (some (d, complete out)) = IsDefrag d × ((length out ≤ max_total) ⊎ (out ≡ bytes))
Fed bytes (some (d, pending)) = IsDefrag d
Fed bytes (some (d, rejected)) = IsDefrag d

-- The slot once the fragment is in it.
abbrev filled : Slot → ℕ → List ℕ → Slot
filled s j bytes = record s {
  frags = set s.frags j (some bytes);
  received = s.received + 1;
  total_len = s.total_len + length bytes;
}

into_slot :
    (d : Defrag) (i : ℕ) (h : UdpMsgHdr) (bytes : List ℕ) (s : Slot) (old : Option (List ℕ))
    → IsDefrag d
    → IsSlot s
    → i < length d.slots
    → get_elem? s.frags h.frag_id ≡ some old
    → Fed bytes (
        if is_some old
        then some (d, pending)
        else if ltb max_total (s.total_len + length bytes)
        then (swap_remove d.slots i >>= λ rest. some (record d { slots = rest }, rejected))
        else if ltb (s.received + 1) (length (set s.frags h.frag_id (some bytes)))
        then some (record d { slots = set d.slots i (filled s h.frag_id bytes) }, pending)
        else (swap_remove (set d.slots i (filled s h.frag_id bytes)) i >>= λ rest.
            some (
              record d { slots = rest },
              complete (assembled (set s.frags h.frag_id (some bytes))),
            )))
unfolding is_some
into_slot d i h bytes s (some b) v k here found = v
into_slot d i h bytes s none v k here found =
    let (count, sum) = count_some-set s.frags h.frag_id bytes found in
    let same : length (set s.frags h.frag_id (some bytes)) ≡ length s.frags =
      length-set s.frags h.frag_id (some bytes) in
    elim (Bool-cases (ltb max_total (s.total_len + length bytes))) [
      | inl over ↦
          let (rest, r) = swap_remove-some d.slots i here in rw (over, r) (removed d i rest v r)
      | inr under ↦
          let cap = ltb→ge max_total (s.total_len + length bytes) under in
          elim (Bool-cases (ltb (s.received + 1) (length (set s.frags h.frag_id (some bytes))))) [
            | inl more ↦
                rw (under, more)
                  (placed d i (filled s h.frag_id bytes) v (record {
                    counted = omega arith;
                    waiting = ltb→lt _ _ more;
                    sized = omega arith;
                    capped = cap;
                  }))
            | inr last ↦
                let (rest, r) = swap_remove-some d.slots i here in
                let r' : swap_remove (set d.slots i (filled s h.frag_id bytes)) i ≡ some rest =
                  swap_remove-set d.slots i (filled s h.frag_id bytes) here ∙ r in
                rw (under, last, r')
                  (
                    removed d i rest v r,
                    inl (omega (arith, length-assembled (set s.frags h.frag_id (some bytes)))),
                  )
          ]
    ]

store-Fed :
    (d : Defrag) (i : ℕ) (h : UdpMsgHdr) (bytes : List ℕ)
    → Located h d i
    → h.frag_id < h.frag_count
    → Fed bytes (store d i h bytes)
unfolding store
store-Fed d i h bytes l lt =
    let (s, at, size) = l.slot in
    let k : IsSlot s = All-get_elem? IsSlot d.slots i s l.ok.slots at in
    let here : i < length d.slots = get_elem?_lt d.slots i s at in
    let (old, found) = get_elem?-some s.frags h.frag_id (omega arith) in
    rw (at, found) (into_slot d i h bytes s old l.ok k here found)

pub locate-Locates :
    (d : Defrag) (h : UdpMsgHdr) → IsDefrag d → 0 < h.frag_count → Locates h (locate d h)
unfolding locate
locate-Locates d h v many = elim (Option-cases (position h.packet_id d.slots)) [
  | inl nowhere ↦ rw (nowhere, locate) (open_slot-Locates d h v many)
  | inr (i, found) ↦
      let (s, at, same) = position_get h.packet_id d.slots i found in
      rw (found, locate) (reuse-Locates d h i s v at)
]

Fed-rest :
    (h : UdpMsgHdr) (bytes : List ℕ) (o : Option (Defrag × Option ℕ))
    → Locates h o
    → h.frag_id < h.frag_count
    → Fed bytes
        (o >>= λ (d, at). elim at [ none ↦ some (d, rejected) | some i ↦ store d i h bytes ])
Fed-rest h bytes none l lt = absurd l
Fed-rest h bytes (some (d, none)) l lt = l
Fed-rest h bytes (some (d, some i)) l lt = store-Fed d i h bytes l lt

abbrev pub next : Defrag → Defrag
next d = record d { seq = (d.seq + 1) % 2 ^ 64 }

pub next-IsDefrag : (d : Defrag) → IsDefrag d → IsDefrag (next d)
next-IsDefrag d v = record { few = v.few; slots = v.slots }

-- `feed` never panics, whatever header and bytes arrive: every slot stays in order (at most four,
-- each counting its fragments and bytes, none complete, none over 65535 bytes), and a packet that
-- it completes is the datagram itself or has at most 65535 bytes.
pub feed-Fed :
    (d : Defrag) (h : UdpMsgHdr) (bytes : List ℕ) → IsDefrag d → Fed bytes (feed d h bytes)
unfolding feed
feed-Fed d h bytes v = elim (Bool-cases (h.frag_count == 0 || leb h.frag_count h.frag_id)) [
  | inl bad ↦ rw bad v
  | inr good ↦ elim (Bool-cases (h.frag_count == 1)) [
    | inl single ↦ rw (good, single) (v, inr refl)
    | inr many ↦
        rw (good, many)
          (Fed-rest h bytes (locate (next d) h)
            (locate-Locates (next d) h (next-IsDefrag d v) (ground arith)) (ground arith))
  ]
]
