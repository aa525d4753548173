-- ===== src/Udp/Defrag/Reassembly.antt =====
-- The defragmenter of crates/mq-proxy/src/udp/defrag.rs gives back what crates/mq-wire/src/udp_msg.rs split.
use mqproxy.Prelude.{
  append-nil, ℕ, ◌+◌, ◌%◌, ◌^◌, ◌<◌, ◌≡◌, refl, sym, ap, ◌∙◌, List, [], ◌∷◌, Option, none, some,
  ◌||◌, length, get_elem?, set, take, get_elem?-set_self, get_elem?-append_last, get_elem?-some,
  get_elem?_lt, length-take, All, All-set, All-append, All-get_elem?, arith, ltb, leb, ◌==◌,
  if◌then◌else◌, Option-cases, Bool-cases, inl, inr, ltb→ge, ==_iff,
}
use mathlib.Core.List.{flatten}
use mqproxy.Prelude.Options.{◌>>=◌}
use mqproxy.Wire.UdpMsg.{UdpMsgHdr}
use mqproxy.Udp.Defrag.{
  Feed, complete, pending, rejected, Slot, Defrag, position, swap_remove, fresh, is_some, reuse,
  open_slot, locate, assembled, store, feed, max_total, slots_max,
}
use mqproxy.Udp.Defrag.Lists.{
  swap_remove-some, swap_remove-set, All-swap_remove, position_get, min_seq-some, count_some-set,
}
use mqproxy.Udp.Defrag.Invariant.{IsSlot, IsDefrag, Located, Locates, locate-Locates, next-IsDefrag}
use mqproxy.Udp.Defrag.Agree.{Agree, Agree-replicate, Agree-set, assembled_all}

-- `parts p` are the payloads, in order, of the fragments of the packet with the id `p`.
module _ (parts : ℕ → List (List ℕ)) where
  abbrev pub IsHonest : Slot → Type 0
  IsHonest s = Agree s.frags (parts s.packet_id)

  -- A fragment of one of these packets.
  pub record IsPart (h : UdpMsgHdr) (bytes : List ℕ) : Type 0 where
    pub count : length (parts h.packet_id) ≡ h.frag_count
    pub part : get_elem? (parts h.packet_id) h.frag_id ≡ some bytes

  abbrev Finds : UdpMsgHdr → Option (Defrag × Option ℕ) → Type 0
  Finds h none = Unit {0}
  Finds h (some (d, none)) = All IsHonest d.slots
  Finds h (some (d, some i)) =
      All IsHonest d.slots
      × (s : Slot) × (get_elem? d.slots i ≡ some s)
      × (s.packet_id ≡ h.packet_id)

  reuse-Finds :
      (d : Defrag) (h : UdpMsgHdr) (i : ℕ) (s : Slot)
      → All IsHonest d.slots
      → get_elem? d.slots i ≡ some s
      → s.packet_id ≡ h.packet_id
      → Finds h (reuse d h i)
  unfolding reuse
  reuse-Finds d h i s v at same =
      let here : i < length d.slots = get_elem?_lt d.slots i s at in
      let k : IsHonest s = All-get_elem? IsHonest d.slots i s v at in
      elim (Bool-cases (length s.frags == h.frag_count)) [
        | inl fits ↦
            rw (at, fits)
              (
                All-set IsHonest d.slots i (record s { seq = d.seq }) v k,
                record s { seq = d.seq },
                get_elem?-set_self d.slots i (record s { seq = d.seq }) here,
                same,
              )
        | inr differs ↦
            let (rest, r) = swap_remove-some d.slots i here in
            rw (at, differs, r) (All-swap_remove IsHonest d.slots i rest v r)
      ]

  open_slot-Finds :
      (d : Defrag) (h : UdpMsgHdr)
      → All IsHonest d.slots
      → length (parts h.packet_id) ≡ h.frag_count
      → Finds h (open_slot d h)
  unfolding open_slot fresh
  open_slot-Finds d h v count =
      let s = fresh h d.seq in
      let k : IsHonest s = Agree-replicate h.frag_count (parts h.packet_id) count in
      elim (Bool-cases (ltb (length d.slots) slots_max)) [
        | inl few ↦ rw few (
          All-append IsHonest d.slots (s ∷ []) v (k, tt),
          s,
          get_elem?-append_last d.slots s,
          refl,
        )
        | inr full ↦
            let l = length-take 4 d.slots in
            let (lru, least, e, lt) =
              min_seq-some (take 4 d.slots) (omega (arith, l, ltb→ge (length d.slots) 4 full)) in
            rw (full, e)
              (
                All-set IsHonest d.slots lru s v k,
                s,
                get_elem?-set_self d.slots lru s (omega (arith, l)),
                refl,
              )
      ]

  locate-Finds :
      (d : Defrag) (h : UdpMsgHdr)
      → All IsHonest d.slots
      → length (parts h.packet_id) ≡ h.frag_count
      → Finds h (locate d h)
  unfolding locate
  locate-Finds d h v count = elim (Option-cases (position h.packet_id d.slots)) [
    | inl nowhere ↦ rw (nowhere, locate) (open_slot-Finds d h v count)
    | inr (i, found) ↦
        let (s, at, same) = position_get h.packet_id d.slots i found in
        rw (found, locate) (reuse-Finds d h i s v at same)
  ]

  -- What `feed` gives: a completed packet is the one that was split, and the slots stay honest.
  abbrev pub Reassembles : ℕ → Option (Defrag × Feed) → Type 0
  Reassembles p none = Unit {0}
  Reassembles p (some (d, complete out)) = All IsHonest d.slots × (out ≡ flatten (parts p))
  Reassembles p (some (d, pending)) = All IsHonest d.slots
  Reassembles p (some (d, rejected)) = All IsHonest d.slots

  abbrev filled : Slot → ℕ → List ℕ → Slot
  filled s j bytes = record s {
    frags = set s.frags j (some bytes);
    received = s.received + 1;
    total_len = s.total_len + length bytes;
  }

  into_slot :
      (d : Defrag) (i : ℕ) (h : UdpMsgHdr) (bytes : List ℕ) (s : Slot) (old : Option (List ℕ))
      → All IsHonest d.slots
      → IsSlot s
      → Agree (set s.frags h.frag_id (some bytes)) (parts s.packet_id)
      → s.packet_id ≡ h.packet_id
      → i < length d.slots
      → get_elem? s.frags h.frag_id ≡ some old
      → Reassembles h.packet_id (
          if is_some old
          then some (d, pending)
          else if ltb max_total (s.total_len + length bytes)
          then (swap_remove d.slots i >>= λ rest. some (record d { slots = rest }, rejected))
          else if ltb (s.received + 1) (length (set s.frags h.frag_id (some bytes)))
          then some (record d { slots = set d.slots i (filled s h.frag_id bytes) }, pending)
          else (swap_remove (set d.slots i (filled s h.frag_id bytes)) i >>= λ rest. some (
            record d { slots = rest },
            complete (assembled (set s.frags h.frag_id (some bytes))),
          )))
  unfolding is_some
  into_slot d i h bytes s (some b) v k agree same here found = v
  into_slot d i h bytes s none v k agree same here found =
      let (rest, r) = swap_remove-some d.slots i here in
      let rest_ok : All IsHonest rest = All-swap_remove IsHonest d.slots i rest v r in
      let (count, sum) = count_some-set s.frags h.frag_id bytes found in
      elim (Bool-cases (ltb max_total (s.total_len + length bytes))) [
        | inl over ↦ rw (over, r) rest_ok
        | inr under ↦
            elim (Bool-cases (ltb (s.received + 1) (length (set s.frags h.frag_id (some bytes))))) [
              | inl more ↦
                  rw (under, more) (All-set IsHonest d.slots i (filled s h.frag_id bytes) v agree)
              | inr last ↦
                  let r' : swap_remove (set d.slots i (filled s h.frag_id bytes)) i ≡ some rest =
                    swap_remove-set d.slots i (filled s h.frag_id bytes) here ∙ r in
                  let full = ltb→ge _ _ last in
                  rw (under, last, r')
                    (
                      rest_ok,
                      assembled_all (set s.frags h.frag_id (some bytes)) (parts s.packet_id) agree
                            (omega (arith, k.counted))
                          ∙ ap (λ p. flatten (parts p)) same,
                    )
            ]
      ]

  store-Reassembles :
      (d : Defrag) (i : ℕ) (h : UdpMsgHdr) (bytes : List ℕ)
      → Located h d i
      → Finds h (some (d, some i))
      → IsPart h bytes
      → h.frag_id < h.frag_count
      → Reassembles h.packet_id (store d i h bytes)
  unfolding store
  store-Reassembles d i h bytes l (v, s, at, same) p lt =
      let (t, at', size) = l.slot in
      let e : t ≡ s = cc in
      let k : IsSlot s = All-get_elem? IsSlot d.slots i s l.ok.slots at in
      let honest : IsHonest s = All-get_elem? IsHonest d.slots i s v at in
      let size' : length s.frags ≡ h.frag_count =
        ap (λ (x : Slot). length x.frags) (sym e) ∙ size in
      let (old, found) = get_elem?-some s.frags h.frag_id (omega arith) in
      let part : get_elem? (parts s.packet_id) h.frag_id ≡ some bytes =
        ap (λ q. get_elem? (parts q) h.frag_id) same ∙ p.part in
      rw (at, found)
        (into_slot d i h bytes s old v k
          (Agree-set s.frags (parts s.packet_id) h.frag_id bytes honest part) same
          (get_elem?_lt d.slots i s at) found)

  rest-Reassembles :
      (h : UdpMsgHdr) (bytes : List ℕ) (o : Option (Defrag × Option ℕ))
      → Locates h o
      → Finds h o
      → IsPart h bytes
      → h.frag_id < h.frag_count
      → Reassembles h.packet_id
          (o >>= λ (d, at). elim at [ none ↦ some (d, rejected) | some i ↦ store d i h bytes ])
  rest-Reassembles h bytes none l f p lt = tt
  rest-Reassembles h bytes (some (d, none)) l f p lt = f
  rest-Reassembles h bytes (some (d, some i)) l f p lt = store-Reassembles d i h bytes l f p lt

  single_part :
      (cs : List (List ℕ)) (b : List ℕ) → length cs ≡ 1 → get_elem? cs 0 ≡ some b → b ≡ flatten cs
  unfolding flatten
  single_part [] b l e = cc
  single_part (c ∷ []) b l e = let same : c ≡ b = cc in sym same ∙ sym (append-nil c)
  single_part (c ∷ d ∷ cs) b l e = absurd (omega arith)

  pub feed-Reassembles :
      (d : Defrag) (h : UdpMsgHdr) (bytes : List ℕ)
      → IsDefrag d
      → All IsHonest d.slots
      → IsPart h bytes
      → Reassembles h.packet_id (feed d h bytes)
  unfolding feed
  feed-Reassembles d h bytes ok v p =
      elim (Bool-cases (h.frag_count == 0 || leb h.frag_count h.frag_id)) [
        | inl bad ↦ rw bad v
        | inr good ↦ elim (Bool-cases (h.frag_count == 1)) [
          | inl single ↦
              let first : h.frag_id ≡ 0 = ground arith in
              rw (good, single)
                (
                  v,
                  single_part (parts h.packet_id) bytes (p.count ∙ (==_iff h.frag_count 1).0 single)
                      (ap (get_elem? (parts h.packet_id)) (sym first) ∙ p.part),
                )
          | inr many ↦
              let next : Defrag = record d { seq = (d.seq + 1) % 2 ^ 64 } in
              rw (good, many)
                (rest-Reassembles h bytes (locate next h)
                  (locate-Locates next h (next-IsDefrag d ok) (ground arith))
                  (locate-Finds next h v p.count) p (ground arith))
        ]
      ]
