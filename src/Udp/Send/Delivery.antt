-- ===== src/Udp/Send/Delivery.antt =====
-- From `send_packet` of crates/mq-proxy/src/udp/send.rs on one end to the defragmenter on the other.
use mqproxy.Prelude.{
  ℕ, zero, suc, ◌+◌, ◌≤◌, ◌<◌, ◌≡◌, refl, sym, ap, subst, ◌∙◌, List, [], ◌∷◌, ◌++◌, Option, none,
  some, Result, ok, err, length, drop, map, get_elem?, All, arith, ◌==◌, ==_iff, if◌then◌else◌,
  IsU16, IsU32, drop-length-append,
}
use mqproxy.Wire.UdpMsg.{UdpMsgHdr, SplitError, encode, decode, split}
use mqproxy.Wire.UdpMsg.Laws.{IsHdr, decode-encode_hdr, Numbered, packet_hdr, split_ok}
use mqproxy.Udp.Defrag.{new}
use mqproxy.Udp.Defrag.Delivery.{deliver, deliver_fragments, Delivers}
use mqproxy.Udp.Send.{Counters, Cx, MssCache, payload, Sending, datagram, send_packet}
use mqproxy.Udp.Send.Laws.{Sent, send_packet-Sent}

abbrev pub of_session :
    ℕ → Option UdpMsgHdr → List ℕ → List (UdpMsgHdr × List ℕ) → List (UdpMsgHdr × List ℕ)
of_session sid none x rest = rest
of_session sid (some h) x rest = if h.session_id == sid then (h, drop 9 x) ∷ rest else rest

-- What the receiver of one session makes of datagrams: short ones and those of other sessions are passed over.
unfoldable pub received : ℕ → List (List ℕ) → List (UdpMsgHdr × List ℕ)
received sid [] = []
received sid (x ∷ xs) = of_session sid (decode x) x (received sid xs)

-- A datagram that `send_packet` handed over for the packet `p`.
abbrev pub IsFrom : (ℕ → Cx) → (ℕ → Sending) → ℕ → List ℕ → Type 0
IsFrom cx s p x = (i : ℕ) × (get_elem? (drop (length (cx p).log) (s p).cx.log) i ≡ some x)

get_elem?-map :
    (fs : List (UdpMsgHdr × List ℕ)) (i : ℕ) (x : List ℕ)
    → get_elem? (map datagram fs) i ≡ some x
    → (f : UdpMsgHdr × List ℕ) × (get_elem? fs i ≡ some f) × (datagram f ≡ x)
get_elem?-map [] i x e = cc
get_elem?-map (f ∷ fs) zero x e = (f, refl, cc)
get_elem?-map (f ∷ fs) (suc i) x e = get_elem?-map fs i x e

-- A fragment of a split, with its header.
Numbered-IsHdr :
    (sid p n mss k : ℕ) (fs : List (UdpMsgHdr × List ℕ)) (i : ℕ) (h : UdpMsgHdr) (b : List ℕ)
    → IsU32 sid
    → IsU16 p
    → n ≤ 255
    → k + length fs ≤ 255
    → Numbered (packet_hdr sid p n) mss k fs
    → get_elem? fs i ≡ some (h, b)
    → IsHdr h × (h.session_id ≡ sid) × (h.packet_id ≡ p)
Numbered-IsHdr sid p n mss k [] i h b u32 u16 small few numbered e = cc
Numbered-IsHdr sid p n mss k ((h', b') ∷ fs) zero h b u32 u16 small few (q, r, numbered) e =
    let same : packet_hdr_at k ≡ h = (let at : h' ≡ h = cc in sym q ∙ at) in
    subst (λ h. IsHdr h × (h.session_id ≡ sid) × (h.packet_id ≡ p)) same
      (
        record {
          session_id = u32;
          packet_id = u16;
          flags = omega arith;
          frag_id = omega (arith, few);
          frag_count = omega (arith, small);
        },
        refl,
        refl,
      )
  where
    packet_hdr_at : ℕ → UdpMsgHdr
    packet_hdr_at k = record {
      session_id = sid;
      packet_id = p;
      flags = 0;
      frag_id = k;
      frag_count = n;
    }
Numbered-IsHdr sid p n mss k (f ∷ fs) (suc i) h b u32 u16 small few (q, r, numbered) e =
    Numbered-IsHdr sid p n mss (k + 1) fs i h b u32 u16 small (omega (arith, few)) numbered e

received_one :
    (sid : ℕ) (h : UdpMsgHdr) (b : List ℕ) (xs : List (List ℕ))
    → IsHdr h
    → h.session_id ≡ sid
    → received sid (datagram (h, b) ∷ xs) ≡ (h, b) ∷ received sid xs
unfolding received
received_one sid h b xs k mine =
    let (read, x, size) = decode-encode_hdr h b k in
    let rest : drop 9 (encode h ++ b) ≡ b =
      ap (λ n. drop n (encode h ++ b)) (sym size) ∙ drop-length-append (encode h) b in
    ap (λ o. of_session sid o (datagram (h, b)) (received sid xs)) read
    ∙ rw ((==_iff h.session_id sid).1 mine) (ap (λ y. (h, y) ∷ received sid xs) rest)

-- The split of a packet that went out.
ran :
    (cx : Cx) (mss : MssCache) (sid p : ℕ) (bytes : List ℕ) (c : Counters) (s : Sending)
    → send_packet cx mss sid p bytes c ≡ some s
    → 0 < s.out.frags_ok + s.out.failed
    → (fs : List (UdpMsgHdr × List ℕ)) × (split sid p bytes (payload mss cx).1 ≡ ok fs)
      × (drop (length cx.log) s.cx.log ≡ map datagram fs)
ran cx mss sid p bytes c s e some_out =
    let (s', e', sent) = send_packet-Sent cx mss sid p bytes c in
    let same : s' ≡ s = cc in
    by_split (split sid p bytes (payload mss cx).1) refl
      (subst (Sent cx c (payload mss cx).0 (split sid p bytes (payload mss cx).1)) same sent)
  where
    by_split :
        (r : Result SplitError (List (UdpMsgHdr × List ℕ)))
        → split sid p bytes (payload mss cx).1 ≡ r
        → Sent cx c (payload mss cx).0 r s
        → (fs : List (UdpMsgHdr × List ℕ)) × (split sid p bytes (payload mss cx).1 ≡ ok fs)
          × (drop (length cx.log) s.cx.log ≡ map datagram fs)
    by_split (ok fs) q sent =
        (fs, q, ap (drop (length cx.log)) sent.log ∙ drop-length-append cx.log (map datagram fs))
    by_split (err x) q sent = absurd (omega (arith, some_out, sent.count))

module _ (sid : ℕ) (u32 : IsU32 sid) (cx : ℕ → Cx) (mss : ℕ → MssCache) (send : ℕ → List ℕ)
    (c : ℕ → Counters) (s : ℕ → Sending)
    (sends : (p : ℕ) → send_packet (cx p) (mss p) sid p (send p) (c p) ≡ some (s p))
    (out : (p : ℕ) → 0 < (s p).out.frags_ok + (s p).out.failed) where
  sent : ℕ → List (UdpMsgHdr × List ℕ)
  sent p = (ran (cx p) (mss p) sid p (send p) (c p) (s p) (sends p) (out p)).0

  room : ℕ → ℕ
  room p = (payload (mss p) (cx p)).1

  made : (p : ℕ) → split sid p (send p) (room p) ≡ ok (sent p)
  unfolding sent room
  made p = (ran (cx p) (mss p) sid p (send p) (c p) (s p) (sends p) (out p)).1

  logged : (p : ℕ) → drop (length (cx p).log) (s p).cx.log ≡ map datagram (sent p)
  unfolding sent
  logged p = (ran (cx p) (mss p) sid p (send p) (c p) (s p) (sends p) (out p)).2

  abbrev IsSent : UdpMsgHdr × List ℕ → Type 0
  IsSent f = (i : ℕ) × (get_elem? (sent f.0.packet_id) i ≡ some f)

  -- One datagram is one fragment that was sent.
  from_one :
      (x : List ℕ) (p : ℕ)
      → IsU16 p
      → IsFrom cx s p x
      → (f : UdpMsgHdr × List ℕ) × (datagram f ≡ x) × IsHdr f.0 × (f.0.session_id ≡ sid) × IsSent f
  from_one x p u16 (i, at) =
      let ((h, b), found, same) =
        get_elem?-map (sent p) i x (ap (λ l. get_elem? l i) (sym (logged p)) ∙ at) in
      let (whole, numbered, some_frag, few) = split_ok sid p (send p) (room p) (sent p) (made p) in
      let (k, mine, here) =
        Numbered-IsHdr sid p (length (sent p)) (room p) 0 (sent p) i h b u32 u16 few
          (omega (arith, few)) numbered found in
      ((h, b), same, k, mine, (i, ap (λ q. get_elem? (sent q) i) here ∙ found))

  all_sent :
      (xs : List (List ℕ))
      → All (λ x. (p : ℕ) × IsU16 p × IsFrom cx s p x) xs
      → All IsSent (received sid xs)
  unfolding received
  all_sent [] all = tt
  all_sent (x ∷ xs) ((p, u16, from), all) =
      let ((h, b), same, k, mine, this) = from_one x p u16 from in
      subst (λ x. All IsSent (received sid (x ∷ xs))) same
        (subst (All IsSent) (sym (received_one sid h b xs k mine)) (this, all_sent xs all))

  -- `send_packet` is called for packets of one session, each under its own id, with whatever MSS at the time, and
  -- each is split. The datagrams that it handed over reach the other end in any order, mixed, lost and repeated
  -- as it happens: decoded and fed to the defragmenter they cause no panic, and every packet that it completes
  -- is, byte for byte, the one that was sent under that id.
  pub send_packet-deliver :
      (arrived : List (List ℕ))
      → All (λ x. (p : ℕ) × IsU16 p × IsFrom cx s p x) arrived
      → Delivers send (deliver new (received sid arrived))
  send_packet-deliver arrived all =
      deliver_fragments sid room send sent made (received sid arrived) (all_sent arrived all)
