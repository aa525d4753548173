-- ===== src/Udp/Defrag/Delivery.antt =====
-- From the split of crates/mq-wire/src/udp_msg.rs to the packets of crates/mq-proxy/src/udp/defrag.rs.
use mqproxy.Prelude.{
  ℕ, zero, suc, ◌+◌, ◌≡◌, refl, sym, ap, ◌∙◌, List, [], ◌∷◌, ◌++◌, Option, none, some, ok, length,
  map, get_elem?, All, arith,
}
use mqproxy.Prelude.Options.{◌>>=◌}
use mathlib.Core.List.{flatten}
use mqproxy.Wire.UdpMsg.{UdpMsgHdr, split}
use mqproxy.Wire.UdpMsg.Laws.{joined, Numbered, packet_hdr, split_ok}
use mqproxy.Udp.Defrag.{Feed, complete, pending, rejected, Defrag, new, feed}
use mqproxy.Udp.Defrag.Invariant.{IsDefrag, new-IsDefrag, Fed, feed-Fed}
use mqproxy.Udp.Defrag.Reassembly.{IsHonest, IsPart, Reassembles, feed-Reassembles}

abbrev pub completed : Feed → ℕ → List (ℕ × List ℕ) → List (ℕ × List ℕ)
completed (complete bytes) p out = (p, bytes) ∷ out
completed pending p out = out
completed rejected p out = out

-- Datagrams arrive one after the other; each packet that is completed is listed with its id.
unfoldable pub deliver : Defrag → List (UdpMsgHdr × List ℕ) → Option (Defrag × List (ℕ × List ℕ))
unfolding feed
deliver d [] = some (d, [])
deliver d ((h, bytes) ∷ fs) = do
  (d', f) ← feed d h bytes
  (d'', out) ← deliver d' fs
  some (d'', completed f h.packet_id out)

payloads : List (UdpMsgHdr × List ℕ) → List (List ℕ)
payloads fs = map (λ f. f.1) fs

flatten-payloads : (fs : List (UdpMsgHdr × List ℕ)) → flatten (payloads fs) ≡ joined fs
unfolding flatten payloads
flatten-payloads [] = refl
flatten-payloads ((h, c) ∷ fs) = ap (λ x. c ++ x) (flatten-payloads fs)

length-payloads : (fs : List (UdpMsgHdr × List ℕ)) → length (payloads fs) ≡ length fs
unfolding payloads
length-payloads [] = refl
length-payloads (f ∷ fs) = ap suc (length-payloads fs)

Numbered-get_elem? :
    (hdr : UdpMsgHdr) (mss k : ℕ) (fs : List (UdpMsgHdr × List ℕ)) (i : ℕ) (h : UdpMsgHdr)
    (b : List ℕ)
    → Numbered hdr mss k fs
    → get_elem? fs i ≡ some (h, b)
    → (h ≡ record hdr { frag_id = k + i }) × (get_elem? (payloads fs) i ≡ some b)
unfolding payloads
Numbered-get_elem? hdr mss k [] i h b n e = cc
Numbered-get_elem? hdr mss k ((h', c) ∷ fs) zero h b n e =
    let same : h' ≡ h = cc in
    let part : c ≡ b = cc in
    let at : k ≡ k + 0 = omega arith in
    (sym same ∙ n.0 ∙ ap (λ j. record hdr { frag_id = j }) at, ap some part)
Numbered-get_elem? hdr mss k ((h', c) ∷ fs) (suc i) h b n e =
    let (same, part) = Numbered-get_elem? hdr mss (k + 1) fs i h b n.2 e in
    let at : k + 1 + i ≡ k + suc i = omega arith in
    (same ∙ ap (λ j. record hdr { frag_id = j }) at, part)

-- A fragment of the split is a part of its packet.
fragment-IsPart :
    (sid : ℕ) (mss : ℕ → ℕ) (send : ℕ → List ℕ) (sent : ℕ → List (UdpMsgHdr × List ℕ))
    → ((p : ℕ) → split sid p (send p) (mss p) ≡ ok (sent p))
    → (h : UdpMsgHdr) (b : List ℕ) (i : ℕ) → get_elem? (sent h.packet_id) i ≡ some (h, b)
    → IsPart (λ p. payloads (sent p)) h b
fragment-IsPart sid mss send sent made h b i e =
    let p = h.packet_id in
    let (whole, numbered, some_frag, few) = split_ok sid p (send p) (mss p) (sent p) (made p) in
    let (same, part) =
      Numbered-get_elem? (packet_hdr sid p (length (sent p))) (mss p) 0 (sent p) i h b numbered e in
    let from_start : 0 + i ≡ i = omega arith in
    record {
      count = length-payloads (sent p) ∙ sym (ap (λ (x : UdpMsgHdr). x.frag_count) same);
      part =
          ap (get_elem? (payloads (sent p))) (ap (λ (x : UdpMsgHdr). x.frag_id) same ∙ from_start)
          ∙ part;
    }

-- No panic, and every packet is the one that was sent under its id.
abbrev pub Delivers : (ℕ → List ℕ) → Option (Defrag × List (ℕ × List ℕ)) → Type 0
Delivers send none = ⊥
Delivers send (some (d, out)) = All (λ o. o.1 ≡ send o.0) out

module _ (send : ℕ → List ℕ) (parts : ℕ → List (List ℕ))
    (whole : (p : ℕ) → flatten (parts p) ≡ send p) where
  more :
      (f : Feed) (p : ℕ) (o : Option (Defrag × List (ℕ × List ℕ)))
      → ((bytes : List ℕ) → f ≡ complete bytes → bytes ≡ send p)
      → Delivers send o
      → Delivers send (o >>= λ (d, out). some (d, completed f p out))
  more f p none right v = v
  more (complete bytes) p (some (d, out)) right v = (right bytes refl, v)
  more pending p (some (d, out)) right v = v
  more rejected p (some (d, out)) right v = v

  after_feed :
      (fs : List (UdpMsgHdr × List ℕ)) (p : ℕ) (bytes : List ℕ) (o : Option (Defrag × Feed))
      → Fed bytes o
      → Reassembles parts p o
      → ((d : Defrag) → IsDefrag d → All (IsHonest parts) d.slots → Delivers send (deliver d fs))
      → Delivers send (o >>= λ (d, f). deliver d fs >>= λ (d', out). some (d', completed f p out))
  after_feed fs p bytes none fed r next = fed
  after_feed fs p bytes (some (d, complete out)) fed r next =
      more (complete out) p (deliver d fs)
        (λ b e. (let same : out ≡ b = cc in sym same ∙ r.1 ∙ whole p)) (next d fed.0 r.0)
  after_feed fs p bytes (some (d, pending)) fed r next =
      more pending p (deliver d fs) (λ b e. cc) (next d fed r)
  after_feed fs p bytes (some (d, rejected)) fed r next =
      more rejected p (deliver d fs) (λ b e. cc) (next d fed r)

  deliver_parts :
      (d : Defrag) (fs : List (UdpMsgHdr × List ℕ))
      → IsDefrag d
      → All (IsHonest parts) d.slots
      → All (λ f. IsPart parts f.0 f.1) fs
      → Delivers send (deliver d fs)
  unfolding deliver
  deliver_parts d [] k v ps = tt
  deliver_parts d ((h, bytes) ∷ fs) k v (p, ps) =
      after_feed fs h.packet_id bytes (feed d h bytes) (feed-Fed d h bytes k)
        (feed-Reassembles parts d h bytes k v p) (λ d' k' v'. deliver_parts d' fs k' v' ps)

-- The packets may have been split at different sizes.
pub deliver_fragments :
    (sid : ℕ) (mss : ℕ → ℕ) (send : ℕ → List ℕ) (sent : ℕ → List (UdpMsgHdr × List ℕ))
    → ((p : ℕ) → split sid p (send p) (mss p) ≡ ok (sent p))
    → (arrived : List (UdpMsgHdr × List ℕ))
    → All (λ f. (i : ℕ) × (get_elem? (sent f.0.packet_id) i ≡ some f)) arrived
    → Delivers send (deliver new arrived)
deliver_fragments sid mss send sent made arrived genuine =
    deliver_parts send (λ p. payloads (sent p))
      (λ p. flatten-payloads (sent p) ∙ (split_ok sid p (send p) (mss p) (sent p) (made p)).0) new
      arrived new-IsDefrag tt (all_parts arrived genuine)
  where
    all_parts :
        (fs : List (UdpMsgHdr × List ℕ))
        → All (λ f. (i : ℕ) × (get_elem? (sent f.0.packet_id) i ≡ some f)) fs
        → All (λ f. IsPart (λ p. payloads (sent p)) f.0 f.1) fs
    all_parts [] g = tt
    all_parts ((h, b) ∷ fs) ((i, e), g) =
        (fragment-IsPart sid mss send sent made h b i e, all_parts fs g)

-- Packets are split, each under its own id, and their fragments arrive in any order and of any packets mixed,
-- lost and repeated as it happens: the defragmenter does not panic, and every packet that it completes is,
-- byte for byte, the one that was sent under that id.
pub deliver-split :
    (sid mss : ℕ) (send : ℕ → List ℕ) (sent : ℕ → List (UdpMsgHdr × List ℕ))
    → ((p : ℕ) → split sid p (send p) mss ≡ ok (sent p))
    → (arrived : List (UdpMsgHdr × List ℕ))
    → All (λ f. (i : ℕ) × (get_elem? (sent f.0.packet_id) i ≡ some f)) arrived
    → Delivers send (deliver new arrived)
deliver-split sid mss send sent made arrived genuine =
    deliver_fragments sid (λ p. mss) send sent made arrived genuine
