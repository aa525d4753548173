-- ===== src/Runtime/TxRing/Laws.antt =====
-- The records of crates/mq-runtime/src/shard/tx_ring.rs leave the ring as they came.
use mqproxy.Prelude.{
  ℕ, ◌+◌, ◌≤◌, ◌<◌, ◌^◌, ◌≡◌, refl, sym, ap, ◌∙◌, List, [], ◌∷◌, ◌++◌, Bool, true, false, Option,
  some, if◌then◌else◌, length, length-append, append_assoc, append-nil, arith, All,
}
use mqproxy.Prelude.Options.{◌>>=◌}
use mqproxy.Transport.RingBuf
use mqproxy.Transport.RingBuf.{RingBuf, len, space, write_slice, commit, read_slice, consume}
use mqproxy.Transport.RingBuf.Laws.{IsRingBuf, new-IsRingBuf}
use mqproxy.Runtime.TxRing.Fields.{to_le, of_le, slice, slice-append, length-to_le, of_le-to_le}
use mqproxy.Runtime.TxRing.{SocketAddr, v4, v6, hdr, head_at, head_of}

abbrev pub IsAddr : SocketAddr → Type 0
IsAddr (v4 ip port) = (length ip ≡ 4) × (port < 2 ^ 16)
IsAddr (v6 ip port flow scope) = (length ip ≡ 16) × (port < 2 ^ 16) × (scope < 2 ^ 32)

-- The address that comes back: the flow information is not kept.
abbrev pub no_flow : SocketAddr → SocketAddr
no_flow (v4 ip port) = v4 ip port
no_flow (v6 ip port flow scope) = v6 ip port 0 scope

head_at_lem :
    (four : Bool) (at family : ℕ) (ip p s l rest : List ℕ)
    → length ip + 1 ≡ at
    → length p ≡ 2
    → length s ≡ 4
    → length l ≡ 2
    → head_at four at ((family ∷ ip) ++ (p ++ (s ++ (l ++ rest))))
      ≡ some (if four then v4 ip (of_le p) else v6 ip (of_le p) 0 (of_le s), at + 8, of_le l)
unfolding head_at
head_at_lem four at family ip p s l rest a b c d =
    let r = (family ∷ ip) ++ (p ++ (s ++ (l ++ rest))) in
    let e1 : slice r 1 at ≡ some ip =
      slice-append (family ∷ []) ip (p ++ (s ++ (l ++ rest))) 1 at refl (omega arith) in
    let e2 : slice r at (at + 2) ≡ some p =
      slice-append (family ∷ ip) p (s ++ (l ++ rest)) at (at + 2) (omega arith) (omega arith) in
    let to_s : r ≡ ((family ∷ ip) ++ p) ++ (s ++ (l ++ rest)) =
      sym (append_assoc (family ∷ ip) p (s ++ (l ++ rest))) in
    let e3 : slice r (at + 2) (at + 6) ≡ some s =
      ap (λ x. slice x (at + 2) (at + 6)) to_s
      ∙ slice-append ((family ∷ ip) ++ p) s (l ++ rest) (at + 2) (at + 6)
          (omega (arith, length-append (family ∷ ip) p)) (omega arith) in
    let to_l : r ≡ (((family ∷ ip) ++ p) ++ s) ++ (l ++ rest) =
      to_s ∙ sym (append_assoc ((family ∷ ip) ++ p) s (l ++ rest)) in
    let e4 : slice r (at + 6) (at + 8) ≡ some l =
      ap (λ x. slice x (at + 6) (at + 8)) to_l
      ∙ slice-append (((family ∷ ip) ++ p) ++ s) l rest (at + 6) (at + 8)
          (omega (arith, length-append ((family ∷ ip) ++ p) s, length-append (family ∷ ip) p))
          (omega arith) in
    rw (e1, e2, e3, e4) refl

append3 : (a p s l rest : List ℕ) → (a ++ (p ++ (s ++ l))) ++ rest ≡ a ++ (p ++ (s ++ (l ++ rest)))
append3 a p s l rest =
    append_assoc a (p ++ (s ++ l)) rest
    ∙ ap (λ x. a ++ x) (append_assoc p (s ++ l) rest ∙ ap (λ x. p ++ x) (append_assoc s l rest))

length-hdr_parts :
    (a p s l : List ℕ) → length (a ++ (p ++ (s ++ l))) ≡ length a + length p + length s + length l
length-hdr_parts a p s l =
    omega (arith, length-append a (p ++ (s ++ l)), length-append p (s ++ l), length-append s l)

answer :
    (mk : ℕ → ℕ → SocketAddr) (p p' s s' n n' l l' : ℕ)
    → p ≡ p'
    → s ≡ s'
    → n ≡ n'
    → l ≡ l'
    → ◌≡◌ {A = Option (Option (SocketAddr × ℕ × ℕ))}
        (some (some (mk p s, n, l)))
        (some (some (mk p' s', n', l')))
answer mk p p' s s' n n' l l' e f g h = rw (e, f, g, h) refl

abbrev some_some : Option (SocketAddr × ℕ × ℕ) → Option (Option (SocketAddr × ℕ × ℕ))
some_some o = o >>= λ h. some (some h)

-- A header is read back.
pub head_of-hdr :
    (dst : SocketAddr) (len : ℕ) (rest : List ℕ)
    → IsAddr dst
    → len ≤ 65535
    → head_of (hdr dst len ++ rest) ≡ some (some (no_flow dst, length (hdr dst len), len))
unfolding head_of hdr
head_of-hdr (v4 ip port) len rest (four, small) h =
    let a = to_le 2 port in
    let b = to_le 4 0 in
    let c = to_le 2 len in
    let la = length-to_le 2 port in
    let lb = length-to_le 4 0 in
    let lc = length-to_le 2 len in
    ap head_of (append3 (4 ∷ ip) a b c rest)
    ∙ ap some_some (head_at_lem true 5 4 ip a b c rest (omega arith) la lb lc)
    ∙ answer (λ p s. v4 ip p) (of_le a) port 0 0 13 (length ((4 ∷ ip) ++ (a ++ (b ++ c)))) (of_le c)
        len (of_le-to_le 2 port (omega arith)) refl
        (omega (arith, length-hdr_parts (4 ∷ ip) a b c, la, lb, lc))
        (of_le-to_le 2 len (omega arith))
head_of-hdr (v6 ip port flow scope) len rest (sixteen, small, in_range) h =
    let a = to_le 2 port in
    let b = to_le 4 scope in
    let c = to_le 2 len in
    let la = length-to_le 2 port in
    let lb = length-to_le 4 scope in
    let lc = length-to_le 2 len in
    ap head_of (append3 (6 ∷ ip) a b c rest)
    ∙ ap some_some (head_at_lem false 17 6 ip a b c rest (omega arith) la lb lc)
    ∙ answer (λ p s. v6 ip p 0 s) (of_le a) port (of_le b) scope 25
        (length ((6 ∷ ip) ++ (a ++ (b ++ c)))) (of_le c) len (of_le-to_le 2 port (omega arith))
        (of_le-to_le 4 scope (omega arith))
        (omega (arith, length-hdr_parts (6 ∷ ip) a b c, la, lb, lc))
        (of_le-to_le 2 len (omega arith))

-- The bytes of the records that the ring holds.
unfoldable pub stream : List (SocketAddr × List ℕ) → List ℕ
stream [] = []
stream ((dst, bytes) ∷ q) = hdr dst (length bytes) ++ (bytes ++ stream q)

pub stream-append_last :
    (q : List (SocketAddr × List ℕ)) (dst : SocketAddr) (bytes : List ℕ)
    → stream (q ++ ((dst, bytes) ∷ [])) ≡ stream q ++ (hdr dst (length bytes) ++ bytes)
unfolding stream
stream-append_last [] dst bytes = ap (λ x. hdr dst (length bytes) ++ x) (append-nil bytes)
stream-append_last ((d, b) ∷ q) dst bytes =
    let h = hdr d (length b) in
    let new = hdr dst (length bytes) ++ bytes in
    ap (λ x. h ++ (b ++ x)) (stream-append_last q dst bytes)
    ∙ ap (λ x. h ++ x) (sym (append_assoc b (stream q) new))
    ∙ sym (append_assoc h (b ++ stream q) new)

abbrev pub IsRecord : SocketAddr × List ℕ → Type 0
IsRecord (dst, bytes) = IsAddr dst × (length bytes ≤ 65535)

-- The ring is a queue of records.
pub record Holds (ring : RingBuf) (q : List (SocketAddr × List ℕ)) : Type 0 where
  pub ok : IsRingBuf ring
  pub bytes : read_slice ring ≡ stream q
  pub records : All IsRecord q

pub new-Holds : (cap : ℕ) → Holds (RingBuf.new cap) []
unfolding read_slice stream
new-Holds cap = record { ok = new-IsRingBuf cap; bytes = refl; records = tt }
