-- ===== src/Transport/TxQueues/Queue/Laws.antt =====
-- A queue of crates/mq-transport/src/txq.rs holds its packets in order, and sends them in runs.
use mqproxy.Prelude.{
  ℕ, ◌+◌, ◌-◌, ◌≤◌, ◌≡◌, refl, sym, ap, ◌∙◌, List, [], ◌∷◌, ◌++◌, length, take, drop, arith, ltb,
  if_elim, length-take, length-drop, length-append,
}
use mqproxy.Prelude.Slices.{drop-take, drop-append_le, take_all, take-append_le}
use mqproxy.Transport.TxQueues.Queue.{Pkt, Queue, new, compact, extend, append}

unfoldable pub sum : List Pkt → ℕ
sum [] = 0
sum (p ∷ ps) = p.len + sum ps

-- The bytes that wait, and the packets that they are: an address and a payload each.
abbrev pub stream : Queue → List ℕ
stream q = drop q.head (take q.tail q.buf)

unfoldable pub cut : List Pkt → List ℕ → List (ℕ × List ℕ)
cut [] s = []
cut (p ∷ ps) s = (p.dst, take p.len s) ∷ cut ps (drop p.len s)

abbrev pub content : Queue → List (ℕ × List ℕ)
content q = cut q.pkts (stream q)

unfoldable pub joined : List (ℕ × List ℕ) → List ℕ
joined [] = []
joined ((dst, payload) ∷ cs) = payload ++ joined cs

pub record IsQueue (q : Queue) : Type 0 where
  pub counted : q.bytes ≡ sum q.pkts
  pub span : q.head + q.bytes ≡ q.tail
  pub inside : q.tail ≤ length q.buf

pub new-IsQueue : IsQueue new
unfolding sum
new-IsQueue = record { counted = refl; span = omega arith; inside = omega arith }

pub length-stream : (q : Queue) → IsQueue q → length (stream q) ≡ q.bytes
length-stream q k =
    omega
      (arith, length-drop q.head (take q.tail q.buf), length-take q.tail q.buf, k.span, k.inside)

compact-IsQueue : (q : Queue) → IsQueue q → IsQueue (compact q) × (stream (compact q) ≡ stream q)
compact-IsQueue q k =
    let front : List ℕ = take (q.tail - q.head) (drop q.head q.buf) in
    let size : length front ≡ q.tail - q.head = omega (
      arith,
      length-take (q.tail - q.head) (drop q.head q.buf),
      length-drop q.head q.buf,
      k.inside,
    ) in
    let e : take (q.tail - q.head) (front ++ drop (q.tail - q.head) q.buf) ≡ front =
      take-append_le (q.tail - q.head) front (drop (q.tail - q.head) q.buf) (omega (arith, size))
      ∙ take_all (q.tail - q.head) front (omega (arith, size)) in
    (
      record {
        counted = k.counted;
        span = omega (arith, k.span);
        inside = omega (arith, length-append front (drop (q.tail - q.head) q.buf), size);
      },
      e ∙ sym (drop-take q.head q.tail q.buf),
    )

sum-append : (ps : List Pkt) (p : Pkt) → sum (ps ++ (p ∷ [])) ≡ sum ps + p.len
unfolding sum
sum-append [] p = omega arith
sum-append (x ∷ ps) p = omega (arith, sum-append ps p)

cut-append :
    (ps : List Pkt) (s pkt : List ℕ) (dst : ℕ)
    → length s ≡ sum ps
    → cut (ps ++ (record { len = length pkt; dst = dst } ∷ [])) (s ++ pkt)
      ≡ cut ps s ++ ((dst, pkt) ∷ [])
unfolding cut sum
cut-append [] [] pkt dst h = rw (take_all (length pkt) pkt (omega arith)) refl
cut-append [] (x ∷ s) pkt dst h = absurd (omega (arith, h))
cut-append (p ∷ ps) s pkt dst h =
    rw
      (
        take-append_le p.len s pkt (omega (arith, h)),
        drop-append_le p.len s pkt (omega (arith, h)),
        cut-append ps (drop p.len s) pkt dst (omega (arith, length-drop p.len s, h)),
      )
      refl

extend_lem :
    (q : Queue) (dst : ℕ) (pkt : List ℕ)
    → IsQueue q
    → IsQueue (extend q dst pkt) × (content (extend q dst pkt) ≡ content q ++ ((dst, pkt) ∷ []))
extend_lem q dst pkt k =
    let size : length (take q.tail q.buf) ≡ q.tail =
      omega (arith, length-take q.tail q.buf, k.inside) in
    let all : length (take q.tail q.buf ++ pkt) ≡ q.tail + length pkt =
      omega (arith, length-append (take q.tail q.buf) pkt, size) in
    let e : stream (extend q dst pkt) ≡ stream q ++ pkt =
      ap (drop q.head)
        (take_all (q.tail + length pkt) (take q.tail q.buf ++ pkt) (omega (arith, all)))
      ∙ drop-append_le q.head (take q.tail q.buf) pkt (omega (arith, size, k.span)) in
    (
      record {
        counted =
            omega (arith, sum-append q.pkts (record { len = length pkt; dst = dst }), k.counted);
        span = omega (arith, k.span);
        inside = omega (arith, all);
      },
      ap (cut (q.pkts ++ (record { len = length pkt; dst = dst } ∷ []))) e
          ∙ cut-append q.pkts (stream q) pkt dst (omega (arith, length-stream q k, k.counted)),
    )

-- Whatever the buffer's capacity, an append puts the packet behind the others.
pub append_lem :
    (capacity : ℕ) (q : Queue) (dst : ℕ) (pkt : List ℕ)
    → IsQueue q
    → IsQueue (append capacity q dst pkt)
      × (content (append capacity q dst pkt) ≡ content q ++ ((dst, pkt) ∷ []))
unfolding append
append_lem capacity q dst pkt k =
    let P = λ (r : Queue).
      IsQueue (extend r dst pkt) × (content (extend r dst pkt) ≡ content q ++ ((dst, pkt) ∷ [])) in
    if_elim P (ltb capacity (q.tail + length pkt))
      (λ full.
        let (k', same) = compact-IsQueue q k in
        let (kept, put) = extend_lem (compact q) dst pkt k' in
        (kept, put ∙ ap (λ s. cut q.pkts s ++ ((dst, pkt) ∷ [])) same))
      (λ room. extend_lem q dst pkt k)

pub bytes-append :
    (capacity : ℕ) (q : Queue) (dst : ℕ) (pkt : List ℕ)
    → (append capacity q dst pkt).bytes ≡ q.bytes + length pkt
unfolding append
bytes-append capacity q dst pkt = ground arith
