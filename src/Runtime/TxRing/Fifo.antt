-- ===== src/Runtime/TxRing/Fifo.antt =====
-- The ring of crates/mq-runtime/src/shard/tx_ring.rs as a queue, over any sequence of operations.
use mqproxy.Prelude.{
  ℕ, ◌+◌, ◌-◌, ◌≤◌, ◌≡◌, refl, sym, ap, subst, ◌∙◌, List, [], ◌∷◌, ◌++◌, Option, none, some, ltb,
  length, drop, length-append, length-take, length-drop, drop-length-append, append_assoc,
  append-nil, arith, All, All-append, Bool-cases, inl, inr, ltb→ge,
}
use mqproxy.Prelude.Options.{◌>>=◌}
use mqproxy.Transport.RingBuf
use mqproxy.Transport.RingBuf.{RingBuf, len, space, write_slice, commit, read_slice, consume}
use mqproxy.Transport.RingBuf.Laws.{IsRingBuf, commit-write_slice, consume_lem}
use mqproxy.Runtime.TxRing.Fields.{slice, slice-append}
use mqproxy.Runtime.TxRing.{
  SocketAddr, v4, v6, hdr, Pushed, done, send_buf_full, push, head_of, head, peek, peek_at, pop,
  pop_at,
}
use mqproxy.Runtime.TxRing.Laws.{
  IsAddr, no_flow, IsRecord, Holds, stream, stream-append_last, new-Holds, head_of-hdr,
}

hdr-no_flow : (dst : SocketAddr) (n : ℕ) → hdr (no_flow dst) n ≡ hdr dst n
unfolding hdr
hdr-no_flow (v4 ip port) n = refl
hdr-no_flow (v6 ip port flow scope) n = refl

no_flow-IsAddr : (dst : SocketAddr) → IsAddr dst → IsAddr (no_flow dst)
no_flow-IsAddr (v4 ip port) a = a
no_flow-IsAddr (v6 ip port flow scope) a = a

no_flow-no_flow : (dst : SocketAddr) → no_flow (no_flow dst) ≡ no_flow dst
no_flow-no_flow (v4 ip port) = refl
no_flow-no_flow (v6 ip port flow scope) = refl

-- A push is refused with the ring as it was, or adds a record; it does not panic.
abbrev PushedOn :
    List (SocketAddr × List ℕ) → SocketAddr × List ℕ → RingBuf → Option (RingBuf × Pushed) → Type 0
PushedOn q r ring none = ⊥
PushedOn q r ring (some (ring', send_buf_full)) = ring' ≡ ring
PushedOn q r ring (some (ring', done)) = Holds ring' (q ++ (r ∷ []))

push-PushedOn :
    (ring : RingBuf) (q : List (SocketAddr × List ℕ)) (dst : SocketAddr) (bytes : List ℕ)
    → Holds ring q
    → IsAddr dst
    → PushedOn q (no_flow dst, bytes) ring (push ring dst bytes)
unfolding push
push-PushedOn ring q dst bytes k a = elim (Bool-cases (ltb 65535 (length bytes))) [
  | inl long ↦ rw long refl
  | inr fits ↦
      let h = hdr dst (length bytes) in
      elim (Bool-cases (ltb (space ring) (length h + length bytes))) [
        | inl full ↦ rw (fits, full) refl
        | inr room ↦
            let size : length (h ++ bytes) ≡ length h + length bytes = length-append h bytes in
            let (b1, b2, w, c, r, ok, left) =
              commit-write_slice ring (h ++ bytes) k.ok (omega (arith, size, ltb→ge _ _ room)) in
            let c' : commit b1 (length h + length bytes) ≡ some b2 =
              ap (commit b1) (sym size) ∙ c in
            rw (fits, room, w, c')
              (record {
                ok = ok;
                bytes =
                    r
                    ∙ ap (λ x. x ++ (h ++ bytes)) k.bytes
                    ∙ ap (λ x. stream q ++ (x ++ bytes)) (sym (hdr-no_flow dst (length bytes)))
                    ∙ sym (stream-append_last q (no_flow dst) bytes);
                records =
                    All-append IsRecord q ((no_flow dst, bytes) ∷ []) k.records
                      ((no_flow-IsAddr dst a, ltb→ge _ _ fits), tt);
              })
      ]
]

head_none : (ring : RingBuf) → Holds ring [] → head ring ≡ some none
unfolding head_of stream
head_none ring k = ap head_of k.bytes

head_some :
    (ring : RingBuf) (dst : SocketAddr) (bytes : List ℕ) (q : List (SocketAddr × List ℕ))
    → Holds ring ((dst, bytes) ∷ q)
    → head ring ≡ some (some (no_flow dst, length (hdr dst (length bytes)), length bytes))
unfolding stream
head_some ring dst bytes q k =
    let ((a, l), rest) = k.records in
    ap head_of k.bytes ∙ head_of-hdr dst (length bytes) (bytes ++ stream q) a l

-- What is at the front is the oldest record.
abbrev first : List (SocketAddr × List ℕ) → Option (SocketAddr × List ℕ)
first [] = none
first ((dst, bytes) ∷ q) = some (no_flow dst, bytes)

peek-first :
    (ring : RingBuf) (q : List (SocketAddr × List ℕ)) → Holds ring q → peek ring ≡ some (first q)
unfolding peek stream
peek-first ring [] k = ap (λ o. o >>= peek_at ring) (head_none ring k)
peek-first ring ((dst, bytes) ∷ q) k =
    let h = hdr dst (length bytes) in
    let read : slice (read_slice ring) (length h) (length h + length bytes) ≡ some bytes =
      ap (λ r. slice r (length h) (length h + length bytes)) k.bytes
      ∙ slice-append h bytes (stream q) (length h) (length h + length bytes) refl refl in
    ap (λ o. o >>= peek_at ring) (head_some ring dst bytes q k)
    ∙ ap (λ o. o >>= λ b. some (some (no_flow dst, b))) read

abbrev others : List (SocketAddr × List ℕ) → List (SocketAddr × List ℕ)
others [] = []
others (r ∷ q) = q

length-read_slice : (ring : RingBuf) → IsRingBuf ring → length (read_slice ring) ≡ len ring
unfolding read_slice
length-read_slice ring ok = omega (
  arith,
  length-take (ring.w - ring.r) (drop ring.r ring.storage),
  length-drop ring.r ring.storage,
  ok.w_le,
  ok.r_le_w,
)

pop-others :
    (ring : RingBuf) (q : List (SocketAddr × List ℕ))
    → Holds ring q
    → (ring' : RingBuf) × (pop ring ≡ some ring') × Holds ring' (others q)
unfolding pop stream
pop-others ring [] k = (ring, ap (λ o. o >>= pop_at ring) (head_none ring k), k)
pop-others ring ((dst, bytes) ∷ q) k =
    let h = hdr dst (length bytes) in
    let whole : read_slice ring ≡ (h ++ bytes) ++ stream q =
      k.bytes ∙ sym (append_assoc h bytes (stream q)) in
    let size : length (h ++ bytes) ≡ length h + length bytes = length-append h bytes in
    let room : length h + length bytes ≤ len ring = omega (
      arith,
      length-read_slice ring k.ok,
      ap length whole,
      length-append (h ++ bytes) (stream q),
      size,
    ) in
    let (ring', c, r, ok, free) = consume_lem ring (length h + length bytes) k.ok room in
    (
      ring',
      ap (λ o. o >>= pop_at ring) (head_some ring dst bytes q k) ∙ c,
      record {
        ok = ok;
        bytes =
            r
            ∙ ap (λ n. drop n (read_slice ring)) (sym size)
            ∙ ap (drop (length (h ++ bytes))) whole
            ∙ drop-length-append (h ++ bytes) (stream q);
        records = k.records.1;
      },
    )

-- What the shard does: it queues a datagram, or sends the oldest one.
pub data Op : Type 0 where
  pushing : SocketAddr → List ℕ → Op
  sending : Op

abbrev pub accepted :
    Pushed → SocketAddr × List ℕ → List (SocketAddr × List ℕ) → List (SocketAddr × List ℕ)
accepted done r acc = r ∷ acc
accepted send_buf_full r acc = acc

abbrev pub sent :
    Option (SocketAddr × List ℕ) → List (SocketAddr × List ℕ) → List (SocketAddr × List ℕ)
sent none out = out
sent (some r) out = r ∷ out

-- The ring at the end, the records that were accepted and the ones that were sent.
unfoldable pub run :
    RingBuf → List Op → Option (RingBuf × List (SocketAddr × List ℕ) × List (SocketAddr × List ℕ))
unfolding push peek pop
run ring [] = some (ring, [], [])
run ring (pushing dst bytes ∷ ops) = do
  (ring', r) ← push ring dst bytes
  (end, acc, out) ← run ring' ops
  some (end, accepted r (no_flow dst, bytes) acc, out)
run ring (sending ∷ ops) = do
  front ← peek ring
  ring' ← pop ring
  (end, acc, out) ← run ring' ops
  some (end, acc, sent front out)

abbrev pub IsOp : Op → Type 0
IsOp (pushing dst bytes) = IsAddr dst
IsOp sending = Unit {0}

-- From a ring that holds `q`.
abbrev pub Fifo :
    List (SocketAddr × List ℕ)
    → Option (RingBuf × List (SocketAddr × List ℕ) × List (SocketAddr × List ℕ))
    → Type 0
Fifo q none = ⊥
Fifo q (some (end, acc, out)) =
    (left : List (SocketAddr × List ℕ)) × (q ++ acc ≡ out ++ left) × Holds end left

abbrev AreFlowless : List (SocketAddr × List ℕ) → Type 0
AreFlowless q = All (λ r. no_flow r.0 ≡ r.0) q

after_push :
    (q : List (SocketAddr × List ℕ)) (r : SocketAddr × List ℕ) (ring : RingBuf) (ops : List Op)
    (o : Option (RingBuf × Pushed))
    → Holds ring q
    → PushedOn q r ring o
    → ((ring' : RingBuf) → Holds ring' q → Fifo q (run ring' ops))
    → ((ring' : RingBuf) → Holds ring' (q ++ (r ∷ [])) → Fifo (q ++ (r ∷ [])) (run ring' ops))
    → Fifo q (
        o >>= λ (ring', res).
        run ring' ops >>= λ (end, acc, out). some (end, accepted res r acc, out))
after_push q r ring ops none k p same more = p
after_push q r ring ops (some (ring', send_buf_full)) k p same more =
    refused (run ring' ops) (same ring' (subst (λ x. Holds x q) (sym p) k))
  where
    refused :
        (o : Option (RingBuf × List (SocketAddr × List ℕ) × List (SocketAddr × List ℕ)))
        → Fifo q o
        → Fifo q (o >>= λ (end, acc, out). some (end, acc, out))
    refused none f = f
    refused (some (end, acc, out)) f = f
after_push q r ring ops (some (ring', done)) k p same more = added (run ring' ops) (more ring' p)
  where
    added :
        (o : Option (RingBuf × List (SocketAddr × List ℕ) × List (SocketAddr × List ℕ)))
        → Fifo (q ++ (r ∷ [])) o
        → Fifo q (o >>= λ (end, acc, out). some (end, r ∷ acc, out))
    added none f = f
    added (some (end, acc, out)) (left, e, h) = (left, sym (append_assoc q (r ∷ []) acc) ∙ e, h)

after_send :
    (q : List (SocketAddr × List ℕ))
    (o : Option (RingBuf × List (SocketAddr × List ℕ) × List (SocketAddr × List ℕ)))
    → AreFlowless q
    → Fifo (others q) o
    → Fifo q (o >>= λ (end, acc, out). some (end, acc, sent (first q) out))
after_send q none w f = f
after_send [] (some (end, acc, out)) w f = f
after_send ((dst, bytes) ∷ q) (some (end, acc, out)) w (left, e, h) =
    (left, ap (λ d. (d, bytes) ∷ (q ++ acc)) (sym w.0) ∙ ap (λ l. (no_flow dst, bytes) ∷ l) e, h)

run-Fifo_from :
    (ring : RingBuf) (q : List (SocketAddr × List ℕ)) (ops : List Op)
    → Holds ring q
    → AreFlowless q
    → All IsOp ops
    → Fifo q (run ring ops)
unfolding run
run-Fifo_from ring q [] k w a = (q, append-nil q, k)
run-Fifo_from ring q (pushing dst bytes ∷ ops) k w (a, rest) =
    after_push q (no_flow dst, bytes) ring ops (push ring dst bytes) k
      (push-PushedOn ring q dst bytes k a) (λ ring' k'. run-Fifo_from ring' q ops k' w rest)
      (λ ring' k'.
        run-Fifo_from ring' (q ++ ((no_flow dst, bytes) ∷ [])) ops k'
          (All-append (λ r. no_flow r.0 ≡ r.0) q ((no_flow dst, bytes) ∷ []) w
            (no_flow-no_flow dst, tt))
          rest)
run-Fifo_from ring q (sending ∷ ops) k w (a, rest) =
    let (ring', e, k') = pop-others ring q k in
    rw (peek-first ring q k, e)
      (after_send q (run ring' ops) w (run-Fifo_from ring' (others q) ops k' (fewer q w) rest))
  where
    fewer : (q : List (SocketAddr × List ℕ)) → AreFlowless q → AreFlowless (others q)
    fewer [] w = tt
    fewer (r ∷ q) w = w.1

-- Whatever datagrams are queued, to addresses of either family, and however sends come between, nothing
-- panics, and the datagrams accepted, with the IPv6 flow information cleared, are in order the ones sent,
-- followed by the ones that the ring still holds.
pub run-Fifo : (cap : ℕ) (ops : List Op) → All IsOp ops → Fifo [] (run (RingBuf.new cap) ops)
run-Fifo cap ops a = run-Fifo_from (RingBuf.new cap) [] ops (new-Holds cap) tt a
