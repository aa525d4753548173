-- ===== src/Transport/RingBuf/Laws.antt =====
-- The buffer of crates/mq-transport-api/src/ringbuf.rs is a queue of bytes.
use mqproxy.Prelude.{
  ℕ, ◌+◌, ◌-◌, ◌≤◌, ◌≡◌, refl, List, ◌++◌, some, length, take, drop, arith, length-take,
  length-append, length-drop, true, take-length-append, Bool-cases, inl, inr, leb, ◌==◌, ==_iff,
}
use mqproxy.Prelude.Slices.{drop-drop, drop-take, drop-append_le, drop_all}
use mqproxy.Transport.RingBuf.{RingBuf, new, len, space, write_slice, commit, read_slice, consume}

-- The cursors are in order.
pub record IsRingBuf (b : RingBuf) : Type 0 where
  pub r_le_w : b.r ≤ b.w
  pub w_le : b.w ≤ length b.storage

pub new-IsRingBuf : (cap : ℕ) → IsRingBuf (new cap)
new-IsRingBuf cap = record { r_le_w = omega arith; w_le = omega arith }

take_written :
    (pre bytes rest : List ℕ) (r n : ℕ)
    → r ≤ length pre
    → n ≡ length pre - r + length bytes
    → take n (drop r ((pre ++ bytes) ++ rest)) ≡ drop r pre ++ bytes
take_written pre bytes rest r n h size =
    let e1 : drop r ((pre ++ bytes) ++ rest) ≡ drop r (pre ++ bytes) ++ rest =
      drop-append_le r (pre ++ bytes) rest (omega (arith, length-append pre bytes)) in
    let e2 : drop r (pre ++ bytes) ≡ drop r pre ++ bytes = drop-append_le r pre bytes h in
    let e3 : n ≡ length (drop r pre ++ bytes) =
      omega (arith, length-append (drop r pre) bytes, length-drop r pre, size) in
    rw (e1, e2, e3) (take-length-append (drop r pre ++ bytes) rest)

take_written_at :
    (b : RingBuf) (bytes : List ℕ)
    → IsRingBuf b
    → take
        (b.w + length bytes - b.r)
        (drop b.r ((take b.w b.storage ++ bytes) ++ drop (b.w + length bytes) b.storage))
      ≡ take (b.w - b.r) (drop b.r b.storage) ++ bytes
take_written_at b bytes ok =
    let kept : length (take b.w b.storage) ≡ b.w =
      omega (arith, length-take b.w b.storage, ok.w_le) in
    let e : drop b.r (take b.w b.storage) ≡ take (b.w - b.r) (drop b.r b.storage) =
      drop-take b.r b.w b.storage in
    rw (← e) (
      take_written (take b.w b.storage) bytes (drop (b.w + length bytes) b.storage) b.r
        (b.w + length bytes - b.r) (omega (arith, kept, ok.r_le_w))
        (omega (arith, kept, ok.r_le_w)))

-- A write of bytes that fit and its commit put the bytes at the end of what can be read.
pub commit-write_slice :
    (b : RingBuf) (bytes : List ℕ)
    → IsRingBuf b
    → length bytes ≤ space b
    → (b1 : RingBuf) × (b2 : RingBuf) × (write_slice b bytes ≡ some b1)
      × (commit b1 (length bytes) ≡ some b2)
      × (read_slice b2 ≡ read_slice b ++ bytes)
      × IsRingBuf b2
      × (space b2 + length bytes ≡ space b)
unfolding write_slice commit read_slice
commit-write_slice b bytes ok h =
    let kept : length (take b.w b.storage) ≡ b.w =
      omega (arith, length-take b.w b.storage, ok.w_le) in
    let s : List ℕ = take b.w b.storage ++ bytes ++ drop (b.w + length bytes) b.storage in
    let size : length s ≡ length b.storage = omega (
      arith,
      length-append (take b.w b.storage ++ bytes) (drop (b.w + length bytes) b.storage),
      length-append (take b.w b.storage) bytes,
      kept,
      length-drop (b.w + length bytes) b.storage,
      ok.w_le,
      h,
    ) in
    let fits : leb (length bytes) (length s - b.w) ≡ true = ground (arith, size, h) in
    let fits' : leb (length bytes) (length b.storage - b.w) ≡ true = ground (arith, h) in
    (
      record { storage = s; r = b.r; w = b.w },
      record { storage = s; r = b.r; w = b.w + length bytes },
      rw fits' refl,
      rw fits refl,
      take_written_at b bytes ok,
      record { r_le_w = omega (arith, ok.r_le_w); w_le = omega (arith, size, h, ok.w_le) },
      omega (arith, size, h),
    )

part :
    (b : RingBuf) (n : ℕ)
    → take (b.w - (b.r + n)) (drop (b.r + n) b.storage)
      ≡ drop n (take (b.w - b.r) (drop b.r b.storage))
part b n =
    let e : b.w - (b.r + n) ≡ b.w - b.r - n = omega arith in
    rw (e, ← drop-drop b.r n b.storage, drop-take n (b.w - b.r) (drop b.r b.storage)) refl

-- A consume of no more than what can be read drops that much from its front; if nothing is left, the
-- whole buffer is free again.
pub consume_lem :
    (b : RingBuf) (n : ℕ)
    → IsRingBuf b
    → n ≤ len b
    → (b' : RingBuf) × (consume b n ≡ some b')
      × (read_slice b' ≡ drop n (read_slice b))
      × IsRingBuf b'
      × (n ≡ len b → space b' ≡ length b.storage)
unfolding consume read_slice
consume_lem b n ok h =
    let fits : leb n (b.w - b.r) ≡ true = ground (arith, h) in
    elim (Bool-cases (b.r + n == b.w)) [
      | inl all ↦ (
        record b { r = 0; w = 0 },
        rw (fits, all) refl,
        rw
            (drop_all n (take (b.w - b.r) (drop b.r b.storage)) (
              omega (
                arith,
                length-take (b.w - b.r) (drop b.r b.storage),
                (==_iff (b.r + n) b.w).0 all,
              )))
            refl,
        record { r_le_w = omega arith; w_le = omega arith },
        λ e. omega arith,
      )
      | inr some_left ↦ (
        record b { r = b.r + n },
        rw (fits, some_left) refl,
        part b n,
        record { r_le_w = omega (arith, h, ok.r_le_w); w_le = ok.w_le },
        λ e. absurd (cc (some_left, (==_iff (b.r + n) b.w).1 (omega (arith, ok.r_le_w)))),
      )
    ]
