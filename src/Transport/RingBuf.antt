-- ===== src/Transport/RingBuf.antt =====
-- crates/mq-transport-api/src/ringbuf.rs: the relay's byte buffer. `none` stands for a failed assertion.
pub mod Laws
use mqproxy.Prelude.{
  ℕ, ◌+◌, ◌-◌, List, Bool, Option, none, some, leb, ◌==◌, if◌then◌else◌, length, take, drop,
  replicate, ◌++◌,
}

-- `storage` is `data`, the allocation, `r` and `w` the cursors.
pub record RingBuf : Type 0 where
  pub storage : List ℕ
  pub r : ℕ
  pub w : ℕ

abbrev pub new : ℕ → RingBuf
new cap = record { storage = replicate cap 0; r = 0; w = 0 }

abbrev pub capacity : RingBuf → ℕ
capacity b = length b.storage

abbrev pub len : RingBuf → ℕ
len b = b.w - b.r

abbrev pub is_empty : RingBuf → Bool
is_empty b = b.r == b.w

abbrev pub space : RingBuf → ℕ
space b = length b.storage - b.w

-- What a caller does with `write_slice`: it copies `bytes` to its start; `none` if they do not fit.
unfoldable pub write_slice : RingBuf → List ℕ → Option RingBuf
write_slice b bytes =
    if leb (length bytes) (space b)
    then some
        (record b { storage = take b.w b.storage ++ bytes ++ drop (b.w + length bytes) b.storage })
    else none

unfoldable pub commit : RingBuf → ℕ → Option RingBuf
commit b n = if leb n (space b) then some (record b { w = b.w + n }) else none

unfoldable pub read_slice : RingBuf → List ℕ
read_slice b = take (b.w - b.r) (drop b.r b.storage)

unfoldable pub consume : RingBuf → ℕ → Option RingBuf
consume b n =
    if leb n (len b)
    then some (if b.r + n == b.w then record b { r = 0; w = 0 } else record b { r = b.r + n })
    else none
