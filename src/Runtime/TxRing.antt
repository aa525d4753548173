-- ===== src/Runtime/TxRing.antt =====
-- crates/mq-runtime/src/shard/tx_ring.rs: the send ring of a UDP socket, over the byte buffer. The outer
-- `none` stands for a panic on a slice.
pub mod Fields
pub mod Laws
pub mod Fifo
use mqproxy.Prelude.{
  ℕ, ◌+◌, ◌-◌, ◌/◌, ◌%◌, List, [], ◌∷◌, ◌++◌, Bool, true, false, ◌&&◌, Option, none, some, leb, ltb,
  ◌==◌, if◌then◌else◌, length, take, drop,
}
use mqproxy.Prelude.Options.{◌>>=◌}
use mqproxy.Transport.RingBuf
use mqproxy.Transport.RingBuf.{RingBuf, space, write_slice, commit, read_slice, consume}
use mqproxy.Runtime.TxRing.Fields.{to_le, of_le, slice}

abbrev pub tx_ring : ℕ
tx_ring = 262144

abbrev pub new : RingBuf
new = RingBuf.new tx_ring

-- An address is its octets; the IPv6 flow information is not in a record.
pub data SocketAddr : Type 0 where
  v4 : (octets : List ℕ) → (port : ℕ) → SocketAddr
  v6 : (octets : List ℕ) → (port : ℕ) → (flowinfo : ℕ) → (scope_id : ℕ) → SocketAddr

-- The header that `push` writes, for a payload of `len` bytes.
unfoldable pub hdr : SocketAddr → ℕ → List ℕ
hdr (v4 ip port) len = (4 ∷ ip) ++ (to_le 2 port ++ (to_le 4 0 ++ to_le 2 len))
hdr (v6 ip port flow scope) len = (6 ∷ ip) ++ (to_le 2 port ++ (to_le 4 scope ++ to_le 2 len))

pub data Pushed : Type 0 where
  done : Pushed
  send_buf_full : Pushed

unfoldable pub push : RingBuf → SocketAddr → List ℕ → Option (RingBuf × Pushed)
unfolding write_slice commit
push ring dst bytes =
    let h = hdr dst (length bytes) in
    if ltb 65535 (length bytes)
    then some (ring, send_buf_full)
    else if ltb (space ring) (length h + length bytes)
    then some (ring, send_buf_full)
    else do
      written ← write_slice ring (h ++ bytes)
      ring' ← commit written (length h + length bytes)
      some (ring', done)

-- `at` is where the port begins, after the address.
unfoldable pub head_at : Bool → ℕ → List ℕ → Option (SocketAddr × ℕ × ℕ)
head_at four at r = do
  ip ← slice r 1 at
  port ← slice r at (at + 2)
  scope ← slice r (at + 2) (at + 6)
  len ← slice r (at + 6) (at + 8)
  some (if four then v4 ip (of_le port) else v6 ip (of_le port) 0 (of_le scope), at + 8, of_le len)

-- The oldest record's destination, payload offset and length.
unfoldable pub head_of : List ℕ → Option (Option (SocketAddr × ℕ × ℕ))
unfolding head_at
head_of [] = some none
head_of (family ∷ r) =
    (if family == 4 then head_at true 5 (family ∷ r) else head_at false 17 (family ∷ r)) >>= λ h.
    some (some h)

abbrev pub head : RingBuf → Option (Option (SocketAddr × ℕ × ℕ))
head ring = head_of (read_slice ring)

abbrev pub peek_at : RingBuf → Option (SocketAddr × ℕ × ℕ) → Option (Option (SocketAddr × List ℕ))
peek_at ring none = some none
peek_at ring (some (dst, at, len)) =
    slice (read_slice ring) at (at + len) >>= λ bytes. some (some (dst, bytes))

unfoldable pub peek : RingBuf → Option (Option (SocketAddr × List ℕ))
peek ring = head ring >>= peek_at ring

abbrev pub pop_at : RingBuf → Option (SocketAddr × ℕ × ℕ) → Option RingBuf
pop_at ring none = some ring
pop_at ring (some (dst, at, len)) = consume ring (at + len)

unfoldable pub pop : RingBuf → Option RingBuf
pop ring = head ring >>= pop_at ring
