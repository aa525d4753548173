-- ===== src/Wire/UdpMsg.antt =====
-- crates/mq-wire/src/udp_msg.rs: the header of a UDP payload in a datagram, and the fragment split.
pub mod Laws
use mqproxy.Prelude.{
  ℕ, zero, suc, ◌+◌, ◌-◌, ◌*◌, ◌/◌, ◌%◌, ◌^◌, max, List, [], ◌∷◌, Option, none, some, Result, ok,
  err, ltb, ◌==◌, if◌then◌else◌, length, take, drop,
}

abbrev pub udp_msg_hdr : ℕ
udp_msg_hdr = 9

pub record UdpMsgHdr : Type 0 where
  pub session_id : ℕ
  pub packet_id : ℕ
  pub flags : ℕ
  pub frag_id : ℕ
  pub frag_count : ℕ

-- The nine bytes of `out`, which are all written.
unfoldable pub encode : UdpMsgHdr → List ℕ
encode h =
    h.session_id / 2 ^ 24 % 256
    ∷ h.session_id / 2 ^ 16 % 256
    ∷ h.session_id / 2 ^ 8 % 256
    ∷ h.session_id % 256
    ∷ h.packet_id / 2 ^ 8 % 256
    ∷ h.packet_id % 256
    ∷ h.flags
    ∷ h.frag_id
    ∷ h.frag_count
    ∷ []

unfoldable pub decode : List ℕ → Option UdpMsgHdr
decode (b0 ∷ b1 ∷ b2 ∷ b3 ∷ b4 ∷ b5 ∷ b6 ∷ b7 ∷ b8 ∷ payload) = some (record {
  session_id = ((b0 * 256 + b1) * 256 + b2) * 256 + b3;
  packet_id = b4 * 256 + b5;
  flags = b6;
  frag_id = b7;
  frag_count = b8;
})
decode _ = none

pub data SplitError : Type 0 where
  too_many_frags zero_mss : SplitError

-- `payload.chunks(mss)`, with as many rounds as there are bytes.
unfoldable pub chunks : ℕ → ℕ → List ℕ → List (List ℕ)
chunks fuel mss [] = []
chunks zero mss (b ∷ bs) = []
chunks (suc fuel) mss (b ∷ bs) = take mss (b ∷ bs) ∷ chunks fuel mss (drop mss (b ∷ bs))

-- The calls of `emit` for the chunks, numbered from `i`; `i as u8` wraps.
unfoldable pub number_from : UdpMsgHdr → ℕ → List (List ℕ) → List (UdpMsgHdr × List ℕ)
number_from hdr i [] = []
number_from hdr i (c ∷ cs) = (record hdr { frag_id = i % 256 }, c) ∷ number_from hdr (i + 1) cs

-- `payload.len().div_ceil(mss).max(1)`.
unfoldable pub frags_needed : ℕ → ℕ → ℕ
frags_needed len mss = max ((len + mss - 1) / mss) 1

-- The calls of `emit`, in order; on an error there is none.
unfoldable pub split : ℕ → ℕ → List ℕ → ℕ → Result SplitError (List (UdpMsgHdr × List ℕ))
split sid packet_id payload mss_payload =
    if mss_payload == 0
    then err zero_mss
    else let nfrags = frags_needed (length payload) mss_payload in
      if ltb 255 nfrags
      then err too_many_frags
      else let hdr : UdpMsgHdr = record {
        session_id = sid;
        packet_id = packet_id;
        flags = 0;
        frag_id = 0;
        frag_count = nfrags;
      } in
        if length payload == 0
        then ok ((hdr, payload) ∷ [])
        else ok (number_from hdr 0 (chunks (length payload) mss_payload payload))
