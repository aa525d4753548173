-- ===== src/Wire/UdpMsg/Laws.antt =====
-- The header's round trip and the shape of a split (crates/mq-wire/src/udp_msg.rs).
use mqproxy.Prelude.{
  ℕ, zero, suc, ◌+◌, ◌-◌, ◌*◌, ◌/◌, ◌%◌, ◌≤◌, ◌<◌, ◌≡◌, refl, ap, ◌∙◌, ◌↔◌, List, [], ◌∷◌, ◌++◌,
  none, some, ok, err, ltb, ◌==◌, if◌then◌else◌, length, take, drop, arith, All, IsByte, IsU16,
  IsU32, Bool-cases, inl, inr, ltb→lt, ltb→ge, sym, false, take-append-drop, length-drop,
  length-take,
}
use mqproxy.Wire.UdpMsg.{
  UdpMsgHdr, encode, decode, too_many_frags, zero_mss, chunks, number_from, frags_needed, split,
}
use mathlib.Core.List.{flatten}
use native.Mathlib.Nat.{div-eq_of_lt, add-div_right, le-div_iff_mul-le}

-- The fields are in the ranges of their types.
pub record IsHdr (h : UdpMsgHdr) : Type 0 where
  pub session_id : IsU32 h.session_id
  pub packet_id : IsU16 h.packet_id
  pub flags : IsByte h.flags
  pub frag_id : IsByte h.frag_id
  pub frag_count : IsByte h.frag_count

-- A header in the ranges of its types is read back from its nine bytes, whatever payload follows, and
-- these are bytes.
pub decode-encode_hdr :
    (h : UdpMsgHdr) (payload : List ℕ)
    → IsHdr h
    → (decode (encode h ++ payload) ≡ some h) × All IsByte (encode h) × (length (encode h) ≡ 9)
unfolding decode encode
decode-encode_hdr h payload v = (ground arith, ground arith, refl)

-- `decode` fails exactly on fewer than nine bytes.
pub decode_none : (buf : List ℕ) → (decode buf ≡ none) ↔ (length buf < 9)
unfolding decode
decode_none [] = (λ e. omega arith, λ h. refl)
decode_none (a ∷ []) = (λ e. omega arith, λ h. refl)
decode_none (a ∷ b ∷ []) = (λ e. omega arith, λ h. refl)
decode_none (a ∷ b ∷ c ∷ []) = (λ e. omega arith, λ h. refl)
decode_none (a ∷ b ∷ c ∷ d ∷ []) = (λ e. omega arith, λ h. refl)
decode_none (a ∷ b ∷ c ∷ d ∷ e ∷ []) = (λ q. omega arith, λ h. refl)
decode_none (a ∷ b ∷ c ∷ d ∷ e ∷ f ∷ []) = (λ q. omega arith, λ h. refl)
decode_none (a ∷ b ∷ c ∷ d ∷ e ∷ f ∷ g ∷ []) = (λ q. omega arith, λ h. refl)
decode_none (a ∷ b ∷ c ∷ d ∷ e ∷ f ∷ g ∷ i ∷ []) = (λ q. omega arith, λ h. refl)
decode_none (a ∷ b ∷ c ∷ d ∷ e ∷ f ∷ g ∷ i ∷ j ∷ bs) = (λ q. cc, λ h. absurd (omega arith))

abbrev pub joined : List (UdpMsgHdr × List ℕ) → List ℕ
joined [] = []
joined ((h, c) ∷ fs) = c ++ joined fs

joined-number_from :
    (hdr : UdpMsgHdr) (i : ℕ) (cs : List (List ℕ)) → joined (number_from hdr i cs) ≡ flatten cs
unfolding number_from flatten
joined-number_from hdr i [] = refl
joined-number_from hdr i (c ∷ cs) = ap (◌++◌ c) (joined-number_from hdr (i + 1) cs)

flatten-chunks :
    (fuel mss : ℕ) (xs : List ℕ) → 0 < mss → length xs ≤ fuel → flatten (chunks fuel mss xs) ≡ xs
unfolding chunks flatten
flatten-chunks zero mss [] h k = refl
flatten-chunks (suc fuel) mss [] h k = refl
flatten-chunks zero mss (b ∷ bs) h k = absurd (omega arith)
flatten-chunks (suc fuel) mss (b ∷ bs) h k =
    ap (◌++◌ (take mss (b ∷ bs)))
      (flatten-chunks fuel mss (drop mss (b ∷ bs)) h (omega (arith, length-drop mss (b ∷ bs))))
    ∙ take-append-drop mss (b ∷ bs)

-- The number of chunks is the length divided by the size, rounded up.
round_up : (l mss : ℕ) → 0 < mss → (suc l - mss + mss - 1) / mss ≡ l / mss
round_up l mss h = elim (Bool-cases (ltb l mss)) [
  | inl small ↦
      div-eq_of_lt {n = suc l - mss + mss - 1} (omega (arith, ltb→lt l mss small))
      ∙ sym (div-eq_of_lt (ltb→lt l mss small))
  | inr large ↦ ap (λ t. t / mss) (omega (arith, ltb→ge l mss large))
]

length-chunks :
    (fuel mss : ℕ) (xs : List ℕ)
    → 0 < mss
    → length xs ≤ fuel
    → length (chunks fuel mss xs) ≡ (length xs + mss - 1) / mss
unfolding chunks
length-chunks zero mss [] h k = sym (div-eq_of_lt (omega arith))
length-chunks (suc fuel) mss [] h k = sym (div-eq_of_lt (omega arith))
length-chunks zero mss (b ∷ bs) h k = absurd (omega arith)
length-chunks (suc fuel) mss (b ∷ bs) h k =
    let rest =
      length-chunks fuel mss (drop mss (b ∷ bs)) h (omega (arith, length-drop mss (b ∷ bs))) in
    let more : (length (drop mss (b ∷ bs)) + mss - 1) / mss ≡ length bs / mss =
      rw (length-drop mss (b ∷ bs)) (round_up (length bs) mss h) in
    let all : (suc (length bs) + mss - 1) / mss ≡ length bs / mss + 1 =
      ap (λ t. t / mss) {x = suc (length bs) + mss - 1} {y = length bs + mss} (omega arith)
      ∙ add-div_right (length bs) h in
    omega arith

-- Every chunk has between 1 and `mss` bytes.
chunks-bounds :
    (fuel mss : ℕ) (xs : List ℕ)
    → 0 < mss
    → All (λ c. (1 ≤ length c) × (length c ≤ mss)) (chunks fuel mss xs)
unfolding chunks
chunks-bounds zero mss [] h = tt
chunks-bounds (suc fuel) mss [] h = tt
chunks-bounds zero mss (b ∷ bs) h = tt
chunks-bounds (suc fuel) mss (b ∷ bs) h =
    (omega (arith, length-take mss (b ∷ bs)), chunks-bounds fuel mss (drop mss (b ∷ bs)) h)

-- Fragments from number `i` on: numbered in order under one header, each of at most `mss` bytes.
abbrev pub Numbered : UdpMsgHdr → ℕ → ℕ → List (UdpMsgHdr × List ℕ) → Type 0
Numbered hdr mss i [] = Unit {0}
Numbered hdr mss i ((h, c) ∷ fs) =
    (h ≡ record hdr { frag_id = i }) × (length c ≤ mss) × Numbered hdr mss (i + 1) fs

number_from-Numbered :
    (hdr : UdpMsgHdr) (mss i : ℕ) (cs : List (List ℕ))
    → i + length cs ≤ 256
    → All (λ c. (1 ≤ length c) × (length c ≤ mss)) cs
    → Numbered hdr mss i (number_from hdr i cs) × (length (number_from hdr i cs) ≡ length cs)
unfolding number_from
number_from-Numbered hdr mss i [] h b = (tt, refl)
number_from-Numbered hdr mss i (c ∷ cs) h b =
    let (rest, size) = number_from-Numbered hdr mss (i + 1) cs (omega arith) b.1 in
    let small : i % 256 ≡ i = omega arith in ((rw small refl, b.0.1, rest), omega arith)

-- The header that every fragment of a packet shares, but for its number.
abbrev pub packet_hdr : ℕ → ℕ → ℕ → UdpMsgHdr
packet_hdr sid packet_id n = record {
  session_id = sid;
  packet_id = packet_id;
  flags = 0;
  frag_id = 0;
  frag_count = n;
}

split_parts :
    (sid packet_id : ℕ) (payload : List ℕ) (mss : ℕ) (fs : List (UdpMsgHdr × List ℕ))
    → split sid packet_id payload mss ≡ ok fs
    → (0 < mss)
      × (frags_needed (length payload) mss ≤ 255)
      × (fs ≡ (
          if length payload == 0
          then (packet_hdr sid packet_id (frags_needed (length payload) mss), payload) ∷ []
          else number_from
              (packet_hdr sid packet_id (frags_needed (length payload) mss))
              0
              (chunks (length payload) mss payload)))
unfolding split
split_parts sid packet_id payload mss fs e = (ground arith, ground arith, ground arith)

needed_empty : (mss : ℕ) → 0 < mss → frags_needed 0 mss ≡ 1
unfolding frags_needed
needed_empty mss h = let e : (0 + mss - 1) / mss ≡ 0 = div-eq_of_lt (omega arith) in rw e

needed_some : (l mss : ℕ) → 0 < mss → frags_needed (suc l) mss ≡ (suc l + mss - 1) / mss
unfolding frags_needed
needed_some l mss h =
    let e : (suc l + mss - 1) / mss ≡ l / mss + 1 =
      ap (λ t. t / mss) {x = suc l + mss - 1} {y = l + mss} (omega arith) ∙ add-div_right l h in
    rw e (omega arith)

needed_pos : (l mss : ℕ) → 1 ≤ frags_needed l mss
unfolding frags_needed
needed_pos l mss = omega arith

needed_many : (l mss : ℕ) → 0 < mss → (255 < frags_needed l mss) ↔ (255 * mss < l)
unfolding frags_needed
needed_many l mss h =
    let k = le-div_iff_mul-le {k = mss} {x = 256} {y = l + mss - 1} h in
    (
      λ lt. (let q = k.0 (omega arith) in omega arith),
      λ lt. (let q = k.1 (omega arith) in omega arith),
    )

-- A split that succeeds gives between 1 and 255 fragments of at most `mss` bytes, numbered in order
-- from 0 under one header whose count is their number, and their payloads join to the packet's.
pub split_ok :
    (sid packet_id : ℕ) (payload : List ℕ) (mss : ℕ) (fs : List (UdpMsgHdr × List ℕ))
    → split sid packet_id payload mss ≡ ok fs
    → (joined fs ≡ payload)
      × Numbered (packet_hdr sid packet_id (length fs)) mss 0 fs
      × (1 ≤ length fs)
      × (length fs ≤ 255)
split_ok sid packet_id [] mss fs e =
    let (h, few, shape) = split_parts sid packet_id [] mss fs e in
    rw (shape, needed_empty mss h) (refl, (refl, omega arith, tt), omega arith, omega arith)
split_ok sid packet_id (b ∷ bs) mss fs e =
    let (h, few, shape) = split_parts sid packet_id (b ∷ bs) mss fs e in
    let cs = chunks (suc (length bs)) mss (b ∷ bs) in
    let n = frags_needed (suc (length bs)) mss in
    let size : length cs ≡ n =
      length-chunks (suc (length bs)) mss (b ∷ bs) h (omega arith)
      ∙ sym (needed_some (length bs) mss h) in
    let some_frag : 1 ≤ n = needed_pos (suc (length bs)) mss in
    let (numbered, same) =
      number_from-Numbered (packet_hdr sid packet_id n) mss 0 cs (omega arith)
        (chunks-bounds (suc (length bs)) mss (b ∷ bs) h) in
    let total : length (number_from (packet_hdr sid packet_id n) 0 cs) ≡ n = same ∙ size in
    let nonempty : (suc (length bs) == 0) ≡ false = ground arith in
    let shape' : fs ≡ number_from (packet_hdr sid packet_id n) 0 cs = rw nonempty at shape in
    rw (shape', total)
      (
        joined-number_from (packet_hdr sid packet_id n) 0 cs
            ∙ flatten-chunks (suc (length bs)) mss (b ∷ bs) h (omega arith),
        numbered,
        some_frag,
        few,
      )

-- A split fails exactly where there is no room for a byte, or more than 255 fragments are needed.
pub split_errors :
    (sid packet_id : ℕ) (payload : List ℕ) (mss : ℕ)
    → ((split sid packet_id payload mss ≡ err zero_mss) ↔ (mss ≡ 0))
      × ((split sid packet_id payload mss ≡ err too_many_frags)
          ↔ ((0 < mss) × (255 * mss < length payload)))
unfolding split
split_errors sid packet_id payload mss = (
  (λ e. ground arith, λ h. ground arith),
  (
    λ e. ground (arith, (needed_many (length payload) mss (ground arith)).0),
    λ h. ground (arith, (needed_many (length payload) mss h.0).1),
  ),
)
