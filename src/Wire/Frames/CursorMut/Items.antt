-- ===== src/Wire/Frames/CursorMut/Items.antt =====
-- A frame as the sequence of the fields that its encoder writes (crates/mq-wire/src/frames.rs).
-- Every encoder is `write` of its fields, and `write` is described once, on every branch.
use mqproxy.Prelude.{
  ℕ, ◌+◌, ◌≤◌, ◌<◌, ◌≡◌, refl, ap, List, [], ◌∷◌, ◌++◌, Result, ok, err, ◌>>=◌, length, drop, arith,
  length-append, drop-length-append, take-length-append, append_assoc, ge→ltb, zero, suc,
  Result-cases, inl, inr,
}
use mqproxy.Wire.Varint
use mqproxy.Wire.Varint.Bytes
use mqproxy.Wire.Varint.Bytes.{encode-bytes, length-bytes}
use mqproxy.Wire.Varint.RoundTrip.{encode_ok, encode_errors}
use native.Mathlib.Nat.{zero-add, add-zero, suc-add}
use mqproxy.Wire.Frames.Codes.{EncodeError}
use mqproxy.Wire.Frames.CursorMut.{CursorMut, bytes, varint, string, finish}
use mqproxy.Wire.Frames.Cursor.Laws.{string_bytes}

pub data Item : Type 0 where
  number : ℕ → Item
  raw : List ℕ → Item
  text : List ℕ → ℕ → Item

abbrev pub put : CursorMut → Item → Result EncodeError CursorMut
put w (number v) = varint w v
put w (raw b) = bytes w b
put w (text s cap) = string w s cap

abbrev pub write : CursorMut → List Item → Result EncodeError (List ℕ × ℕ)
write w [] = finish w
write w (i ∷ is) = put w i >>= λ w'. write w' is

-- A cursor that has written `pre` and has `room` before it.
abbrev pub at : List ℕ → List ℕ → CursorMut
at pre room = record { buf = pre ++ room; off = length pre }

-- The bytes of a field, whether the encoder accepts it, and its error if it does not.
abbrev pub item_bytes : Item → List ℕ
item_bytes (number v) = Bytes.bytes v
item_bytes (raw b) = b
item_bytes (text s cap) = string_bytes s

abbrev pub IsFit : Item → Type 0
IsFit (number v) = v ≤ Varint.max_value
IsFit (raw b) = Unit {0}
IsFit (text s cap) = (length s ≤ cap) × (length s ≤ Varint.max_value)

abbrev pub wire : List Item → List ℕ
wire [] = 0 ∷ []
wire (i ∷ is) = item_bytes i ++ wire is

-- The same fields with `pad` as padding.
abbrev pub padded : List Item → List ℕ → List ℕ
padded [] pad = Bytes.bytes (length pad) ++ pad
padded (i ∷ is) pad = item_bytes i ++ padded is pad

pub padded-nil : (is : List Item) → padded is [] ≡ wire is
unfolding Bytes.bytes
padded-nil [] = refl
padded-nil (i ∷ is) = ap (◌++◌ (item_bytes i)) (padded-nil is)

pub drop-add {ℓ} : {A : Type ℓ} (m n : ℕ) (xs : List A) → drop (m + n) xs ≡ drop n (drop m xs)
drop-add zero n xs = rw zero-add
drop-add (suc m) zero [] = rw add-zero
drop-add (suc m) (suc n) [] = rw suc-add
drop-add (suc m) n (x ∷ xs) = rw suc-add (drop-add m n xs)

at_append :
    (pre b room : List ℕ) (n : ℕ)
    → length b ≡ n
    → ◌≡◌ {A = CursorMut}
        (record { buf = pre ++ (b ++ room); off = length pre + n })
        (at (pre ++ b) room)
at_append pre b room n h = rw (← h, ← length-append pre b, ← append_assoc pre b room)

pub bytes_put :
    (pre room b : List ℕ)
    → length b ≤ length room
    → bytes (at pre room) b ≡ ok (at (pre ++ b) (drop (length b) room))
unfolding bytes
bytes_put pre room b h =
    rw
      (
        drop-length-append pre room,
        ge→ltb (length room) (length b) h,
        take-length-append pre room,
        drop-add (length pre) (length b) (pre ++ room),
        drop-length-append pre room,
      )
      (ap ok (at_append pre b (drop (length b) room) (length b) refl))

pub bytes_put_ok :
    (pre room b : List ℕ) (w : CursorMut) → bytes (at pre room) b ≡ ok w → length b ≤ length room
unfolding bytes
bytes_put_ok pre room b w e = ground (arith, drop-length-append pre room)

pub bytes_put_short :
    (pre room b : List ℕ) → length room < length b → bytes (at pre room) b ≡ err EncodeError.short
unfolding bytes
bytes_put_short pre room b h = ground (arith, drop-length-append pre room)

pub varint_put :
    (pre room : List ℕ) (v : ℕ)
    → v ≤ Varint.max_value
    → length (Bytes.bytes v) ≤ length room
    → varint (at pre room) v ≡ ok (at (pre ++ Bytes.bytes v) (drop (length (Bytes.bytes v)) room))
unfolding varint
varint_put pre room v h fits =
    rw
      (
        drop-length-append pre room,
        encode-bytes room v h (omega (arith, length-bytes v)),
        take-length-append pre room,
        length-bytes v,
      )
      (ap ok
        (at_append pre (Bytes.bytes v) (drop (Varint.len v) room) (Varint.len v) (length-bytes v)))

pub varint_put_ok :
    (pre room : List ℕ) (v : ℕ) (w : CursorMut)
    → varint (at pre room) v ≡ ok w
    → (v ≤ Varint.max_value) × (length (Bytes.bytes v) ≤ length room)
unfolding varint
varint_put_ok pre room v w e = elim (Result-cases (Varint.encode room v)) [
  | inl ((out, n), d) ↦ ground (arith, encode_ok room out v n d, length-bytes v)
  | inr (x, d) ↦ ground (arith, drop-length-append pre room)
]

pub varint_put_short :
    (pre room : List ℕ) (v : ℕ)
    → v ≤ Varint.max_value
    → length room < length (Bytes.bytes v)
    → varint (at pre room) v ≡ err EncodeError.short
unfolding varint
varint_put_short pre room v h lt =
    ground (arith, drop-length-append pre room, (encode_errors room v).1.1, length-bytes v)

-- The number of bytes of a frame without padding, field by field.
abbrev pub weight : List Item → ℕ
weight [] = 1
weight (number v ∷ is) = Varint.len v + weight is
weight (raw b ∷ is) = length b + weight is
weight (text s cap ∷ is) = length (string_bytes s) + weight is

pub length-wire : (is : List Item) → length (wire is) ≡ weight is
length-wire [] = refl
length-wire (number v ∷ is) =
    omega (arith, length-append (Bytes.bytes v) (wire is), length-bytes v, length-wire is)
length-wire (raw b ∷ is) = omega (arith, length-append b (wire is), length-wire is)
length-wire (text s cap ∷ is) =
    omega (arith, length-append (string_bytes s) (wire is), length-wire is)
