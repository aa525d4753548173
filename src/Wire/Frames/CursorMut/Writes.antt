-- ===== src/Wire/Frames/CursorMut/Writes.antt =====
-- `write` of a frame's fields, described on every branch (crates/mq-wire/src/frames.rs).
use mqproxy.Prelude.{
  ℕ, ◌+◌, ◌≤◌, ◌<◌, ◌≡◌, ◌∙◌, List, [], ◌∷◌, ◌++◌, ok, err, ltb, length, drop, arith, length-append,
  length-drop, append_assoc, ge→ltb, All, inl, inr, >>=-eq-ok, ltb→ge, ltb→lt, Bool-cases,
}
use native.Mathlib.Nat.{add_assoc}
use mqproxy.Wire.Varint.Bytes
use mqproxy.Wire.Frames.Codes.{EncodeError}
use mqproxy.Wire.Frames.CursorMut.{CursorMut, string, finish, bytes, varint}
use mqproxy.Wire.Frames.CursorMut.Items.{
  Item, number, raw, text, put, write, at, item_bytes, IsFit, wire, drop-add, bytes_put,
  bytes_put_ok, bytes_put_short, varint_put, varint_put_ok, varint_put_short,
}
use mqproxy.Wire.Frames.Cursor.Laws.{string_bytes}

put_fit :
    (pre room : List ℕ) (i : Item)
    → IsFit i
    → length (item_bytes i) ≤ length room
    → put (at pre room) i ≡ ok (at (pre ++ item_bytes i) (drop (length (item_bytes i)) room))
unfolding string string_bytes
put_fit pre room (number v) h fits = varint_put pre room v h fits
put_fit pre room (raw b) h fits = bytes_put pre room b fits
put_fit pre room (text s limit) h fits =
    let l : length (Bytes.bytes (length s) ++ s) ≡ length (Bytes.bytes (length s)) + length s =
      length-append (Bytes.bytes (length s)) s in
    rw (
      ge→ltb limit (length s) h.0,
      varint_put pre room (length s) h.1 (omega arith),
      bytes_put (pre ++ Bytes.bytes (length s)) (drop (length (Bytes.bytes (length s))) room) s
          (omega (arith, length-drop (length (Bytes.bytes (length s))) room)),
      append_assoc pre (Bytes.bytes (length s)) s,
      l,
      drop-add (length (Bytes.bytes (length s))) (length s) room,
    )

put_ok :
    (pre room : List ℕ) (i : Item) (w : CursorMut)
    → put (at pre room) i ≡ ok w
    → IsFit i × (length (item_bytes i) ≤ length room)
unfolding string string_bytes
put_ok pre room (number v) w e = varint_put_ok pre room v w e
put_ok pre room (raw b) w e = (tt, bytes_put_ok pre room b w e)
put_ok pre room (text s limit) w e = elim (Bool-cases (ltb limit (length s))) [
  | inl over ↦ absurd (ground arith)
  | inr under ↦
      let e' = rw under at e in
      let (w', first, then_bytes) = >>=-eq-ok _ _ e' in
      let (small, fits) = varint_put_ok pre room (length s) w' first in
      let second : bytes
            (at (pre ++ Bytes.bytes (length s)) (drop (length (Bytes.bytes (length s))) room)) s
          ≡ ok w =
        rw (varint_put pre room (length s) small fits) at e' in
      ground (
        arith,
        bytes_put_ok (pre ++ Bytes.bytes (length s)) (drop (length (Bytes.bytes (length s))) room) s
            w second,
        length-append (Bytes.bytes (length s)) s,
        length-drop (length (Bytes.bytes (length s))) room,
      )
]

put_short :
    (pre room : List ℕ) (i : Item)
    → IsFit i
    → length room < length (item_bytes i)
    → put (at pre room) i ≡ err EncodeError.short
unfolding string string_bytes
put_short pre room (number v) h lt = varint_put_short pre room v h lt
put_short pre room (raw b) h lt = bytes_put_short pre room b lt
put_short pre room (text s limit) h lt =
    let l : length (Bytes.bytes (length s) ++ s) ≡ length (Bytes.bytes (length s)) + length s =
      length-append (Bytes.bytes (length s)) s in
    elim (Bool-cases (ltb (length room) (length (Bytes.bytes (length s))))) [
      | inl none_fits ↦ rw (
        ge→ltb limit (length s) h.0,
        varint_put_short pre room (length s) h.1 (ltb→lt _ _ none_fits),
      )
      | inr one_fits ↦ rw (
        ge→ltb limit (length s) h.0,
        varint_put pre room (length s) h.1 (ltb→ge _ _ one_fits),
        bytes_put_short (pre ++ Bytes.bytes (length s))
            (drop (length (Bytes.bytes (length s))) room) s
            (omega (
              arith,
              length-drop (length (Bytes.bytes (length s))) room,
              ltb→ge (length room) (length (Bytes.bytes (length s))) one_fits,
            )),
      )
    ]

-- The fields that are in their ranges are written in order, if there is room for all.
pub write_fit :
    (is : List Item) (pre room : List ℕ)
    → All IsFit is
    → length (wire is) ≤ length room
    → write (at pre room) is
      ≡ ok (pre ++ (wire is ++ drop (length (wire is)) room), length pre + length (wire is))
unfolding finish Bytes.bytes
write_fit [] pre room h fits =
    rw (finish, varint_put pre room 0 (omega arith) fits)
      (ground (arith, append_assoc pre (0 ∷ []) (drop 1 room), length-append pre (0 ∷ [])))
write_fit (i ∷ is) pre room h fits =
    let l = length-append (item_bytes i) (wire is) in
    rw (put_fit pre room i h.0 (omega (arith, l))) (
      write_fit is (pre ++ item_bytes i) (drop (length (item_bytes i)) room) h.1
        (omega (arith, l, length-drop (length (item_bytes i)) room))
      ∙ rw (
        append_assoc pre (item_bytes i)
            (wire is ++ drop (length (wire is)) (drop (length (item_bytes i)) room)),
        ← append_assoc (item_bytes i) (wire is)
            (drop (length (wire is)) (drop (length (item_bytes i)) room)),
        ← drop-add (length (item_bytes i)) (length (wire is)) room,
        l,
        length-append pre (item_bytes i),
        add_assoc,
      ))

-- A frame that is written had every field in its range, and room for all.
pub write_ok :
    (is : List Item) (pre room : List ℕ) (p : List ℕ × ℕ)
    → write (at pre room) is ≡ ok p
    → All IsFit is × (length (wire is) ≤ length room)
unfolding finish Bytes.bytes
write_ok [] pre room p e =
    let (w, first, rest) = >>=-eq-ok (varint (at pre room) 0) _ e in
    (tt, (varint_put_ok pre room 0 w first).1)
write_ok (i ∷ is) pre room p e =
    let (w, first, rest) = >>=-eq-ok (put (at pre room) i) _ e in
    let (h, fits) = put_ok pre room i w first in
    let rest' : write (at (pre ++ item_bytes i) (drop (length (item_bytes i)) room)) is ≡ ok p =
      rw (put_fit pre room i h fits) at e in
    let (hs, fits') =
      write_ok is (pre ++ item_bytes i) (drop (length (item_bytes i)) room) p rest' in
    (
      (h, hs),
      omega
          (arith, length-append (item_bytes i) (wire is), length-drop (length (item_bytes i)) room),
    )

-- Fields in their ranges fail for want of room only.
pub write_short :
    (is : List Item) (pre room : List ℕ)
    → All IsFit is
    → length room < length (wire is)
    → write (at pre room) is ≡ err EncodeError.short
unfolding finish Bytes.bytes
write_short [] pre room h lt = rw (varint_put_short pre room 0 (omega arith) lt)
write_short (i ∷ is) pre room h lt = elim (Bool-cases (ltb (length room) (length (item_bytes i)))) [
  | inl none_fits ↦ rw (put_short pre room i h.0 (ltb→lt _ _ none_fits))
  | inr one_fits ↦
      let fits = ltb→ge (length room) (length (item_bytes i)) one_fits in
      rw (put_fit pre room i h.0 fits) (
        write_short is (pre ++ item_bytes i) (drop (length (item_bytes i)) room) h.1 (
          omega (
            arith,
            length-append (item_bytes i) (wire is),
            length-drop (length (item_bytes i)) room,
          )))
]
