-- ===== src/Http/Head/Laws.antt =====
-- What crates/mq-http/src/h1.rs takes for a Content-Length, the header lines that it writes, and the fuel
-- of its loop.
use mqproxy.Prelude.{
  zero, suc, take, drop, length-drop, Bool-cases, inl, inr, leb, Option, none, some, ◌<◌, ◌+◌, ℕ,
  ◌+◌, ◌-◌, ◌*◌, ◌^◌, ◌≤◌, ◌≡◌, ◌≢◌, refl, List, [], ◌∷◌, ◌++◌, Bool, true, false, not, ◌&&◌,
  Option, none, some, length, arith, ltb, leb, ◌==◌, All, Bool-cases, inl, inr, ap, ◌∙◌, ◌↔◌, ◌||◌,
  if◌then◌else◌,
}
use mqproxy.Prelude.Bytes.{find, is_empty, any, is_digit}
use mqproxy.Prelude.Options.{◌>>=◌}
use mqproxy.Http.Head.{
  Fields, header_lines, header_line, starts_with_ows, crlf, parse_content_length,
  content_length_from, length_max, write_header,
}

-- The number that decimal digits stand for, after the digits of `n`.
unfoldable pub decimal : ℕ → List ℕ → ℕ
decimal n [] = n
decimal n (c ∷ v) = decimal (n * 10 + (c - 48)) v

abbrev pub IsDigit : ℕ → Type 0
IsDigit c = (48 ≤ c) × (c ≤ 57)

pub decimal_ge : (n : ℕ) (v : List ℕ) → n ≤ decimal n v
unfolding decimal
decimal_ge n [] = omega arith
decimal_ge n (c ∷ v) = omega (arith, decimal_ge (n * 10 + (c - 48)) v)

accepted :
    (n : ℕ) (v : List ℕ)
    → All IsDigit v
    → decimal n v ≤ length_max
    → content_length_from n v ≡ some (decimal n v)
unfolding content_length_from decimal
accepted n [] h k = refl
accepted n (c ∷ v) (d, h) k =
    let le = decimal_ge (n * 10 + (c - 48)) v in
    let e = accepted (n * 10 + (c - 48)) v h k in
    let d' : (leb 48 c && leb c 57) ≡ true = ground (arith, d) in
    let small : leb (2 ^ 64) (n * 10 + (c - 48)) ≡ false = ground (arith, le, k) in
    let small' : ltb length_max (n * 10 + (c - 48)) ≡ false = ground (arith, le, k) in
    rw (d', small, small') e

tested :
    (c n' : ℕ) (rest : Option ℕ) (m : ℕ)
    → (if not (is_digit c)
        then none
        else if leb (2 ^ 64) n'
        then none
        else if ltb length_max n'
        then none
        else rest)
      ≡ some m
    → IsDigit c × (n' ≤ length_max) × (rest ≡ some m)
tested c n' rest m e = ground arith

refused :
    (n m : ℕ) (v : List ℕ)
    → n ≤ length_max
    → content_length_from n v ≡ some m
    → All IsDigit v × (decimal n v ≡ m) × (m ≤ length_max)
unfolding content_length_from decimal
refused n m [] h e = let q : n ≡ m = cc in (tt, q, omega (arith, q, h))
refused n m (c ∷ v) h e =
    let n' : ℕ = n * 10 + (c - 48) in
    let (d, le, rest) = tested c n' (content_length_from n' v) m e in
    let (ds, same, small) = refused n' m v le rest in ((d, ds), same, small)

-- A Content-Length is accepted exactly when it is a non-empty string of decimal digits that stands for
-- no more than the largest i64, leading zeros included; what is read is then the number it stands for.
pub parse_content_length_lem :
    (v : List ℕ) (n : ℕ)
    → (parse_content_length v ≡ some n)
      ↔ ((1 ≤ length v) × All IsDigit v × (decimal 0 v ≡ n) × (n ≤ length_max))
unfolding parse_content_length is_empty
parse_content_length_lem [] n = (λ e. cc, λ (low, ds, same, small). absurd (omega (arith, low)))
parse_content_length_lem (c ∷ v) n = (
  λ e.
      let (ds, same, small) = refused 0 n (c ∷ v) (omega arith) e in (omega arith, ds, same, small),
  λ (low, ds, same, small). accepted 0 (c ∷ v) ds (omega (arith, same, small)) ∙ ap some same,
)

abbrev pub IsSafe : ℕ → Type 0
IsSafe c = (c ≢ 13) × (c ≢ 10) × (c ≢ 0)

no_break_here :
    (x : ℕ) (b : Bool)
    → (((x == 13) || (x == 10) || (x == 0)) || b) ≡ false
    → IsSafe x × (b ≡ false)
no_break_here x true e = ground arith
no_break_here x false e = ground arith

no_break_of :
    (x : ℕ) (b : Bool) → IsSafe x → b ≡ false → (((x == 13) || (x == 10) || (x == 0)) || b) ≡ false
no_break_of x b h e = ground arith

no_breaks :
    (xs : List ℕ) → (any (λ c. (c == 13) || (c == 10) || (c == 0)) xs ≡ false) ↔ All IsSafe xs
unfolding any
no_breaks [] = (λ e. tt, λ h. refl)
no_breaks (x ∷ xs) =
    let f = λ (c : ℕ). (c == 13) || (c == 10) || (c == 0) in
    (
      λ e. let (h, rest) = no_break_here x (any f xs) e in (h, (no_breaks xs).0 rest),
      λ h. no_break_of x (any f xs) h.0 ((no_breaks xs).1 h.1),
    )

-- A header line is written exactly when neither its name nor its value has a CR, a LF or a NUL, and it
-- is then the name, a colon, a space, the value and a CRLF after what was there.
pub write_header_lem :
    (out name value : List ℕ)
    → (All IsSafe (name ++ value)
        → write_header out name value
          ≡ some (out ++ name ++ (58 ∷ 32 ∷ []) ++ value ++ (13 ∷ 10 ∷ [])))
      × (¬ All IsSafe (name ++ value) → write_header out name value ≡ none)
unfolding write_header
write_header_lem out name value = (
  λ h. rw ((no_breaks (name ++ value)).1 h) refl,
  λ h. elim (Bool-cases (any (λ c. (c == 13) || (c == 10) || (c == 0)) (name ++ value))) [
    | inl unsafe ↦ rw unsafe refl
    | inr safe ↦ absurd (h ((no_breaks (name ++ value)).0 safe))
  ],
)

module _ {ℓ κ} {A : Type ℓ} {B : Type κ} where
  bind_same : (o : Option A) (f g : A → Option B) → ((a : A) → f a ≡ g a) → (o >>= f) ≡ (o >>= g)
  bind_same none f g h = refl
  bind_same (some a) f g h = h a

same_else {ℓ} :
    {A : Type ℓ} (b : Bool) (x : A) {y z : A}
    → (b ≡ false → y ≡ z)
    → (elim b [ true ↦ x | false ↦ y ]) ≡ (elim b [ true ↦ x | false ↦ z ])
same_else true x h = refl
same_else false x h = h refl

-- For the loop on the header lines, fuel of at least the length of what is left is enough: one more
-- changes nothing.
pub header_lines_enough :
    (fuel : ℕ) (f : Fields) (rest : List ℕ)
    → length rest ≤ fuel
    → header_lines fuel f rest ≡ header_lines (suc fuel) f rest
unfolding header_lines
header_lines_enough zero f [] h = refl
header_lines_enough zero f (c ∷ rest) h = absurd (omega (arith, h))
header_lines_enough (suc fuel) f rest h = same_else (leb (length rest) 2) _ λ more.
    same_else (starts_with_ows rest) _ λ plain. bind_same (find rest crlf) _ _ λ le.
      bind_same (header_line f (take le rest)) _ _
        λ f'. header_lines_enough fuel f' (drop (le + 2) rest) (shorter le (leb→gt more))
  where
    shorter : (le : ℕ) → 2 < length rest → length (drop (le + 2) rest) ≤ fuel
    shorter le big = omega (arith, length-drop (le + 2) rest, h, big)

    leb→gt : leb (length rest) 2 ≡ false → 2 < length rest
    leb→gt e = ground arith
