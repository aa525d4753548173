-- ===== src/Prelude/Bytes.antt =====
-- Searches in byte strings: what the parsers use of Rust's slices and of ASCII.
use mqproxy.Prelude.Tests.{leb, ◌==◌, if◌then◌else◌}
use Prim.Native.Nat.{ℕ, suc, ◌+◌}
use mathlib.Core.Bool.{Bool, true, false, ◌&&◌, ◌||◌}
use mathlib.Core.Option.{Option, none, some}
use mathlib.Core.List.{List, [], ◌∷◌}

-- `==` on byte strings.
unfoldable pub same_bytes : List ℕ → List ℕ → Bool
same_bytes [] [] = true
same_bytes [] (y ∷ ys) = false
same_bytes (x ∷ xs) [] = false
same_bytes (x ∷ xs) (y ∷ ys) = (x == y) && same_bytes xs ys

-- `starts_with`.
unfoldable pub starts_with : List ℕ → List ℕ → Bool
starts_with xs [] = true
starts_with [] (y ∷ ys) = false
starts_with (x ∷ xs) (y ∷ ys) = (x == y) && starts_with xs ys

abbrev pub next : Option ℕ → Option ℕ
next none = none
next (some n) = some (suc n)

-- `windows(needle.len()).position(|w| w == needle)`, for a needle that is not empty.
unfoldable pub find : List ℕ → List ℕ → Option ℕ
unfolding starts_with
find [] needle = none
find (x ∷ xs) needle = if starts_with (x ∷ xs) needle then some 0 else next (find xs needle)

-- `iter().position(|&c| c == b)`.
unfoldable pub find_byte : List ℕ → ℕ → Option ℕ
find_byte [] b = none
find_byte (x ∷ xs) b = if x == b then some 0 else next (find_byte xs b)

-- `iter().rposition(|&c| c == b)`.
unfoldable pub rfind_byte : List ℕ → ℕ → Option ℕ
rfind_byte [] b = none
rfind_byte (x ∷ xs) b = elim (rfind_byte xs b) [
  | none ↦ if x == b then some 0 else none
  | some i ↦ some (suc i)
]

-- `iter().all(test)`.
unfoldable pub all : (ℕ → Bool) → List ℕ → Bool
all test [] = true
all test (x ∷ xs) = test x && all test xs

unfoldable pub any : (ℕ → Bool) → List ℕ → Bool
any test [] = false
any test (x ∷ xs) = test x || any test xs

unfoldable pub is_empty : List ℕ → Bool
is_empty [] = true
is_empty (x ∷ xs) = false

-- `is_ascii_digit`.
abbrev pub is_digit : ℕ → Bool
is_digit c = leb 48 c && leb c 57

abbrev pub lower : ℕ → ℕ
lower c = if leb 65 c && leb c 90 then c + 32 else c

-- `eq_ignore_ascii_case`.
unfoldable pub same_ignoring_case : List ℕ → List ℕ → Bool
same_ignoring_case [] [] = true
same_ignoring_case [] (y ∷ ys) = false
same_ignoring_case (x ∷ xs) [] = false
same_ignoring_case (x ∷ xs) (y ∷ ys) = (lower x == lower y) && same_ignoring_case xs ys
