-- ===== src/Http/Limits/Laws.antt =====
-- A header section that crates/mq-http/src/limits.rs lets through is within its limits.
use mqproxy.Prelude.{ℕ, ◌+◌, ◌≤◌, ◌≡◌, refl, List, [], ◌∷◌, Option, some, length, arith, All}
use mqproxy.Prelude.Options.{◌>>=◌, >>=-eq-some}
use mqproxy.Http.Limits.{SectionBudget, add, default, field_max, section_max, count_max}

-- A whole section, field by field; a field is a name and a value.
unfoldable pub add_all : SectionBudget → List (List ℕ × List ℕ) → Option SectionBudget
add_all b [] = some b
add_all b (f ∷ fs) = do b' ← add b f.0 f.1; add_all b' fs

-- The size of a section: names and values, and 32 for each field.
unfoldable pub section_size : List (List ℕ × List ℕ) → ℕ
section_size [] = 0
section_size (f ∷ fs) = length f.0 + length f.1 + 32 + section_size fs

abbrev pub IsShort : List ℕ × List ℕ → Type 0
IsShort f = length f.0 + length f.1 ≤ field_max

pub record Within (b b' : SectionBudget) (fs : List (List ℕ × List ℕ)) : Type 0 where
  pub short : All IsShort fs
  pub count : b'.count ≡ b.count + length fs
  pub size : b'.size ≡ b.size + section_size fs
  pub count_le : b'.count ≤ count_max
  pub size_le : b'.size ≤ section_max

added :
    (b b' : SectionBudget) (name value : List ℕ)
    → b.count ≤ count_max
    → add b name value ≡ some b'
    → (length name + length value ≤ field_max)
      × (b'.count ≡ b.count + 1)
      × (b'.size ≡ b.size + (length name + length value + 32))
      × (b'.count ≤ count_max)
      × (b'.size ≤ section_max)
unfolding add
added b b' name value h e = ground arith

add_all-Within_from :
    (b b' : SectionBudget) (fs : List (List ℕ × List ℕ))
    → b.count ≤ count_max
    → b.size ≤ section_max
    → add_all b fs ≡ some b'
    → Within b b' fs
unfolding add_all section_size
add_all-Within_from b b' [] h k e =
    let q : b ≡ b' = cc in
    record {
      short = tt;
      count = rw q (omega arith);
      size = rw q (omega arith);
      count_le = rw (← q) h;
      size_le = rw (← q) k;
    }
add_all-Within_from b b' (f ∷ fs) h k e =
    let (b1, first, rest) = >>=-eq-some (add b f.0 f.1) _ e in
    let (short, c, s, c_le, s_le) = added b b1 f.0 f.1 h first in
    let w = add_all-Within_from b1 b' fs c_le s_le rest in
    record {
      short = (short, w.short);
      count = omega (arith, c, w.count);
      size = omega (arith, s, w.size);
      count_le = w.count_le;
      size_le = w.size_le;
    }

fits :
    (b : SectionBudget) (name value : List ℕ)
    → length name + length value ≤ field_max
    → b.count + 1 ≤ count_max
    → b.size + (length name + length value + 32) ≤ section_max
    → add b name value
      ≡ some (record { count = b.count + 1; size = b.size + (length name + length value + 32) })
unfolding add
fits b name value h k l = ground arith

add_all_total_from :
    (b : SectionBudget) (fs : List (List ℕ × List ℕ))
    → All IsShort fs
    → b.count + length fs ≤ count_max
    → b.size + section_size fs ≤ section_max
    → (b' : SectionBudget) × (add_all b fs ≡ some b')
unfolding add_all section_size
add_all_total_from b [] h k l = (b, refl)
add_all_total_from b (f ∷ fs) h k l =
    let e = fits b f.0 f.1 h.0 (omega (arith, k)) (omega (arith, l)) in
    let b1 : SectionBudget = record {
      count = b.count + 1;
      size = b.size + (length f.0 + length f.1 + 32);
    } in
    let (b', rest) = add_all_total_from b1 fs h.1 (omega (arith, k)) (omega (arith, l)) in
    (b', rw e rest)

-- A section passes from the default budget only if each field has at most 8192 bytes, there are at most
-- 256 of them and they take at most 32768 bytes in all, which the budget counts; and each such section
-- passes.
pub add_all_lem :
    (fs : List (List ℕ × List ℕ))
    → ((b' : SectionBudget) → add_all default fs ≡ some b' → Within default b' fs)
      × (All IsShort fs
          → length fs ≤ count_max
          → section_size fs ≤ section_max
          → (b' : SectionBudget) × (add_all default fs ≡ some b'))
add_all_lem fs = (
  λ b' e. add_all-Within_from default b' fs (omega arith) (omega arith) e,
  λ h k l. add_all_total_from default fs h (omega (arith, k)) (omega (arith, l)),
)
