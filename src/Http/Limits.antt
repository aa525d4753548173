-- ===== src/Http/Limits.antt =====
-- crates/mq-http/src/limits.rs: the limits on a header section. `none` is `Err(Overflow)`.
pub mod Laws
use mqproxy.Prelude.{
  ℕ, ◌+◌, ◌-◌, List, Bool, ◌||◌, Option, none, some, ltb, ◌==◌, if◌then◌else◌, length,
}

abbrev pub field_max : ℕ
field_max = 8192

abbrev pub section_max : ℕ
section_max = 32768

abbrev pub count_max : ℕ
count_max = 256

-- The gateway's bound; the HTTP/1.1 heads have their own.
abbrev pub method_max : ℕ
method_max = 32

abbrev pub target_path_max : ℕ
target_path_max = field_max - 5

pub record SectionBudget : Type 0 where
  pub count : ℕ
  pub size : ℕ

abbrev pub default : SectionBudget
default = record { count = 0; size = 0 }

unfoldable pub add : SectionBudget → List ℕ → List ℕ → Option SectionBudget
add b name value =
    let field = length name + length value in
    if ltb field_max field || (b.count == count_max) || ltb section_max (b.size + field + 32)
    then none
    else some (record { count = b.count + 1; size = b.size + (field + 32) })
