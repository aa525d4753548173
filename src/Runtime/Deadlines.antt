-- ===== src/Runtime/Deadlines.antt =====
-- crates/mq-runtime/src/driver/deadlines.rs: the deadlines of a driver. Ids are numbers, times in microseconds.
pub mod Laws
use mqproxy.Prelude.{
  ℕ, List, [], ◌∷◌, ◌++◌, Bool, true, false, not, Option, none, some, leb, ltb, ◌==◌, if◌then◌else◌,
  map, min,
}

pub data Expired : Type 0 where
  dial : ℕ → Expired
  listener_retry : ℕ → Expired
  shutdown_cap : Expired

abbrev pub same : Expired → Expired → Bool
same (dial a) (dial b) = a == b
same (listener_retry a) (listener_retry b) = a == b
same shutdown_cap shutdown_cap = true
same _ _ = false

pub record Deadlines : Type 0 where
  pub armed : List (ℕ × Expired)

abbrev pub default : Deadlines
default = record { armed = [] }

-- `retain(|(_, x)| *x != d)`.
unfoldable pub without : Expired → List (ℕ × Expired) → List (ℕ × Expired)
without d [] = []
without d ((t, x) ∷ armed) =
    let rest = without d armed in if not (same x d) then (t, x) ∷ rest else rest

unfoldable pub cancel : Deadlines → Expired → Deadlines
unfolding without
cancel s d = record { armed = without d s.armed }

-- The field `set`, and the method.
unfoldable pub set : Deadlines → Expired → ℕ → Deadlines
unfolding cancel
set s d at = record { armed = (cancel s d).armed ++ ((at, d) ∷ []) }

abbrev pub min? : ℕ → Option ℕ → Option ℕ
min? t none = some t
min? t (some u) = some (min t u)

unfoldable pub min_time : List (ℕ × Expired) → Option ℕ
min_time [] = none
min_time ((t, x) ∷ armed) = min? t (min_time armed)

unfoldable pub earliest : Deadlines → Option ℕ
unfolding min_time
earliest s = min_time s.armed

-- The `retain` of `expire`: what is due, and what stays.
unfoldable pub part : ℕ → List (ℕ × Expired) → List (ℕ × Expired) × List (ℕ × Expired)
part now [] = ([], [])
part now ((t, x) ∷ armed) =
    let (due, rest) = part now armed in
    if leb t now then ((t, x) ∷ due, rest) else (due, (t, x) ∷ rest)

-- `sort_by_key`, which keeps equal keys in order.
unfoldable pub put_in : ℕ × Expired → List (ℕ × Expired) → List (ℕ × Expired)
put_in e [] = e ∷ []
put_in e (d ∷ due) = let rest = put_in e due in if leb e.0 d.0 then e ∷ d ∷ due else d ∷ rest

unfoldable pub sort_by_time : List (ℕ × Expired) → List (ℕ × Expired)
unfolding put_in
sort_by_time [] = []
sort_by_time (e ∷ due) = put_in e (sort_by_time due)

unfoldable pub expire : Deadlines → ℕ → Deadlines × List Expired
unfolding part sort_by_time
expire s now =
    let (due, rest) = part now s.armed in
    (record { armed = rest }, map (λ e. e.1) (sort_by_time due))
