-- ===== src/Udp/Defrag/Agree.antt =====
-- Fragments, as crates/mq-proxy/src/udp/defrag.rs keeps them, against the parts of the packet that they come from.
use mqproxy.Prelude.{
  ℕ, zero, suc, ◌≤◌, ◌≡◌, refl, ap, ◌∙◌, List, [], ◌∷◌, ◌++◌, Option, none, some, length, get_elem?,
  set, replicate, arith,
}
use mathlib.Core.List.{flatten}
use mqproxy.Udp.Defrag.{assembled}
use mqproxy.Udp.Defrag.Lists.{count_some}

-- Each fragment that is there is the part of its number, and there is room for all of them.
abbrev pub Agree : List (Option (List ℕ)) → List (List ℕ) → Type 0
Agree [] [] = Unit {0}
Agree [] (c ∷ cs) = ⊥
Agree (f ∷ fs) [] = ⊥
Agree (none ∷ fs) (c ∷ cs) = Agree fs cs
Agree (some b ∷ fs) (c ∷ cs) = (b ≡ c) × Agree fs cs

pub Agree-replicate : (n : ℕ) (cs : List (List ℕ)) → length cs ≡ n → Agree (replicate n none) cs
Agree-replicate zero [] e = tt
Agree-replicate zero (c ∷ cs) e = absurd (omega arith)
Agree-replicate (suc n) [] e = absurd (omega arith)
Agree-replicate (suc n) (c ∷ cs) e = Agree-replicate n cs (omega arith)

pub Agree-set :
    (fs : List (Option (List ℕ))) (cs : List (List ℕ)) (j : ℕ) (b : List ℕ)
    → Agree fs cs
    → get_elem? cs j ≡ some b
    → Agree (set fs j (some b)) cs
Agree-set [] [] j b a e = tt
Agree-set [] (c ∷ cs) j b a e = absurd a
Agree-set (f ∷ fs) [] j b a e = absurd a
Agree-set (none ∷ fs) (c ∷ cs) zero b a e = (cc, a)
Agree-set (some d ∷ fs) (c ∷ cs) zero b a e = (cc, a.1)
Agree-set (none ∷ fs) (c ∷ cs) (suc j) b a e = Agree-set fs cs j b a e
Agree-set (some d ∷ fs) (c ∷ cs) (suc j) b a e = (a.0, Agree-set fs cs j b a.1 e)

count_some_le : (fs : List (Option (List ℕ))) → count_some fs ≤ length fs
unfolding count_some
count_some_le [] = omega arith
count_some_le (none ∷ fs) = omega (arith, count_some_le fs)
count_some_le (some b ∷ fs) = omega (arith, count_some_le fs)

-- Once all are there, they make the packet.
pub assembled_all :
    (fs : List (Option (List ℕ))) (cs : List (List ℕ))
    → Agree fs cs
    → length fs ≤ count_some fs
    → assembled fs ≡ flatten cs
unfolding assembled count_some flatten
assembled_all [] [] a full = refl
assembled_all [] (c ∷ cs) a full = absurd a
assembled_all (f ∷ fs) [] a full = absurd a
assembled_all (none ∷ fs) (c ∷ cs) a full = absurd (omega (arith, count_some_le fs))
assembled_all (some b ∷ fs) (c ∷ cs) a full =
    ap (λ x. x ++ assembled fs) a.0 ∙ ap (λ x. c ++ x) (assembled_all fs cs a.1 (omega arith))
