-- ===== src/Client/Sessions/Laws.antt =====
-- The two tables of the client's sessions agree (crates/mq-proxy/src/client/udp_session.rs).
use mqproxy.Prelude.{
  ℕ, List, true, false, Option, none, some, ◌==◌, ==_iff, ◌≡◌, ◌≢◌, ◌⊎◌, sym, ap, subst, ◌∙◌,
  Bool-cases, inl, inr,
}
use mqproxy.Prelude.Maps.{
  nat_key, lookup, put, erase, lookup-put_self, lookup-put_ne, lookup-erase_self, lookup-erase_ne,
}
use mqproxy.Client.Sessions.{Session, without_stream}

-- A session that is there and has this stream.
abbrev pub Holds : {T : Type 0} → ℕ → Option (Session T) → Type 0
Holds st none = ⊥
Holds st (some s) = s.stream ≡ some st

-- Each stream is that of a live session, and a session's stream leads to it.
pub record IsMirrored {T : Type 0} (by_sid : List (ℕ × Session T)) (by_stream : List (ℕ × ℕ))
    : Type 0 where
  pub live : (st sid : ℕ) → lookup st by_stream ≡ some sid → Holds st (lookup sid by_sid)
  pub back :
      (sid st : ℕ) (s : Session T)
      → lookup sid by_sid ≡ some s
      → s.stream ≡ some st
      → lookup st by_stream ≡ some sid

pub none-ne-some : {A : Type 0} (x : A) → ◌≡◌ {A = Option A} none (some x) → ⊥
none-ne-some x e = cc

pub same_or_not : (a b : ℕ) → (a ≡ b) ⊎ (a ≢ b)
same_or_not a b = elim (Bool-cases (a == b)) [
  | inl hit ↦ inl ((==_iff a b).0 hit)
  | inr miss ↦ inr (λ q. contrary (sym ((==_iff a b).1 q) ∙ miss))
]
  where
    contrary : true ≡ false → ⊥
    contrary e = cc

pub erase-IsMirrored :
    {T : Type 0} (by_sid : List (ℕ × Session T)) (by_stream : List (ℕ × ℕ)) (sid : ℕ)
    (s : Session T) (o : Option ℕ)
    → IsMirrored by_sid by_stream
    → lookup sid by_sid ≡ some s
    → s.stream ≡ o
    → IsMirrored (erase sid by_sid) (without_stream by_stream o)
erase-IsMirrored by_sid by_stream sid s none v at q = record {
  live = λ x sid' e. elim (same_or_not sid sid') [
    | inl same ↦
        let held : s.stream ≡ some x =
          subst (Holds x) (ap (λ y. lookup y by_sid) (sym same) ∙ at) (v.live x sid' e) in
        absurd (none-ne-some x (sym q ∙ held))
    | inr ne ↦ subst (Holds x) (sym (lookup-erase_ne sid sid' by_sid ne)) (v.live x sid' e)
  ];
  back = λ sid' x s' found held. elim (same_or_not sid sid') [
    | inl same ↦ absurd (
        none-ne-some s'
          (sym (lookup-erase_self sid by_sid) ∙ ap (λ y. lookup y (erase sid by_sid)) same ∙ found))
    | inr ne ↦ v.back sid' x s' (sym (lookup-erase_ne sid sid' by_sid ne) ∙ found) held
  ];
}
erase-IsMirrored by_sid by_stream sid s (some st) v at q = record {
  live = λ x sid' e. elim (same_or_not st x) [
    | inl here ↦ absurd (
        none-ne-some sid'
          (sym (lookup-erase_self st by_stream) ∙ ap (λ y. lookup y (erase st by_stream)) here ∙ e))
    | inr apart ↦
        let e' : lookup x by_stream ≡ some sid' = sym (lookup-erase_ne st x by_stream apart) ∙ e in
        elim (same_or_not sid sid') [
          | inl same ↦
              let held : s.stream ≡ some x =
                subst (Holds x) (ap (λ y. lookup y by_sid) (sym same) ∙ at) (v.live x sid' e') in
              let both : ◌≡◌ {A = Option ℕ} (some st) (some x) = sym q ∙ held in absurd (apart (cc))
          | inr ne ↦ subst (Holds x) (sym (lookup-erase_ne sid sid' by_sid ne)) (v.live x sid' e')
        ]
  ];
  back = λ sid' x s' found held. elim (same_or_not sid sid') [
    | inl same ↦ absurd (
        none-ne-some s'
          (sym (lookup-erase_self sid by_sid) ∙ ap (λ y. lookup y (erase sid by_sid)) same ∙ found))
    | inr ne ↦
        let there = v.back sid' x s' (sym (lookup-erase_ne sid sid' by_sid ne) ∙ found) held in
        elim (same_or_not st x) [
          | inl here ↦
              let mine : lookup x by_stream ≡ some sid =
                ap (λ y. lookup y by_stream) (sym here) ∙ v.back sid st s at q in
              let both : ◌≡◌ {A = Option ℕ} (some sid) (some sid') = sym mine ∙ there in
              absurd (ne (cc))
          | inr apart ↦ lookup-erase_ne st x by_stream apart ∙ there
        ]
  ];
}

-- A session without a stream, under an id that is not in use.
pub insert-IsMirrored :
    {T : Type 0} (by_sid : List (ℕ × Session T)) (by_stream : List (ℕ × ℕ)) (sid : ℕ)
    (s : Session T)
    → IsMirrored by_sid by_stream
    → lookup sid by_sid ≡ none
    → s.stream ≡ none
    → IsMirrored (put sid s by_sid) by_stream
insert-IsMirrored by_sid by_stream sid s v new q = record {
  live = λ x sid' e. elim (same_or_not sid sid') [
    | inl same ↦
        absurd (subst (Holds x) (ap (λ y. lookup y by_sid) (sym same) ∙ new) (v.live x sid' e))
    | inr ne ↦ subst (Holds x) (sym (lookup-put_ne sid s sid' by_sid ne)) (v.live x sid' e)
  ];
  back = λ sid' x s' found held. elim (same_or_not sid sid') [
    | inl same ↦
        let at : ◌≡◌ {A = Option (Session _)} (some s) (some s') =
          sym (lookup-put_self sid s by_sid) ∙ ap (λ y. lookup y (put sid s by_sid)) same ∙ found in
        let one : s ≡ s' = cc in
        absurd (none-ne-some x (sym q ∙ ap (λ (y : Session _). y.stream) one ∙ held))
    | inr ne ↦ v.back sid' x s' (sym (lookup-put_ne sid s sid' by_sid ne) ∙ found) held
  ];
}

-- A new stream for a session that has none.
pub attach-IsMirrored :
    {T : Type 0} (by_sid : List (ℕ × Session T)) (by_stream : List (ℕ × ℕ)) (sid st : ℕ)
    (s s' : Session T)
    → IsMirrored by_sid by_stream
    → lookup sid by_sid ≡ some s
    → s.stream ≡ none
    → lookup st by_stream ≡ none
    → s'.stream ≡ some st
    → IsMirrored (put sid s' by_sid) (put st sid by_stream)
attach-IsMirrored by_sid by_stream sid st s s' v at q new q' = record {
  live = λ x i e. elim (same_or_not st x) [
    | inl here ↦
        let both : ◌≡◌ {A = Option ℕ} (some sid) (some i) =
          sym (lookup-put_self st sid by_stream)
          ∙ ap (λ y. lookup y (put st sid by_stream)) here
          ∙ e in
        let one : sid ≡ i = cc in
        subst (Holds x)
          (sym (lookup-put_self sid s' by_sid) ∙ ap (λ y. lookup y (put sid s' by_sid)) one)
          (q' ∙ ap some here)
    | inr apart ↦
        let held = v.live x i (sym (lookup-put_ne st sid x by_stream apart) ∙ e) in
        elim (same_or_not sid i) [
          | inl same ↦ absurd (
              none-ne-some x
                (sym q ∙ subst (Holds x) (ap (λ y. lookup y by_sid) (sym same) ∙ at) held))
          | inr ne ↦ subst (Holds x) (sym (lookup-put_ne sid s' i by_sid ne)) held
        ]
  ];
  back = λ i x r found held. elim (same_or_not sid i) [
    | inl same ↦
        let two : ◌≡◌ {A = Option (Session _)} (some s') (some r) =
          sym (lookup-put_self sid s' by_sid)
          ∙ ap (λ y. lookup y (put sid s' by_sid)) same
          ∙ found in
        let one : s' ≡ r = cc in
        let both : ◌≡◌ {A = Option ℕ} (some st) (some x) =
          sym q' ∙ ap (λ (y : Session _). y.stream) one ∙ held in
        let here : st ≡ x = cc in
        ap (λ y. lookup y (put st sid by_stream)) (sym here)
        ∙ lookup-put_self st sid by_stream
        ∙ ap some same
    | inr ne ↦
        let there = v.back i x r (sym (lookup-put_ne sid s' i by_sid ne) ∙ found) held in
        elim (same_or_not st x) [
          | inl here ↦ absurd (none-ne-some i (sym new ∙ ap (λ y. lookup y by_stream) here ∙ there))
          | inr apart ↦ lookup-put_ne st sid x by_stream apart ∙ there
        ]
  ];
}
