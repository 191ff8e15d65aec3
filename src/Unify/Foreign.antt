-- ===== src/Unify/Foreign.antt =====
-- Where the occurs check or unification meets what is for other functions, there is such an object
-- (src/occurs_check.cc, src/unify.cc).
use qu_prolog.Base.{
  ℕ, zero, suc, ◌+◌, ◌≡◌, ◌⊎◌, refl, sym, ap, ◌∙◌, subst, Bool, true, inl, inr, arith, Bool-cases,
  Option-cases, ◌==◌,
}
use qu_prolog.Machine.{Machine}
use qu_prolog.Unify.Object.{
  Kind, UnifyClass, kind, unify_class, is_substitution, get_arity, variable_dereference,
}
use qu_prolog.Unify.Check.{Occurrence, then_check, occurs_words, occurs_object, occurs_check}
use qu_prolog.Unify.Solution.{Agree, Pointers, Layout, Foreign}
use qu_prolog.Unify.Reads.{variable_dereference-Ends}

then_check-beyond :
    (a b : Occurrence)
    → then_check a b ≡ Occurrence.beyond
    → (a ≡ Occurrence.beyond) ⊎ (b ≡ Occurrence.beyond)
unfolding then_check
then_check-beyond Occurrence.absent b h = inr h
then_check-beyond Occurrence.present b h = cc
then_check-beyond Occurrence.beyond b h = inl refl
then_check-beyond Occurrence.exhausted b h = cc

Agree-quantified : (c : UnifyClass) → Agree Kind.quantified c → c ≡ UnifyClass.other
Agree-quantified UnifyClass.other a = refl
Agree-quantified _ a = absurd a

Agree-substitution : (c : UnifyClass) → Agree Kind.substitution c → c ≡ UnifyClass.other
Agree-substitution UnifyClass.other a = refl
Agree-substitution _ a = absurd a

substitution-kind : (t : ℕ) → is_substitution t ≡ true → kind t ≡ Kind.substitution
unfolding is_substitution
substitution-kind t h = go (kind t) h
  where
    go :
        (k : Kind)
        → elim k [ Kind.substitution ↦ true | _ ↦ Bool.false ] ≡ true
        → k ≡ Kind.substitution
    go Kind.substitution h = refl
    go _ h = cc

module _ (object is_cell : ℕ → Bool) (m : Machine) (l : Layout object is_cell m) where
  agree :
      (t : ℕ)
      → object t ≡ true
      → (k : Kind) → kind (m.store.word t) ≡ k
      → Agree k (unify_class (m.store.word t))
  agree t o k e = subst (λ k. Agree k (unify_class (m.store.word t))) e (l.classes t o)

  pub substitution-Foreign :
      (t : ℕ)
      → object t ≡ true
      → is_substitution (m.store.word t) ≡ true
      → Foreign object m.store.word
  substitution-Foreign t o h =
      let k = substitution-kind (m.store.word t) h in
      (t, o, Agree-substitution _ (agree t o Kind.substitution k))

  module _ (v : ℕ) where
    abbrev Meets : (ℕ → Occurrence) → Type 0
    Meets check =
        (o : ℕ) → object o ≡ true → check o ≡ Occurrence.beyond → Foreign object m.store.word

    occurs_words-Foreign :
        (check : ℕ → Occurrence)
        → Meets check
        → (n a : ℕ) → Pointers object is_cell m.store.word n a
        → occurs_words check n m.store.word a ≡ Occurrence.beyond
        → Foreign object m.store.word
    unfolding occurs_words
    occurs_words-Foreign check f zero a p h = cc
    occurs_words-Foreign check f (suc n) a p h =
        elim (then_check-beyond (check (m.store.word a)) _ h) [
          | inl here ↦ f (m.store.word a) p.1 here
          | inr later ↦ occurs_words-Foreign check f n (a + 1) p.2 later
        ]

    occurs_object-Foreign :
        (check : ℕ → Occurrence)
        → Meets check
        → (t : ℕ) → object t ≡ true
        → (k : Kind) → kind (m.store.word t) ≡ k
        → occurs_object check m.store.word v t k ≡ Occurrence.beyond
        → Foreign object m.store.word
    unfolding occurs_object
    occurs_object-Foreign check f t o Kind.structure k h =
        occurs_words-Foreign check f (suc (get_arity (m.store.word t))) (t + 1) (l.structures t o k)
          h
    occurs_object-Foreign check f t o Kind.cons k h =
        let w = m.store.word in
        let p = l.lists t o k in
        let second : t + 1 + 1 ≡ t + 2 = omega arith in
        let two : object (w (t + 2)) ≡ true = ap (λ a. object (w a)) (sym second) ∙ p.2.1 in
        elim (then_check-beyond (check (w (t + 1))) _ h) [
          | inl here ↦ f (w (t + 1)) p.1 here
          | inr later ↦ f (w (t + 2)) two later
        ]
    occurs_object-Foreign check f t o Kind.variable k h = elim (Bool-cases (v == t)) [
      | inl same ↦ absurd (ground arith)
      | inr apart ↦ absurd (ground arith)
    ]
    occurs_object-Foreign check f t o Kind.quantified k h =
        (t, o, Agree-quantified _ (agree t o Kind.quantified k))
    occurs_object-Foreign check f t o Kind.substitution k h =
        (t, o, Agree-substitution _ (agree t o Kind.substitution k))
    occurs_object-Foreign check f t o Kind.block k h = absurd (agree t o Kind.block k)
    occurs_object-Foreign check f t o Kind.illegal k h = absurd (agree t o Kind.illegal k)
    occurs_object-Foreign check f t o _ k h = cc

    pub occurs_check-Foreign : (fuel : ℕ) → Meets (occurs_check fuel m.store.word v)
    unfolding occurs_check
    occurs_check-Foreign zero o x h = cc
    occurs_check-Foreign (suc fuel) o x h =
        let w = m.store.word in
        elim (Option-cases (variable_dereference fuel w o)) [
          | inl short ↦ absurd (ground arith)
          | inr (t, e) ↦
              let ends = variable_dereference-Ends object is_cell m l fuel o t x e in
              let p : occurs_object (occurs_check fuel w v) w v t (kind (w t)) ≡ Occurrence.beyond =
                ground arith in
              occurs_object-Foreign (occurs_check fuel w v) (occurs_check-Foreign fuel) t
                ends.is_object (kind (w t)) refl p
        ]
