-- ===== src/Unify/Inside.antt =====
-- A variable that the occurs check finds in a term is a smaller tree than the term
-- (src/occurs_check.cc).
use qu_prolog.Base.{
  ℕ, zero, suc, ◌+◌, ◌≤◌, ◌<◌, ◌≡◌, refl, sym, ap, ◌∙◌, subst, Bool, true, false, some, arith,
  Bool-cases, Option-cases, inl, inr, ◌⊎◌, ◌==◌, ==_iff,
}
use qu_prolog.Machine.{Machine}
use qu_prolog.Unify.Object.{Kind, kind, is_reference, get_arity, variable_dereference}
use qu_prolog.Unify.Check.{Occurrence, then_check, occurs_words, occurs_object, occurs_check}
use qu_prolog.Unify.Solution.{
  Tree, Trees, unknown, symbol, constant, compound, pair, none_left, more, values, Pointers, Layout,
  Solves,
}
use qu_prolog.Unify.Reads.{variable_dereference-Ends}

unfoldable mutual
  pub size : Tree → ℕ
  size (unknown n) = 1
  size (symbol n) = 1
  size (constant n ws) = 1
  size (compound f ts) = 1 + size f + sizes ts
  size (pair a b) = 1 + size a + size b

  pub sizes : Trees → ℕ
  sizes none_left = 0
  sizes (more t ts) = size t + sizes ts

then_check-present :
    (a b : Occurrence)
    → then_check a b ≡ Occurrence.present
    → (a ≡ Occurrence.present) ⊎ (b ≡ Occurrence.present)
unfolding then_check
then_check-present Occurrence.absent b h = inr h
then_check-present Occurrence.present b h = inl refl
then_check-present Occurrence.beyond Occurrence.absent h = cc
then_check-present Occurrence.beyond Occurrence.present h = inr refl
then_check-present Occurrence.beyond Occurrence.beyond h = cc
then_check-present Occurrence.beyond Occurrence.exhausted h = cc
then_check-present Occurrence.exhausted b h = cc

module _ (object is_cell : ℕ → Bool) (m : Machine) (l : Layout object is_cell m) (σ : ℕ → Tree)
    (s : Solves object σ m.store.word) (v : ℕ) where
  -- The check finds only what is no larger.
  abbrev Finds : (ℕ → Occurrence) → Type 0
  Finds check = (o : ℕ) → object o ≡ true → check o ≡ Occurrence.present → size (σ v) ≤ size (σ o)

  occurs_words-le :
      (check : ℕ → Occurrence)
      → Finds check
      → (n a : ℕ) → Pointers object is_cell m.store.word n a
      → occurs_words check n m.store.word a ≡ Occurrence.present
      → size (σ v) ≤ sizes (values σ n m.store.word a)
  unfolding occurs_words values sizes
  occurs_words-le check f zero a p h = cc
  occurs_words-le check f (suc n) a p h = elim (then_check-present (check (m.store.word a)) _ h) [
    | inl here ↦ omega (arith, f (m.store.word a) p.1 here)
    | inr later ↦ omega (arith, occurs_words-le check f n (a + 1) p.2 later)
  ]

  module _ (check : ℕ → Occurrence) (f : Finds check) (t : ℕ) (o : object t ≡ true) where
    second : t + 1 + 1 ≡ t + 2
    second = omega arith

    occurs_structure-lt :
        kind (m.store.word t) ≡ Kind.structure
        → occurs_object check m.store.word v t Kind.structure ≡ Occurrence.present
        → size (σ v) < size (σ t)
    unfolding occurs_object size sizes values
    occurs_structure-lt k h =
        let w = m.store.word in
        let b = occurs_words-le check f (suc (get_arity (w t))) (t + 1) (l.structures t o k) h in
        let e = ap (λ a. sizes (values σ (get_arity (w t)) w a)) second in
        rw (s.structures t o k) (omega (arith, b, e))

    occurs_list-lt :
        kind (m.store.word t) ≡ Kind.cons
        → occurs_object check m.store.word v t Kind.cons ≡ Occurrence.present
        → size (σ v) < size (σ t)
    unfolding occurs_object size
    occurs_list-lt k h =
        let w = m.store.word in
        let p = l.lists t o k in
        let two : object (w (t + 2)) ≡ true = ap (λ a. object (w a)) (sym second) ∙ p.2.1 in
        rw (s.lists t o k) (elim (then_check-present (check (w (t + 1))) _ h) [
          | inl here ↦ omega (arith, f (w (t + 1)) p.1 here)
          | inr later ↦ omega (arith, f (w (t + 2)) two later)
        ])

    occurs_object-le :
        (k : Kind)
        → kind (m.store.word t) ≡ k
        → occurs_object check m.store.word v t k ≡ Occurrence.present
        → size (σ v) ≤ size (σ t)
    unfolding occurs_object
    occurs_object-le Kind.structure k h = omega (arith, occurs_structure-lt k h)
    occurs_object-le Kind.cons k h = omega (arith, occurs_list-lt k h)
    occurs_object-le Kind.variable k h = elim (Bool-cases (v == t)) [
      | inl same ↦ omega (arith, ap (λ x. size (σ x)) ((==_iff v t).0 same))
      | inr apart ↦ absurd (ground arith)
    ]
    occurs_object-le _ k h = cc

  occurs_check-le : (fuel : ℕ) → Finds (occurs_check fuel m.store.word v)
  unfolding occurs_check
  occurs_check-le zero o x h = cc
  occurs_check-le (suc fuel) o x h =
      let w = m.store.word in
      elim (Option-cases (variable_dereference fuel w o)) [
        | inl short ↦ absurd (ground arith)
        | inr (t, e) ↦
            let ends = variable_dereference-Ends object is_cell m l fuel o t x e in
            let p : occurs_object (occurs_check fuel w v) w v t (kind (w t)) ≡ Occurrence.present =
              ground arith in
            let b =
              occurs_object-le (occurs_check fuel w v) (occurs_check-le fuel) t ends.is_object
                (kind (w t)) refl p in
            omega (arith, b, ap size (ends.same σ s))
      ]

  variable_dereference_self :
      (fuel t t' : ℕ)
      → is_reference (m.store.word t) ≡ false
      → variable_dereference fuel m.store.word t ≡ some t'
      → t ≡ t'
  unfolding variable_dereference
  variable_dereference_self zero t t' r e = cc
  variable_dereference_self (suc fuel) t t' r e = ground arith

  -- A variable that is found in a structure or a list is a smaller tree.
  pub occurs_check-lt :
      (fuel t : ℕ)
      → object t ≡ true
      → is_reference (m.store.word t) ≡ false
      → (kind (m.store.word t) ≡ Kind.structure) ⊎ (kind (m.store.word t) ≡ Kind.cons)
      → occurs_check fuel m.store.word v t ≡ Occurrence.present
      → size (σ v) < size (σ t)
  unfolding occurs_check
  occurs_check-lt zero t o r k h = cc
  occurs_check-lt (suc fuel) t o r k h =
      let w = m.store.word in
      elim (Option-cases (variable_dereference fuel w t)) [
        | inl short ↦ absurd (ground arith)
        | inr (t', e) ↦
            let same = variable_dereference_self fuel t t' r e in
            let p : occurs_object (occurs_check fuel w v) w v t' (kind (w t'))
                ≡ Occurrence.present =
              ground arith in
            let at =
              λ (c : Kind). occurs_object (occurs_check fuel w v) w v t c ≡ Occurrence.present in
            let q : at (kind (w t)) = rw same p in
            elim k [
              | inl k ↦
                  occurs_structure-lt (occurs_check fuel w v) (occurs_check-le fuel) t o k
                    (subst at k q)
              | inr k ↦
                  occurs_list-lt (occurs_check fuel w v) (occurs_check-le fuel) t o k (subst at k q)
            ]
      ]
