-- ===== src/Unify/Table.antt =====
-- The switch of `Thread::unify` on the classes of two dereferenced terms (src/unify.cc).
use qu_prolog.Base.{
  ℕ, zero, suc, ◌+◌, ◌≡◌, refl, sym, ap, ◌∙◌, subst, Bool, true, inl, inr, arith, Bool-cases, ◌==◌,
  ==_iff, if◌then◌else◌,
}
use qu_prolog.Machine.{Machine}
use qu_prolog.Unify.{Outcome, done, compare_constants, unify_structures, unify_lists, carry_out}
use qu_prolog.Unify.Object.{Kind, kind, get_arity, equal_uninterp}
use qu_prolog.Unify.Solution.{Tree, values, Constant, Pointers, Layout}
use qu_prolog.Unify.Frame.{Pointers-frame, values-frame}
use qu_prolog.Unify.Reads.{equal_uninterp_lem}
use qu_prolog.Unify.Correct.{Correct}
use qu_prolog.Unify.Rules.{then_unify-Correct, Correct-iff, unify_arguments-Correct}
use qu_prolog.Unify.Answers.{yes-Correct, no-Correct, test-Correct}

pub length-values :
    (σ : ℕ → Tree) (n k : ℕ) (w : ℕ → ℕ) (a b : ℕ) → values σ n w a ≡ values σ k w b → n ≡ k
unfolding values
length-values σ zero zero w a b e = refl
length-values σ zero (suc k) w a b e = cc
length-values σ (suc n) zero w a b e = cc
length-values σ (suc n) (suc k) w a b e = ap suc (length-values σ n k w (a + 1) (b + 1) (cc))

module _ (object is_cell : ℕ → Bool) (u : Machine → ℕ → ℕ → Outcome)
    (right : (m : Machine) (a b : ℕ)
      → Layout object is_cell m
      → object a ≡ true
      → object b ≡ true
      → Correct object is_cell m (λ σ. σ a ≡ σ b) (u m a b))
    (checks : Bool) (fuel : ℕ) (m : Machine) (l : Layout object is_cell m) (t1 t2 : ℕ)
    (o1 : object t1 ≡ true) (o2 : object t2 ≡ true) where
  second : (t : ℕ) → t + 1 + 1 ≡ t + 2
  second t = omega arith

  pub constants-Correct :
      Constant (kind (m.store.word t1))
      → Constant (kind (m.store.word t2))
      → Correct object is_cell m
          (λ σ. σ t1 ≡ σ t2)
          (carry_out checks fuel u m t1 t2 compare_constants)
  unfolding carry_out
  constants-Correct k1 k2 =
      test-Correct object is_cell m l _ (equal_uninterp m.store.word t1 t2) λ σ s.
        let e1 = s.constants t1 o1 k1 in
        let e2 = s.constants t2 o2 k2 in
        let q = equal_uninterp_lem m.store.word t1 t2 in
        ((λ h. e1 ∙ q.0 h ∙ sym e2), λ h. q.1 (sym e1 ∙ h ∙ e2))

  pub lists-Correct :
      kind (m.store.word t1) ≡ Kind.cons
      → kind (m.store.word t2) ≡ Kind.cons
      → Correct object is_cell m (λ σ. σ t1 ≡ σ t2) (carry_out checks fuel u m t1 t2 unify_lists)
  unfolding carry_out
  lists-Correct k1 k2 =
      let w = m.store.word in
      let tail1 = subst (λ a. Pointers object is_cell w 1 a) (second t1) (l.lists t1 o1 k1).2 in
      let tail2 = subst (λ a. Pointers object is_cell w 1 a) (second t2) (l.lists t2 o2 k2).2 in
      Correct-iff object is_cell m
        (λ σ. (σ (w (t1 + 1)) ≡ σ (w (t2 + 1))) × (σ (w (t1 + 2)) ≡ σ (w (t2 + 2)))) _ _
        (λ σ s.
          let e1 = s.lists t1 o1 k1 in let e2 = s.lists t2 o2 k2 in ((λ (h, t). cc), λ h. (cc, cc)))
        (then_unify-Correct object is_cell m _ _ _ _
          (right m (w (t1 + 1)) (w (t2 + 1)) l (l.lists t1 o1 k1).1 (l.lists t2 o2 k2).1)
          λ m' r.
            let e1 = r.frame (t1 + 2) tail1.0 in
            let e2 = r.frame (t2 + 2) tail2.0 in
            rw (e1, e2) (right m' (w (t1 + 2)) (w (t2 + 2)) r.layout tail1.1 tail2.1))

  functor-Correct :
      (f1 f2 : ℕ)
      → object f1 ≡ true
      → object f2 ≡ true
      → Correct object is_cell m (λ σ. σ f1 ≡ σ f2) (if f1 == f2 then done true m else u m f1 f2)
  functor-Correct f1 f2 p1 p2 = elim (Bool-cases (f1 == f2)) [
    | inl same ↦ rw same (yes-Correct object is_cell m l _ (λ σ s. ap σ ((==_iff f1 f2).0 same)))
    | inr apart ↦ rw apart (right m f1 f2 l p1 p2)
  ]

  pub structures-Correct :
      kind (m.store.word t1) ≡ Kind.structure
      → kind (m.store.word t2) ≡ Kind.structure
      → Correct object is_cell m
          (λ σ. σ t1 ≡ σ t2)
          (carry_out checks fuel u m t1 t2 unify_structures)
  unfolding carry_out
  structures-Correct k1 k2 =
      let w = m.store.word in
      let n1 = get_arity (w t1) in
      let n2 = get_arity (w t2) in
      let p1 = l.structures t1 o1 k1 in
      let p2 = l.structures t2 o2 k2 in
      let args1 = subst (λ a. Pointers object is_cell w n1 a) (second t1) p1.2 in
      let args2 = subst (λ a. Pointers object is_cell w n2 a) (second t2) p2.2 in
      elim (Bool-cases (n1 == n2)) [
        | inr differ ↦ rw differ (
            no-Correct object is_cell m l _ λ σ s h.
              let e1 = s.structures t1 o1 k1 in
              let e2 = s.structures t2 o2 k2 in
              let e : n1 ≡ n2 = length-values σ n1 n2 w (t1 + 2) (t2 + 2) (cc) in
              absurd (ground arith))
        | inl agree ↦
            let e = (==_iff n1 n2).0 agree in
            let args2' = subst (λ n. Pointers object is_cell w n (t2 + 2)) (sym e) args2 in
            rw agree (
              Correct-iff object is_cell m
                (λ σ.
                  (σ (w (t1 + 1)) ≡ σ (w (t2 + 1)))
                  × (values σ n1 w (t1 + 2) ≡ values σ n1 w (t2 + 2)))
                _ _
                (λ σ s.
                  let e1 = s.structures t1 o1 k1 in
                  let e2 = s.structures t2 o2 k2 in
                  let e3 = ap (λ n. values σ n w (t2 + 2)) e in ((λ (h, t). cc), λ h. (cc, cc)))
                (then_unify-Correct object is_cell m _ _ _ _
                  (functor-Correct (w (t1 + 1)) (w (t2 + 1)) p1.1 p2.1)
                  λ m' r.
                    Correct-iff object is_cell m' _ _ _
                      (λ σ s.
                        let v1 = values-frame object is_cell r.frame σ n1 (t1 + 2) args1 in
                        let v2 = values-frame object is_cell r.frame σ n1 (t2 + 2) args2' in
                        ((λ h. sym v1 ∙ h ∙ v2), λ h. v1 ∙ h ∙ sym v2))
                      (unify_arguments-Correct object is_cell u right n1 m' (t1 + 2) (t2 + 2)
                        r.layout (Pointers-frame object is_cell r.frame n1 (t1 + 2) args1)
                        (Pointers-frame object is_cell r.frame n1 (t2 + 2) args2'))))
      ]
