-- ===== src/Unify/Rules.antt =====
-- Outcomes in sequence (src/unify.cc).
use qu_prolog.Base.{ℕ, zero, suc, ◌+◌, ◌≡◌, ◌↔◌, refl, sym, ap, ◌∙◌, Bool, true, false}
use qu_prolog.Machine.{Machine}
use qu_prolog.Unify.{Outcome, done, beyond, overflow, no_fuel, then_unify, unify_arguments}
use qu_prolog.Unify.Object.{unify_class}
use qu_prolog.Unify.Solution.{Tree, values, Pointers, Layout, Solves}
use qu_prolog.Unify.Frame.{Pointers-frame, values-frame}
use qu_prolog.Unify.Correct.{Reached, Correct, Reached-self, Reached-trans}

module _ (object is_cell : ℕ → Bool) where
  pub then_unify-Correct :
      (m : Machine) (E E' : (ℕ → Tree) → Type 0) (o : Outcome) (k : Machine → Outcome)
      → Correct object is_cell m E o
      → ((m' : Machine) → Reached object is_cell m m' → Correct object is_cell m' E' (k m'))
      → Correct object is_cell m (λ σ. E σ × E' σ) (then_unify o k)
  unfolding then_unify
  then_unify-Correct m E E' (done true m') k c d = after (k m') (d m' c.0)
    where
      after :
          (o : Outcome)
          → Correct object is_cell m' E' o
          → Correct object is_cell m (λ σ. E σ × E' σ) o
      after (done true n) (r, s) = (
        Reached-trans object is_cell c.0 r,
        λ σ. (
          (λ h. let a = (s σ).0 h in let b = (c.1 σ).0 a.0 in (b.0, (b.1, a.1))),
          λ (h, (e, e')). (s σ).1 ((c.1 σ).1 (h, e), e'),
        ),
      )
      after (done false n) (r, s) =
          (Reached-trans object is_cell c.0 r, λ σ h (e, e'). s σ ((c.1 σ).1 (h, e)) e')
      after beyond (x, o, k) = (x, o, ap unify_class (sym (c.0.frame x (c.0.layout.tags x o))) ∙ k)
      after overflow (n, r, full) = (n, Reached-trans object is_cell c.0 r, full)
      after no_fuel c' = tt
  then_unify-Correct m E E' (done false m') k c d = (c.0, λ σ h (e, e'). c.1 σ h e)
  then_unify-Correct m E E' beyond k c d = c
  then_unify-Correct m E E' overflow k c d = c
  then_unify-Correct m E E' no_fuel k c d = tt

  -- The equation may be written otherwise where the memory is solved.
  pub Correct-iff :
      (m : Machine) (E E' : (ℕ → Tree) → Type 0) (o : Outcome)
      → ((σ : ℕ → Tree) → Solves object σ m.store.word → E σ ↔ E' σ)
      → Correct object is_cell m E o
      → Correct object is_cell m E' o
  Correct-iff m E E' (done true m') same c = (
    c.0,
    λ σ. (
      (λ h. let a = (c.1 σ).0 h in (a.0, (same σ a.0).0 a.1)),
      λ (h, e). (c.1 σ).1 (h, (same σ h).1 e),
    ),
  )
  Correct-iff m E E' (done false m') same c = (c.0, λ σ h e. c.1 σ h ((same σ h).1 e))
  Correct-iff m E E' beyond same c = c
  Correct-iff m E E' overflow same c = c
  Correct-iff m E E' no_fuel same c = tt

  module _ (u : Machine → ℕ → ℕ → Outcome)
      (right : (m : Machine) (a b : ℕ)
        → Layout object is_cell m
        → object a ≡ true
        → object b ≡ true
        → Correct object is_cell m (λ σ. σ a ≡ σ b) (u m a b)) where
    pub unify_arguments-Correct :
        (n : ℕ) (m : Machine) (a b : ℕ)
        → Layout object is_cell m
        → Pointers object is_cell m.store.word n a
        → Pointers object is_cell m.store.word n b
        → Correct object is_cell m
            (λ σ. values σ n m.store.word a ≡ values σ n m.store.word b)
            (unify_arguments u n m a b)
    unfolding unify_arguments values
    unify_arguments-Correct zero m a b l p q =
        (Reached-self object is_cell l, λ σ. ((λ h. (h, refl)), λ (h, e). h))
    unify_arguments-Correct (suc n) m a b l p q =
        let w = m.store.word in
        Correct-iff m (λ σ. (σ (w a) ≡ σ (w b)) × (values σ n w (a + 1) ≡ values σ n w (b + 1))) _ _
          (λ σ h. ((λ (e, e'). cc), λ e. (cc, cc)))
          (then_unify-Correct m _ _ _ _ (right m (w a) (w b) l p.1 q.1) λ m' r.
            Correct-iff m' _ _ _
              (λ σ h.
                let e = values-frame object is_cell r.frame σ n (a + 1) p.2 in
                let e' = values-frame object is_cell r.frame σ n (b + 1) q.2 in
                ((λ k. sym e ∙ k ∙ e'), λ k. e ∙ k ∙ sym e'))
              (unify_arguments-Correct n m' (a + 1) (b + 1) r.layout
                (Pointers-frame object is_cell r.frame n (a + 1) p.2)
                (Pointers-frame object is_cell r.frame n (b + 1) q.2)))
