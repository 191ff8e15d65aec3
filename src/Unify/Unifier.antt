-- ===== src/Unify/Unifier.antt =====
-- `Thread::unify` of src/unify.cc: what it answers, and what its bindings mean.
use qu_prolog.Base.{
  ℕ, zero, suc, ◌≡◌, ◌≢◌, ◌↔◌, ◌⊎◌, refl, sym, ap, ◌∙◌, subst, Bool, true, false, none, some, inl,
  inr, arith, Bool-cases, Option-cases, ◌==◌, ==_iff,
}
use qu_prolog.Machine.{Machine}
use qu_prolog.Unify.{Outcome, done, no_fuel, unify_objects, unify}
use qu_prolog.Unify.Object.{unify_class, is_substitution, variable_dereference}
use qu_prolog.Unify.Solution.{Tree, Layout, Solves}
use qu_prolog.Unify.Reads.{Ends, variable_dereference-Ends}
use qu_prolog.Unify.Correct.{Correct}
use qu_prolog.Unify.Rules.{Correct-iff}
use qu_prolog.Unify.Answers.{yes-Correct}
use qu_prolog.Unify.Foreign.{substitution-Foreign}
use qu_prolog.Unify.Cases.{Right, action-Correct}

module _ (object is_cell : ℕ → Bool) (checks : Bool) where
  unify_objects-Correct :
      (u : Machine → ℕ → ℕ → Outcome)
      → Right object is_cell checks u
      → (fuel : ℕ) (m : Machine) (t1 t2 : ℕ) → Layout object is_cell m
      → Ends object m.store.word t1 t1
      → Ends object m.store.word t2 t2
      → Correct object is_cell m (λ σ. σ t1 ≡ σ t2) (unify_objects checks fuel u m t1 t2)
  unfolding unify_objects
  unify_objects-Correct u right fuel m t1 t2 l e1 e2 =
      let w = m.store.word in
      elim (Bool-cases (is_substitution (w t1))) [
        | inl s ↦ rw s (substitution-Foreign object is_cell m l t1 e1.is_object s)
        | inr n1 ↦ elim (Bool-cases (is_substitution (w t2))) [
          | inl s ↦ rw (n1, s) (substitution-Foreign object is_cell m l t2 e2.is_object s)
          | inr n2 ↦ elim (Bool-cases (t1 == t2)) [
            | inl same ↦
                let e = (==_iff t1 t2).0 same in
                rw (n1, n2, same) (yes-Correct object is_cell m l _ (λ σ s. ap σ e))
            | inr differ ↦
                let apart : t1 ≢ t2 = λ e. absurd (ground arith) in
                rw (n1, n2, differ)
                  (action-Correct object is_cell checks u right fuel m l t1 t2 e1 e2 apart
                    (unify_class (w t1)) (unify_class (w t2)) refl refl)
          ]
        ]
      ]

  module _ (fuel : ℕ) (m : Machine) (a b : ℕ) where
    pub unify_deep :
        (t1 t2 : ℕ)
        → variable_dereference fuel m.store.word a ≡ some t1
        → variable_dereference fuel m.store.word b ≡ some t2
        → unify checks (suc fuel) m a b ≡ unify_objects checks fuel (unify checks fuel) m t1 t2
    unfolding unify
    unify_deep t1 t2 d1 d2 = ground arith

    unify_shallow :
        (variable_dereference fuel m.store.word a ≡ none)
          ⊎ (variable_dereference fuel m.store.word b ≡ none)
        → unify checks (suc fuel) m a b ≡ no_fuel
    unfolding unify
    unify_shallow short = ground arith

  pub unify-Correct : (fuel : ℕ) → Right object is_cell checks (unify checks fuel)
  unify-Correct zero m a b l oa ob = unfold unify in tt
  unify-Correct (suc fuel) m a b l oa ob =
      let w = m.store.word in
      let right = λ (o : Outcome). Correct object is_cell m (λ σ. σ a ≡ σ b) o in
      elim (Option-cases (variable_dereference fuel w a)) [
        | inl short ↦ subst right (sym (unify_shallow fuel m a b (inl short))) tt
        | inr (t1, d1) ↦ elim (Option-cases (variable_dereference fuel w b)) [
          | inl short ↦ subst right (sym (unify_shallow fuel m a b (inr short))) tt
          | inr (t2, d2) ↦
              let e1 = variable_dereference-Ends object is_cell m l fuel a t1 oa d1 in
              let e2 = variable_dereference-Ends object is_cell m l fuel b t2 ob d2 in
              subst right (sym (unify_deep fuel m a b t1 t2 d1 d2)) (
                Correct-iff object is_cell m (λ σ. σ t1 ≡ σ t2) _ _
                  (λ σ s. (
                    (λ h. e1.same σ s ∙ h ∙ sym (e2.same σ s)),
                    λ h. sym (e1.same σ s) ∙ h ∙ e2.same σ s,
                  ))
                  (unify_objects-Correct (unify checks fuel) (unify-Correct fuel) fuel m t1 t2 l
                    (at_end e1) (at_end e2)))
        ]
      ]
    where
      at_end : {o t : ℕ} → Ends object m.store.word o t → Ends object m.store.word t t
      at_end e = record { is_object = e.is_object; unbound = e.unbound; same = λ σ s. refl }

-- What unification answered is right.
pub outcome-Correct :
    (object is_cell : ℕ → Bool) (checks : Bool) (fuel : ℕ) (m : Machine) (a b : ℕ)
    → Layout object is_cell m
    → object a ≡ true
    → object b ≡ true
    → (o : Outcome) → unify checks fuel m a b ≡ o
    → Correct object is_cell m (λ σ. σ a ≡ σ b) o
outcome-Correct object is_cell checks fuel m a b l oa ob o h =
    subst (λ o. Correct object is_cell m (λ σ. σ a ≡ σ b) o) h
      (unify-Correct object is_cell checks fuel m a b l oa ob)

module _ (object is_cell : ℕ → Bool) (checks : Bool) (fuel : ℕ) (m m' : Machine) (a b : ℕ)
    (l : Layout object is_cell m) (oa : object a ≡ true) (ob : object b ≡ true) where
  -- Where unification succeeds, the solutions of memory after it are those solutions
  -- before it that make the two terms equal.
  pub unify-Solves :
      unify checks fuel m a b ≡ done true m'
      → (σ : ℕ → Tree)
      → Solves object σ m'.store.word ↔ (Solves object σ m.store.word × (σ a ≡ σ b))
  unify-Solves h = (outcome-Correct object is_cell checks fuel m a b l oa ob (done true m') h).1

  -- Where unification fails, no solution of memory makes the two terms equal.
  pub unify-fails :
      unify checks fuel m a b ≡ done false m'
      → (σ : ℕ → Tree) → Solves object σ m.store.word
      → σ a ≢ σ b
  unify-fails h = (outcome-Correct object is_cell checks fuel m a b l oa ob (done false m') h).1
