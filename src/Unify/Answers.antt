-- ===== src/Unify/Answers.antt =====
-- The answers of `Thread::unify` of src/unify.cc that bind at most one variable.
use qu_prolog.Base.{
  ℕ, ◌≡◌, ◌↔◌, ◌⊎◌, refl, ap, Bool, true, false, ◌&&◌, inl, inr, arith, Bool-cases,
}
use qu_prolog.Machine.{Machine, bind_and_trail}
use qu_prolog.Unify.{done, beyond, no_fuel, bound, bind_with_check}
use qu_prolog.Unify.Check.{Occurrence, occurs_check}
use qu_prolog.Unify.Object.{Kind, kind, is_reference, is_occurs_checked}
use qu_prolog.Unify.Solution.{Tree, Layout, Solves}
use qu_prolog.Unify.Inside.{size, occurs_check-lt}
use qu_prolog.Unify.Foreign.{occurs_check-Foreign}
use qu_prolog.Unify.Shape.{structure-rigid, list-rigid}
use qu_prolog.Unify.Correct.{Correct, Free, Reached-self, bind-Correct}

module _ (object is_cell : ℕ → Bool) (m : Machine) (l : Layout object is_cell m) where
  -- Nothing is bound.
  pub yes-Correct :
      (E : (ℕ → Tree) → Type 0)
      → ((σ : ℕ → Tree) → Solves object σ m.store.word → E σ)
      → Correct object is_cell m E (done true m)
  yes-Correct E e = (Reached-self object is_cell l, λ σ. ((λ s. (s, e σ s)), λ (s, h). s))

  pub no-Correct :
      (E : (ℕ → Tree) → Type 0)
      → ((σ : ℕ → Tree) → Solves object σ m.store.word → ¬ E σ)
      → Correct object is_cell m E (done false m)
  no-Correct E e = (Reached-self object is_cell l, e)

  pub test-Correct :
      (E : (ℕ → Tree) → Type 0) (b : Bool)
      → ((σ : ℕ → Tree) → Solves object σ m.store.word → (b ≡ true) ↔ E σ)
      → Correct object is_cell m E (done b m)
  test-Correct E true e = yes-Correct E (λ σ s. (e σ s).0 refl)
  test-Correct E false e = no-Correct E (λ σ s h. let x = (e σ s).1 h in cc)

  pub bind_with_check-Correct :
      (checks : Bool) (fuel v t : ℕ)
      → Free object is_cell m v
      → object t ≡ true
      → (kind (m.store.word t) ≡ Kind.structure) ⊎ (kind (m.store.word t) ≡ Kind.cons)
      → Correct object is_cell m (λ σ. σ v ≡ σ t) (bind_with_check checks fuel m v t)
  unfolding bind_with_check
  bind_with_check-Correct checks fuel v t f o k =
      let w = m.store.word in
      let rigid : is_reference (w t) ≡ false = elim k [
        | inl k ↦ structure-rigid (w t) k
        | inr k ↦ list-rigid (w t) k
      ] in
      elim (Bool-cases (is_occurs_checked (w v) && checks)) [
        | inr no_check ↦ rw no_check (bind-Correct object is_cell m v t l f o)
        | inl check ↦ rw check (after (occurs_check fuel w v t) refl rigid)
      ]
    where
      after :
          (c : Occurrence)
          → occurs_check fuel m.store.word v t ≡ c
          → is_reference (m.store.word t) ≡ false
          → Correct object is_cell m
              (λ σ. σ v ≡ σ t)
              (elim c [
                | Occurrence.absent ↦ bound (bind_and_trail v t m)
                | Occurrence.present ↦ done false m
                | Occurrence.beyond ↦ beyond
                | Occurrence.exhausted ↦ no_fuel
              ])
      after Occurrence.absent e r = bind-Correct object is_cell m v t l f o
      after Occurrence.present e r =
          no-Correct (λ σ. σ v ≡ σ t)
            λ σ s same.
              let h = occurs_check-lt object is_cell m l σ s v fuel t o r k e in
              absurd (omega (arith, h, ap size same))
      after Occurrence.beyond e r = occurs_check-Foreign object is_cell m l v fuel t o e
      after Occurrence.exhausted e r = tt
