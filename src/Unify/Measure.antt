-- ===== src/Unify/Measure.antt =====
-- The number of unbound variables, which each binding lowers (src/bind.h).
use qu_prolog.Base.{
  ℕ, ◌+◌, ◌≤◌, ◌<◌, ◌≡◌, ◌≢◌, sym, subst, Bool, true, false, arith, Bool-cases, inl, inr, ◌==◌,
  ==_iff, update, if◌then◌else◌, List, [], ◌∷◌,
}

abbrev pub member : List ℕ → ℕ → Bool
member [] x = false
member (y ∷ ys) x = if y == x then true else member ys x

pub unbound_count : (ℕ → ℕ) → List ℕ → ℕ
unbound_count w [] = 0
unbound_count w (x ∷ xs) = unbound_count w xs + (if w (x + 1) == x then 1 else 0)

module _ (w : ℕ → ℕ) (v t : ℕ) (unbound : w (v + 1) ≡ v) (apart : v ≢ t) where
  one :
      (x : ℕ)
      → (if update w (v + 1) t (x + 1) == x then 1 else 0) ≤ (if w (x + 1) == x then 1 else 0)
  one x = elim (Bool-cases (v == x)) [
    | inl same ↦ let e = (==_iff v x).0 same in ground arith
    | inr other ↦ ground arith
  ]

  bind-le : (vs : List ℕ) → unbound_count (update w (v + 1) t) vs ≤ unbound_count w vs
  unfolding unbound_count
  bind-le [] = omega arith
  bind-le (x ∷ xs) = omega (arith, bind-le xs, one x)

  here : (x : ℕ) → v ≡ x → ((w (x + 1) == x) ≡ true) × ((update w (v + 1) t (x + 1) == x) ≡ false)
  here x e = ((==_iff (w (x + 1)) x).1 (subst (λ y. w (y + 1) ≡ y) e unbound), ground arith)

  pub bind-lt :
      (vs : List ℕ)
      → member vs v ≡ true
      → unbound_count (update w (v + 1) t) vs < unbound_count w vs
  unfolding unbound_count
  bind-lt [] h = cc
  bind-lt (x ∷ xs) h = elim (Bool-cases (x == v)) [
    | inl same ↦
        let (p, q) = here x (sym ((==_iff x v).0 same)) in rw (p, q) (omega (arith, bind-le xs))
    | inr other ↦ omega (arith, bind-lt xs (ground arith), one x)
  ]
