-- ===== src/Hash/Surjective.antt =====
-- A map of the numbers below `n` into themselves that is one-to-one reaches each of them.
use qu_prolog.Base.{ℕ, zero, suc, ◌<◌, ◌≡◌, arith, inl, inr, Bool-cases, ◌==◌, if◌then◌else◌}

-- The map with the value at `n` put where it takes the value `n`, so that it stays below `n`.
redirect : ℕ → (ℕ → ℕ) → ℕ → ℕ
redirect n f i = if f i == n then f n else f i

pub reaches :
    (n : ℕ) (f : ℕ → ℕ)
    → ((i : ℕ) → i < n → f i < n)
    → ((i j : ℕ) → i < n → j < n → f i ≡ f j → i ≡ j)
    → (y : ℕ) → y < n
    → (i : ℕ) × (i < n) × (f i ≡ y)
unfolding redirect
reaches zero f below inj y h = absurd (omega arith)
reaches (suc n) f below inj y h = elim (Bool-cases (f n == y)) [
  | inl e ↦ (n, omega arith, ground arith)
  | inr e ↦
      let target = if y == n then f n else y in
      let (i, small, hit) =
        reaches n (redirect n f)
          (λ i hi.
            let k = below i (omega arith) in
            let b = below n (omega arith) in
            let p = inj i n (omega arith) (omega arith) in ground (arith, k, b, p))
          (λ i j hi hj.
            let p = inj i n (omega arith) (omega arith) in
            let q = inj j n (omega arith) (omega arith) in
            let r = inj i j (omega arith) (omega arith) in λ same. ground (arith, p, q, r))
          target (let b = below n (omega arith) in ground arith) in
      (i, omega arith, let p = inj i n (omega arith) (omega arith) in ground (arith, hit, p, e))
]
