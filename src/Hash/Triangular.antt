-- ===== src/Hash/Triangular.antt =====
-- The triangular numbers modulo a power of 2, by which the loops of src/dynamic_hash_table.h step.
use qu_prolog.Base.{
  ℕ, zero, suc, ◌+◌, ◌*◌, ◌-◌, ◌/◌, ◌%◌, ◌^◌, ◌<◌, ◌≤◌, ◌≡◌, ◌≢◌, refl, sym, ap, ap, ◌∙◌, arith,
  inl, inr, ◌⊎◌, Bool-cases, leb,
}
use native.Mathlib.Nat.{pow-succ', mod-add-div', add-mul, mul_comm}

unfoldable pub triangle : ℕ → ℕ
triangle zero = 0
triangle (suc n) = triangle n + suc n

-- An odd factor has no part in a division by a power of 2.
odd_mul : (a b : ℕ) → (2 * a + 1) * b ≡ 2 * (a * b) + b
odd_mul a b = grind arith

double_mul : (m p : ℕ) → m * (2 * p) ≡ 2 * (m * p)
double_mul m p = grind arith

halve :
    (a b m p : ℕ)
    → (2 * a + 1) * b ≡ m * (2 * p)
    → (c : ℕ) × (b ≡ 2 * c) × ((2 * a + 1) * c ≡ m * p)
halve a b m p h =
    let e : 2 * (a * b) + b ≡ 2 * (m * p) = omega (arith, odd_mul a b, double_mul m p, h) in
    let even : b ≡ 2 * (b / 2) = omega arith in
    let f : a * b ≡ 2 * (a * (b / 2)) = ap (λ x. a * x) even ∙ double_mul a (b / 2) in
    (b / 2, even, omega (arith, odd_mul a (b / 2)))

odd_factor : (n a b m : ℕ) → (2 * a + 1) * b ≡ m * 2 ^ n → (c : ℕ) × (b ≡ c * 2 ^ n)
odd_factor zero a b m h = (b, omega arith)
odd_factor (suc n) a b m h =
    let (c, e, f) = halve a b m (2 ^ n) (h ∙ ap (λ p. m * p) (pow-succ' 2 n)) in
    let (d, g) = odd_factor n a c m f in
    (d, omega (arith, e, ap (λ x. 2 * x) g, double_mul d (2 ^ n), ap (λ x. d * x) (pow-succ' 2 n)))

-- The difference of two triangular numbers.
triangle-add : (i d : ℕ) → 2 * triangle (d + i) ≡ 2 * triangle i + d * (2 * i + d + 1)
unfolding triangle
triangle-add i zero = let z : 0 + i ≡ i = omega arith in rw z (omega arith)
triangle-add i (suc d) = let h = triangle-add i d in grind arith

up_to : (a b : ℕ) → ((c : ℕ) × (b ≡ a + c)) ⊎ ((c : ℕ) × (a ≡ b + c))
up_to a b = elim (Bool-cases (leb a b)) [
  | inl h ↦ inl (b - a, ground arith)
  | inr h ↦ inr (a - b, ground arith)
]

suc_mul_lem : (c p : ℕ) → suc c * p ≡ c * p + p
suc_mul_lem c p = grind arith

same_rest : (x y n : ℕ) → x ≤ y → x % n ≡ y % n → (c : ℕ) × (y ≡ x + c * n)
same_rest x y n h e =
    let a = mod-add-div' x n in
    let b = mod-add-div' y n in
    elim (up_to (x / n) (y / n)) [
      | inl (c, g) ↦ (c, omega (arith, a, b, e, ap (λ q. q * n) g ∙ add-mul (x / n) c n))
      | inr (c, g) ↦ (0, omega (arith, a, b, e, h, ap (λ q. q * n) g ∙ add-mul (y / n) c n))
    ]

no_multiple : (x c p : ℕ) → 0 < x → x < p → x ≢ c * p
no_multiple x zero p h k e = omega arith
no_multiple x (suc c) p h k e = omega (arith, suc_mul_lem c p)

parity : (x : ℕ) → ((a : ℕ) × (x ≡ 2 * a)) ⊎ ((a : ℕ) × (x ≡ 2 * a + 1))
parity zero = inl (0, refl)
parity (suc x) = elim (parity x) [
  | inl (a, e) ↦ inr (a, omega (arith, e))
  | inr (a, e) ↦ inl (suc a, omega (arith, e))
]

-- Steps of 1, 2, 3 and so on from `start` do not come back to a slot within `2 ^ k` steps.
pub steps_apart :
    (k start i d : ℕ)
    → suc d + i < 2 ^ k
    → (start + triangle i) % 2 ^ k ≢ (start + triangle (suc d + i)) % 2 ^ k
steps_apart k start i d h e =
    let a = triangle-add i (suc d) in
    let (c, r) =
      same_rest (start + triangle i) (start + triangle (suc d + i)) (2 ^ k) (omega (arith, a)) e in
    let f : suc d * (2 * i + suc d + 1) ≡ c * 2 ^ suc k =
      omega (arith, a, r, double_mul c (2 ^ k), ap (λ x. c * x) (pow-succ' 2 k)) in
    let bound = pow-succ' 2 k in
    elim (parity (suc d)) [
      | inl (b, p) ↦
          let q : 2 * (i + b) + 1 ≡ 2 * i + suc d + 1 = omega arith in
          let (c', g) =
            odd_factor (suc k) (i + b) (suc d) c
              (ap (λ x. x * suc d) q ∙ mul_comm (2 * i + suc d + 1) (suc d) ∙ f) in
          no_multiple (suc d) c' (2 ^ suc k) (omega arith) (omega (arith, bound)) g
      | inr (b, p) ↦
          let (c', g) =
            odd_factor (suc k) b (2 * i + suc d + 1) c
              (ap (λ x. x * (2 * i + suc d + 1)) (sym p) ∙ f) in
          no_multiple (2 * i + suc d + 1) c' (2 ^ suc k) (omega arith) (omega (arith, bound)) g
    ]
