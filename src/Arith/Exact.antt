-- ===== src/Arith/Exact.antt =====
-- The 64-bit operations of src/arithmetic.cc are exact where the true result fits.
use qu_prolog.Base.{
  ℕ, zero, suc, ◌+◌, ◌-◌, ◌*◌, ◌/◌, ◌%◌, ◌^◌, ◌≤◌, ◌<◌, ◌≡◌, ◌≢◌, refl, sym, ap, true, arith,
}
use native.Mathlib.Nat.{div-add-mod'}
use qu_prolog.Base.Int.{ℤ, pos, negsuc, sub_ℕ, ◌+ℤ◌, ◌-ℤ◌, ◌*ℤ◌, ◌≤ℤ◌}
use qu_prolog.Arith.Integer.{
  wrap, pattern_of, of_pattern, add64, sub64, mul64, neg64, abs64, div64, mod64, magnitude,
  is_negative,
}

-- The integers of 64 bits.
abbrev pub Fits : ℤ → Type 0
Fits i = (negsuc (2 ^ 63 - 1) ≤ℤ i) × (i ≤ℤ pos (2 ^ 63 - 1))

pub wrap_id : (i : ℤ) → Fits i → wrap i ≡ i
unfolding wrap pattern_of of_pattern
wrap_id i h = ground arith

pub wrap-Fits : (i : ℤ) → Fits (wrap i)
unfolding wrap pattern_of of_pattern
wrap-Fits (pos n) = ground arith
wrap-Fits (negsuc n) = ground arith

pub add64_exact : (i j : ℤ) → Fits (i +ℤ j) → add64 i j ≡ i +ℤ j
unfolding add64
add64_exact i j h = wrap_id (i +ℤ j) h

pub sub64_exact : (i j : ℤ) → Fits (i -ℤ j) → sub64 i j ≡ i -ℤ j
unfolding sub64
sub64_exact i j h = wrap_id (i -ℤ j) h

pub mul64_exact : (i j : ℤ) → Fits (i *ℤ j) → mul64 i j ≡ i *ℤ j
unfolding mul64
mul64_exact i j h = wrap_id (i *ℤ j) h

-- The product of a quotient and the divisor, and the remainder, for each choice of signs.
recombine_pos : (n q m r : ℕ) → n ≡ q * m + r → pos q *ℤ pos m +ℤ pos r ≡ pos n
unfolding ◌*ℤ◌ ◌+ℤ◌
recombine_pos n q m r h = ground arith

recombine_neg : (n q m r : ℕ) → n ≡ q * suc m + r → sub_ℕ 0 q *ℤ negsuc m +ℤ pos r ≡ pos n
unfolding ◌*ℤ◌ ◌+ℤ◌
recombine_neg n q m r h = ground arith

recombine_neg_pos : (n q m r : ℕ) → suc n ≡ q * m + r → sub_ℕ 0 q *ℤ pos m +ℤ sub_ℕ 0 r ≡ negsuc n
unfolding ◌*ℤ◌ ◌+ℤ◌
recombine_neg_pos n q m r h = ground arith

recombine_pos_neg :
    (n q m r : ℕ) → suc n ≡ q * suc m + r → pos q *ℤ negsuc m +ℤ sub_ℕ 0 r ≡ negsuc n
unfolding ◌*ℤ◌ ◌+ℤ◌
recombine_pos_neg n q m r h = ground arith

div-mod : (n d : ℕ) → n ≡ n / d * d + n % d
div-mod n d = sym (div-add-mod' n d)

-- A quotient by a number other than 0 is no greater than the dividend, and one by a number other
-- than 1 is at most half of it.
quotient_le : (n m : ℕ) → n / suc m ≤ n
quotient_le n m = grind (arith, div-mod n (suc m))

quotient_half : (n m : ℕ) → n / suc (suc m) + n / suc (suc m) ≤ n
quotient_half n m = grind (arith, div-mod n (suc (suc m)))

quotient_fits :
    (n m : ℕ)
    → suc n ≤ 2 ^ 63
    → (negsuc n ≡ negsuc (2 ^ 63 - 1) → negsuc m ≢ negsuc 0)
    → suc n / suc m < 2 ^ 63
quotient_fits n zero h ov =
    let small : n ≢ 2 ^ 63 - 1 = λ e. ov (ap negsuc e) refl in
    let whole : suc n / 1 ≡ suc n = omega arith in rw whole (omega arith)
quotient_fits n (suc m) h ov = omega (arith, quotient_half (suc n) m)

magnitude-sub_ℕ : (r : ℕ) → magnitude (sub_ℕ 0 r) ≡ r
unfolding magnitude
magnitude-sub_ℕ r = ground arith

-- The remainder is nearer to 0 than the divisor, has the sign of the dividend or is 0, and quotient
-- and remainder give the dividend back.
pub div64-mod64 :
    (i j : ℤ)
    → Fits i
    → Fits j
    → j ≢ pos 0
    → (i ≡ negsuc (2 ^ 63 - 1) → j ≢ negsuc 0)
    → (div64 i j *ℤ j +ℤ mod64 i j ≡ i)
      × (magnitude (mod64 i j) < magnitude j)
      × (is_negative (mod64 i j) ≡ true → is_negative i ≡ true)
unfolding div64 mod64 ◌+ℤ◌ ◌*ℤ◌ is_negative
div64-mod64 (pos n) (pos zero) h k nz ov = absurd (nz refl)
div64-mod64 (pos n) (pos (suc m)) h k nz ov = (
  rw (wrap_id (pos (n / suc m)) (omega (arith, quotient_le n m)))
      (recombine_pos n (n / suc m) (suc m) (n % suc m) (div-mod n (suc m))),
  omega arith,
  λ neg. neg,
)
div64-mod64 (pos n) (negsuc m) h k nz ov = (
  rw (wrap_id (sub_ℕ 0 (n / suc m)) (ground (arith, quotient_le n m)))
      (recombine_neg n (n / suc m) m (n % suc m) (div-mod n (suc m))),
  omega arith,
  λ neg. neg,
)
div64-mod64 (negsuc n) (pos zero) h k nz ov = absurd (nz refl)
div64-mod64 (negsuc n) (pos (suc m)) h k nz ov = (
  rw (wrap_id (sub_ℕ 0 (suc n / suc m)) (ground (arith, quotient_le (suc n) m)))
      (recombine_neg_pos n (suc n / suc m) (suc m) (suc n % suc m) (div-mod (suc n) (suc m))),
  rw magnitude-sub_ℕ (omega arith),
  λ _. refl,
)
div64-mod64 (negsuc n) (negsuc m) h k nz ov = (
  rw (wrap_id (pos (suc n / suc m)) (omega (arith, quotient_fits n m (omega arith) ov)))
      (recombine_pos_neg n (suc n / suc m) m (suc n % suc m) (div-mod (suc n) (suc m))),
  rw magnitude-sub_ℕ (omega arith),
  λ _. refl,
)

pub abs64_exact : (i : ℤ) → Fits (pos (magnitude i)) → abs64 i ≡ pos (magnitude i)
unfolding abs64 neg64 sub64 wrap pattern_of of_pattern is_negative magnitude ◌-ℤ◌
abs64_exact (pos n) h = refl
abs64_exact (negsuc n) h = ground arith
