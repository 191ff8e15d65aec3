-- ===== src/Arith/Division.antt =====
-- The branches of `//` and `mod` in `arithEvaluate` of src/arithmetic.cc.
use qu_prolog.Base.{ℕ, ◌-◌, ◌^◌, ◌<◌, ◌≡◌, ◌≢◌, refl, true, false, suc}
use qu_prolog.Base.Int.{ℤ, pos, negsuc, ◌+ℤ◌, ◌*ℤ◌}
use qu_prolog.Arith.Integer.{div64, mod64, magnitude, is_negative}
use qu_prolog.Arith.Number.{
  Platform, Atom, no_error, Number, int, Expr, structure, nil, arg, is_zero, both_ints, is_int,
  int_val,
}
use qu_prolog.Arith.Operators.{Result, eval_intdivide, eval_mod}
use qu_prolog.Arith.Evaluate.{is_error, apply, evaluate}
use qu_prolog.Arith.Exact.{Fits, div64-mod64}

is_zero_int : (D : Type 0) (j : ℤ) → j ≢ pos 0 → is_zero {D = D} (int j) ≡ false
unfolding is_zero
is_zero_int D (pos ℕ.zero) h = absurd (h refl)
is_zero_int D (pos (suc n)) h = refl
is_zero_int D (negsuc n) h = refl

module _ (p : Platform) (garbage : Number p.Double) where
  abbrev pub binary : Atom → Expr p.Double → Expr p.Double → Result p.Double
  binary op a b = evaluate p garbage (structure op (arg a (arg b nil))) no_error

  module _ (a b : Expr p.Double) (i j : ℤ)
      (left : evaluate p garbage a no_error ≡ (int i, no_error))
      (right : evaluate p garbage b no_error ≡ (int j, no_error)) (nz : j ≢ pos 0) where
    evaluate-intdivide : binary Atom.intdivide a b ≡ (int (div64 i j), no_error)
    unfolding evaluate apply eval_intdivide is_error both_ints is_int int_val
    evaluate-intdivide = rw (left, right, is_zero_int p.Double j nz) refl

    evaluate-modulo : binary Atom.modulo a b ≡ (int (mod64 i j), no_error)
    unfolding evaluate apply eval_mod is_error both_ints is_int int_val
    evaluate-modulo = rw (left, right, is_zero_int p.Double j nz) refl

  -- For two expressions that give the 64-bit integers `i` and `j` without an error, where `j` is
  -- not 0, nor -1 if `i` is the least integer, `//` gives an integer `q` and `mod` an integer `r`
  -- without an error, so that q * j + r = i, `r` is nearer to 0 than `j`, and `r` is not negative
  -- unless `i` is.
  pub evaluate-division :
      (a b : Expr p.Double) (i j : ℤ)
      → evaluate p garbage a no_error ≡ (int i, no_error)
      → evaluate p garbage b no_error ≡ (int j, no_error)
      → Fits i
      → Fits j
      → j ≢ pos 0
      → (i ≡ negsuc (2 ^ 63 - 1) → j ≢ negsuc 0)
      → (q : ℤ) × (r : ℤ) × (binary Atom.intdivide a b ≡ (int q, no_error))
        × (binary Atom.modulo a b ≡ (int r, no_error))
        × (q *ℤ j +ℤ r ≡ i)
        × (magnitude r < magnitude j)
        × (is_negative r ≡ true → is_negative i ≡ true)
  evaluate-division a b i j left right fi fj nz ov =
      let (whole, near, sign) = div64-mod64 i j fi fj nz ov in
      (
        div64 i j,
        mod64 i j,
        evaluate-intdivide a b i j left right nz,
        evaluate-modulo a b i j left right nz,
        whole,
        near,
        sign,
      )
