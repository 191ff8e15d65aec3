-- ===== src/Tests/Sums.antt =====
-- Expressions with integers for doubles (src/arithmetic.cc).
use qu_prolog.Base.{◌≢◌, ◌/◌, ◌*◌, ◌<◌, ◌≡◌, refl, true, false, arith}
use qu_prolog.Base.Int.{ℤ, pos, negsuc, ltb_ℤ, ◌+ℤ◌, ◌-ℤ◌, ◌*ℤ◌}
use qu_prolog.Arith.Integer.{add64, sub64, mul64, wrap, magnitude, is_negative}
use qu_prolog.Arith.Number.{
  Platform, Atom, no_error, type_error, Number, int, zero, Expr, integer, float, structure,
  variable, compound, nil, arg, both_ints, is_int, int_val,
}
use qu_prolog.Arith.Operators.{double_val, eval_plus, eval_minus, eval_multiply, eval_maxi}
use qu_prolog.Arith.Evaluate.{is_error, apply, evaluate}
use qu_prolog.Arith.Escapes.{psi_less, psi_lesseq, psi_increment, psi_decrement, psi_is, error}
use qu_prolog.Arith.Division.{binary, evaluate-division}
use qu_prolog.Arith.Reference.{Means, literal, sum, product, evaluate-Means}
use qu_prolog.Arith.Errors.{IsWellFormed, evaluate-errors}
use qu_prolog.Arith.Defects.{
  IsDetermined, evaluate_determined, evaluate-max_one, psi_decrement-psi_increment,
  psi_less_rounded,
}

-- Doubles that keep only even numbers, so that conversion rounds as it does for large integers.
abbrev even : ℤ → ℤ
even (pos n) = pos (n / 2 * 2)
even (negsuc n) = negsuc (n / 2 * 2)

abbrev coarse : Platform
coarse = record {
  Double = ℤ;
  of_int = even;
  to_int64 = λ d. d;
  pi = pos 2;
  e = pos 2;
  neg = λ d. d;
  fabs = λ d. d;
  round = λ d. d;
  floor = λ d. d;
  ceil = λ d. d;
  add = λ d f. even (d +ℤ f);
  sub = λ d f. even (d -ℤ f);
  mul = λ d f. even (d *ℤ f);
  div = λ d f. d;
  less = ltb_ℤ;
  less_eq = λ d f. ltb_ℤ d (f +ℤ pos 1);
  sin = λ d. d;
  cos = λ d. d;
  sqrt = λ d. (false, d);
  tan = λ d. (false, d);
  asin = λ d. (false, d);
  acos = λ d. (false, d);
  atan = λ d. (false, d);
  log = λ d. (true, d);
  pow = λ d f. (false, d);
  shift = λ i j. pos 0;
  words = λ d. (0, 0);
}

abbrev garbage : Number ℤ
garbage = int (pos 99)

-- (2 + 3) * 4
abbrev product_of_sum : Expr ℤ
product_of_sum = structure Atom.multiply (
    arg (structure Atom.plus (arg (integer (pos 2)) (arg (integer (pos 3)) nil)))
      (arg (integer (pos 4)) nil))

arithmetic : Unit {0}
unfolding evaluate apply eval_plus eval_minus eval_multiply eval_maxi both_ints is_int int_val
    double_val is_error add64 sub64 mul64 wrap ◌+ℤ◌ ◌-ℤ◌ ◌*ℤ◌ psi_is psi_less
arithmetic = tt

product_of_sum-Means : Means product_of_sum (pos 20)
unfolding arithmetic
product_of_sum-Means =
    product (sum (literal (pos 2)) (literal (pos 3)) (omega arith)) (literal (pos 4)) (omega arith)

evaluate-Means_example : evaluate coarse garbage product_of_sum no_error ≡ (int (pos 20), no_error)
evaluate-Means_example = evaluate-Means coarse garbage product_of_sum-Means

evaluate-errors_example :
    let r = evaluate coarse garbage product_of_sum no_error in
    (is_error no_error ≡ true → is_error r.1 ≡ true)
    × (is_error no_error ≡ false → is_error r.1 ≡ true → r.0 ≡ zero)
    × (is_error r.1 ≡ false → IsDetermined product_of_sum → IsWellFormed product_of_sum)
evaluate-errors_example = evaluate-errors coarse garbage product_of_sum no_error

-- -7 // 2 and -7 mod 2.
evaluate-division_example :
    (q : ℤ) × (r : ℤ) × (binary coarse garbage Atom.intdivide (integer (negsuc 6)) (integer (pos 2))
      ≡ (int q, no_error))
    × (binary coarse garbage Atom.modulo (integer (negsuc 6)) (integer (pos 2)) ≡ (int r, no_error))
    × (q *ℤ pos 2 +ℤ r ≡ negsuc 6)
    × (magnitude r < magnitude (pos 2))
    × (is_negative r ≡ true → is_negative (negsuc 6) ≡ true)
unfolding arithmetic
evaluate-division_example =
    evaluate-division coarse garbage (integer (negsuc 6)) (integer (pos 2)) (negsuc 6) (pos 2) refl
      refl (omega arith) (omega arith) (λ e. cc) (λ e. cc)

evaluate_determined_example :
    evaluate coarse garbage product_of_sum no_error
    ≡ evaluate coarse (int (pos 1)) product_of_sum no_error
evaluate_determined_example =
    evaluate_determined coarse garbage (int (pos 1)) product_of_sum no_error ((tt, tt), tt)

evaluate-max_one_example :
    evaluate coarse (int (pos 8)) (structure Atom.maxi (arg (integer (pos 5)) nil)) no_error
    ≢ evaluate coarse (int (pos 10)) (structure Atom.maxi (arg (integer (pos 5)) nil)) no_error
unfolding arithmetic
evaluate-max_one_example =
    evaluate-max_one coarse (int (pos 8)) (int (pos 10)) (pos 5) refl refl (λ e. ground (arith, e))

psi_decrement-psi_increment_example :
    psi_decrement coarse garbage (float (pos 6)) ≡ psi_increment coarse garbage (float (pos 6))
unfolding arithmetic
psi_decrement-psi_increment_example =
    psi_decrement-psi_increment coarse garbage (float (pos 6)) (pos 6) refl

psi_less_rounded_example :
    (psi_less coarse garbage (integer (pos 8)) (integer (pos 9))
      ≡ psi_less coarse garbage (integer (pos 9)) (integer (pos 8)))
    × (psi_lesseq coarse garbage (integer (pos 8)) (integer (pos 9))
        ≡ psi_lesseq coarse garbage (integer (pos 9)) (integer (pos 8)))
psi_less_rounded_example = psi_less_rounded coarse garbage (pos 8) (pos 9) refl

-- The error of the second argument is the one that is reported.
second_error :
    psi_is coarse garbage (structure Atom.plus (arg variable (arg compound nil)))
    ≡ error type_error 2
unfolding arithmetic
second_error = refl
