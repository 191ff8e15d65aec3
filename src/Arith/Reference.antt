-- ===== src/Arith/Reference.antt =====
-- Evaluation of integer expressions against arithmetic without bounds (src/arithmetic.cc).
use qu_prolog.Base.{◌≡◌, refl}
use qu_prolog.Base.Int.{ℤ, pos, ◌+ℤ◌, ◌-ℤ◌, ◌*ℤ◌}
use qu_prolog.Arith.Integer.{neg64, magnitude}
use qu_prolog.Arith.Exact.{Fits, add64_exact, sub64_exact, mul64_exact, abs64_exact}
use qu_prolog.Arith.Number.{
  Platform, Atom, no_error, Number, int, Expr, integer, structure, nil, arg,
}
use qu_prolog.Arith.Operators.{eval_plus, eval_minus, eval_multiply, eval_abs}
use qu_prolog.Arith.Evaluate.{is_error, apply, evaluate}

abbrev unary : {D : Type 0} → Atom → Expr D → Expr D
unary op a = structure op (arg a nil)

abbrev binary : {D : Type 0} → Atom → Expr D → Expr D → Expr D
binary op a b = structure op (arg a (arg b nil))

-- The integer that an expression of sums, differences, products, negations and absolute values
-- stands for, where no intermediate result leaves the 64 bits.
pub data Means {D : Type 0} : Expr D → ℤ → Type 0 where
  literal : (i : ℤ) → Means (integer i) i
  sum :
      {a b : Expr D} {i j : ℤ}
      → Means a i
      → Means b j
      → Fits (i +ℤ j)
      → Means (structure Atom.plus (arg a (arg b nil))) (i +ℤ j)
  difference :
      {a b : Expr D} {i j : ℤ}
      → Means a i
      → Means b j
      → Fits (i -ℤ j)
      → Means (structure Atom.minus (arg a (arg b nil))) (i -ℤ j)
  product :
      {a b : Expr D} {i j : ℤ}
      → Means a i
      → Means b j
      → Fits (i *ℤ j)
      → Means (structure Atom.multiply (arg a (arg b nil))) (i *ℤ j)
  opposite :
      {a : Expr D} {i : ℤ}
      → Means a i
      → Fits (pos 0 -ℤ i)
      → Means (structure Atom.minus (arg a nil)) (pos 0 -ℤ i)
  absolute :
      {a : Expr D} {i : ℤ}
      → Means a i
      → Fits (pos (magnitude i))
      → Means (structure Atom.abs (arg a nil)) (pos (magnitude i))

module _ (p : Platform) (garbage : Number p.Double) where
  -- For an expression of integers, `+`, `-`, `*`, the unary `-` and `abs` in which the value of
  -- every operation fits 64 bits, the evaluator finds that value, with no error.
  pub evaluate-Means :
      {a : Expr p.Double} {i : ℤ} → Means a i → evaluate p garbage a no_error ≡ (int i, no_error)
  unfolding evaluate apply eval_plus eval_minus eval_multiply eval_abs is_error neg64
  evaluate-Means (literal i) = refl
  evaluate-Means (sum {i = i} {j = j} a b h) =
      rw (evaluate-Means a, evaluate-Means b, add64_exact i j h)
  evaluate-Means (difference {i = i} {j = j} a b h) =
      rw (evaluate-Means a, evaluate-Means b, sub64_exact i j h)
  evaluate-Means (product {i = i} {j = j} a b h) =
      rw (evaluate-Means a, evaluate-Means b, mul64_exact i j h)
  evaluate-Means (opposite {i = i} a h) = rw (evaluate-Means a, sub64_exact (pos 0) i h)
  evaluate-Means (absolute {i = i} a h) = rw (evaluate-Means a, abs64_exact i h)
