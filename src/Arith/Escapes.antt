-- ===== src/Arith/Escapes.antt =====
-- The pseudo instructions of src/arithmetic.cc.
use Prim.Native.Nat.{bit_and, bit_or}
use qu_prolog.Base.{ℕ, ◌-◌, ◌^◌, Bool, if◌then◌else◌}
use qu_prolog.Base.Int.{pos}
use qu_prolog.Arith.Integer.{add64, sub64}
use qu_prolog.Arith.Number.{
  Platform, ErrorValue, no_error, type_error, Number, int, dbl, Expr, float, is_int, both_ints,
  int_val,
}
use qu_prolog.Arith.Operators.{double_val}
use qu_prolog.Arith.Evaluate.{is_error, evaluate}

-- `RV_SUCCESS` with what the output argument is set to, `RV_SUCCESS` or `RV_FAIL` for a test, and
-- `RV_ERROR` with the error value and the number of the argument.
pub data Answer (D : Type 0) : Type 0 where
  sets : Number D → Answer D
  test : Bool → Answer D
  error : ErrorValue → ℕ → Answer D

module _ (p : Platform) (garbage : Number p.Double) where
  open p use {Double}

  unfoldable pub psi_is : Expr Double → Answer Double
  psi_is e = let (r, w) = evaluate p garbage e no_error in if is_error w then error w 2 else sets r

  -- Two arguments are evaluated and handed on.
  abbrev both :
      (Number Double → Number Double → Answer Double) → Expr Double → Expr Double → Answer Double
  both use_them a b =
      let (x, u) = evaluate p garbage a no_error in
      let (y, w) = evaluate p garbage b no_error in
      if is_error u then error u 1 else if is_error w then error w 2 else use_them x y

  unfoldable pub psi_less : Expr Double → Expr Double → Answer Double
  unfolding double_val
  psi_less = both (λ x y. test (p.less (double_val p x) (double_val p y)))

  unfoldable pub psi_lesseq : Expr Double → Expr Double → Answer Double
  unfolding double_val
  psi_lesseq = both (λ x y. test (p.less_eq (double_val p x) (double_val p y)))

  unfoldable pub psi_add : Expr Double → Expr Double → Answer Double
  unfolding double_val both_ints int_val
  psi_add = both (λ x y.
      if both_ints x y
      then sets (int (add64 (int_val x) (int_val y)))
      else sets (dbl (p.add (double_val p x) (double_val p y))))

  unfoldable pub psi_subtract : Expr Double → Expr Double → Answer Double
  unfolding double_val both_ints int_val
  psi_subtract = both (λ x y.
      if both_ints x y
      then sets (int (sub64 (int_val x) (int_val y)))
      else sets (dbl (p.sub (double_val p x) (double_val p y))))

  unfoldable pub psi_increment : Expr Double → Answer Double
  unfolding double_val is_int int_val
  psi_increment a =
      let (x, w) = evaluate p garbage a no_error in
      if is_error w
      then error w 1
      else if is_int x
      then sets (int (add64 (int_val x) (pos 1)))
      else sets (dbl (p.add (double_val p x) (p.of_int (pos 1))))

  -- The branch for a double adds 1.
  unfoldable pub psi_decrement : Expr Double → Answer Double
  unfolding double_val is_int int_val
  psi_decrement a =
      let (x, w) = evaluate p garbage a no_error in
      if is_error w
      then error w 1
      else if is_int x
      then sets (int (sub64 (int_val x) (pos 1)))
      else sets (dbl (p.add (double_val p x) (p.of_int (pos 1))))

  -- `(x[0] | x[1]) & ~(x[0] & x[1])` on the words of a double
  unfoldable pub psi_hash_double : Expr Double → Answer Double
  psi_hash_double (float d) =
      let (lo, hi) = p.words d in
      sets (int (pos (bit_and (bit_or lo hi) (2 ^ 32 - 1 - bit_and lo hi))))
  psi_hash_double e = error type_error 1
