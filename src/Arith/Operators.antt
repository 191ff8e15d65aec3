-- ===== src/Arith/Operators.antt =====
-- The operators of `arithEvaluate` in src/arithmetic.cc: one function for each branch on the
-- functor, from the number of arguments and their values.
use qu_prolog.Base.{ℕ, Bool, ◌==◌, ◌&&◌, not, if◌then◌else◌}
use qu_prolog.Base.Int.{ℤ, pos}
use qu_prolog.Arith.Integer.{
  add64, sub64, mul64, neg64, abs64, div64, mod64, and64, or64, not64, shiftl64, shiftr64,
  is_negative,
}
use qu_prolog.Arith.Number.{
  Platform, ErrorValue, no_error, type_error, range, zero_divide, Number, int, dbl, zero, is_int,
  both_ints, is_zero, int_val,
}

-- A number and the error value.
abbrev pub Result : Type 0 → Type 0
Result D = Number D × ErrorValue

abbrev pub ok : {D : Type 0} → Number D → Result D
ok n = (n, no_error)

-- `error_value = v; return zero;`
abbrev pub fail : {D : Type 0} → ErrorValue → Result D
fail v = (zero, v)

-- The test on the number of arguments at the head of most branches.
abbrev pub with_arity : {D : Type 0} → ℕ → ℕ → Result D → Result D
with_arity expected arity r = if arity == expected then r else fail type_error

-- A library call that may set `errno`.
abbrev pub checked : {D : Type 0} → Bool × D → Result D
checked (failed, d) = if failed then fail range else ok (dbl d)

module _ (p : Platform) where
  open p use {Double}

  unfoldable pub double_val : Number Double → Double
  double_val (int i) = p.of_int i
  double_val (dbl d) = d

  unfoldable pub eval_plus : ℕ → Number Double → Number Double → Result Double
  unfolding both_ints int_val double_val
  eval_plus arity x y = with_arity 2 arity (
      if both_ints x y
      then ok (int (add64 (int_val x) (int_val y)))
      else ok (dbl (p.add (double_val x) (double_val y))))

  unfoldable pub eval_minus : ℕ → Number Double → Number Double → Result Double
  unfolding both_ints int_val double_val
  eval_minus arity x y =
      if arity == 1
      then if is_int x then ok (int (neg64 (int_val x))) else ok (dbl (p.neg (double_val x)))
      else if arity == 2
      then if both_ints x y
        then ok (int (sub64 (int_val x) (int_val y)))
        else ok (dbl (p.sub (double_val x) (double_val y)))
      else fail type_error

  -- The multiplication of doubles sets no `errno`, which was cleared.
  unfoldable pub eval_multiply : ℕ → Number Double → Number Double → Result Double
  unfolding both_ints int_val double_val
  eval_multiply arity x y = with_arity 2 arity (
      if both_ints x y
      then ok (int (mul64 (int_val x) (int_val y)))
      else ok (dbl (p.mul (double_val x) (double_val y))))

  -- The number of arguments is not tested.
  unfoldable pub eval_maxi : Number Double → Number Double → Result Double
  unfolding double_val
  eval_maxi x y = if p.less (double_val y) (double_val x) then ok x else ok y

  unfoldable pub eval_min : Number Double → Number Double → Result Double
  unfolding double_val
  eval_min x y = if p.less (double_val x) (double_val y) then ok x else ok y

  unfoldable pub eval_abs : ℕ → Number Double → Result Double
  unfolding is_int int_val double_val
  eval_abs arity x =
      with_arity 1 arity
        (if is_int x then ok (int (abs64 (int_val x))) else ok (dbl (p.fabs (double_val x))))

  -- `round`, `floor` and `ceiling` keep an integer and convert a rounded double.
  abbrev to_integer : (Double → Double) → Number Double → Result Double
  to_integer f x = if is_int x then ok x else ok (int (p.to_int64 (f (double_val x))))

  unfoldable pub eval_round : ℕ → Number Double → Result Double
  unfolding is_int double_val
  eval_round arity x = with_arity 1 arity (to_integer p.round x)

  unfoldable pub eval_floor : ℕ → Number Double → Result Double
  unfolding is_int double_val
  eval_floor arity x = with_arity 1 arity (to_integer p.floor x)

  unfoldable pub eval_truncate : ℕ → Number Double → Result Double
  unfolding is_int double_val
  eval_truncate arity x = with_arity 1 arity (
      if is_int x
      then ok x
      else if p.less (p.of_int (pos 0)) (double_val x)
      then ok (int (p.to_int64 (p.floor (double_val x))))
      else ok (int (p.to_int64 (p.ceil (double_val x)))))

  unfoldable pub eval_ceiling : ℕ → Number Double → Result Double
  unfolding is_int double_val
  eval_ceiling arity x = with_arity 1 arity (to_integer p.ceil x)

  unfoldable pub eval_sqrt : ℕ → Number Double → Result Double
  unfolding double_val
  eval_sqrt arity x = with_arity 1 arity (checked (p.sqrt (double_val x)))

  unfoldable pub eval_sin : ℕ → Number Double → Result Double
  unfolding double_val
  eval_sin arity x = with_arity 1 arity (ok (dbl (p.sin (double_val x))))

  unfoldable pub eval_cos : ℕ → Number Double → Result Double
  unfolding double_val
  eval_cos arity x = with_arity 1 arity (ok (dbl (p.cos (double_val x))))

  unfoldable pub eval_tan : ℕ → Number Double → Result Double
  unfolding double_val
  eval_tan arity x = with_arity 1 arity (checked (p.tan (double_val x)))

  unfoldable pub eval_asin : ℕ → Number Double → Result Double
  unfolding double_val
  eval_asin arity x = with_arity 1 arity (checked (p.asin (double_val x)))

  unfoldable pub eval_acos : ℕ → Number Double → Result Double
  unfolding double_val
  eval_acos arity x = with_arity 1 arity (checked (p.acos (double_val x)))

  unfoldable pub eval_atan : ℕ → Number Double → Result Double
  unfolding double_val
  eval_atan arity x = with_arity 1 arity (checked (p.atan (double_val x)))

  unfoldable pub eval_log : ℕ → Number Double → Result Double
  unfolding double_val
  eval_log arity x = with_arity 1 arity (checked (p.log (double_val x)))

  -- The division of doubles sets no `errno`, which was cleared.
  unfoldable pub eval_divide : ℕ → Number Double → Number Double → Result Double
  unfolding is_zero double_val
  eval_divide arity x y =
      with_arity 2 arity
        (if is_zero y then fail zero_divide else ok (dbl (p.div (double_val x) (double_val y))))

  -- `//` and `mod`
  abbrev integer_division : (ℤ → ℤ → ℤ) → ℕ → Number Double → Number Double → Result Double
  integer_division f arity x y = with_arity 2 arity (
      if is_zero y
      then fail zero_divide
      else if both_ints x y
      then ok (int (f (int_val x) (int_val y)))
      else fail type_error)

  unfoldable pub eval_intdivide : ℕ → Number Double → Number Double → Result Double
  unfolding is_zero both_ints int_val
  eval_intdivide = integer_division div64

  unfoldable pub eval_mod : ℕ → Number Double → Number Double → Result Double
  unfolding is_zero both_ints int_val
  eval_mod = integer_division mod64

  -- Two integers go through the doubles too, and `errno` is not looked at.
  unfoldable pub eval_power : ℕ → Number Double → Number Double → Result Double
  unfolding both_ints int_val double_val is_negative
  eval_power arity x y = with_arity 2 arity (
      if both_ints x y && not (is_negative (int_val y))
      then ok (int (p.to_int64 (p.pow (p.of_int (int_val x)) (p.of_int (int_val y))).1))
      else checked (p.pow (double_val x) (double_val y)))

  -- The operators on two integers.
  abbrev on_integers : (ℤ → ℤ → ℤ) → ℕ → Number Double → Number Double → Result Double
  on_integers f arity x y =
      with_arity 2 arity
        (if both_ints x y then ok (int (f (int_val x) (int_val y))) else fail type_error)

  unfoldable pub eval_bitwiseand : ℕ → Number Double → Number Double → Result Double
  unfolding both_ints int_val
  eval_bitwiseand = on_integers and64

  unfoldable pub eval_bitwiseor : ℕ → Number Double → Number Double → Result Double
  unfolding both_ints int_val
  eval_bitwiseor = on_integers or64

  unfoldable pub eval_shiftl : ℕ → Number Double → Number Double → Result Double
  unfolding both_ints int_val
  eval_shiftl = on_integers (shiftl64 p.shift)

  unfoldable pub eval_shiftr : ℕ → Number Double → Number Double → Result Double
  unfolding both_ints int_val
  eval_shiftr = on_integers (shiftr64 p.shift)

  unfoldable pub eval_bitneg : ℕ → Number Double → Result Double
  unfolding is_int int_val
  eval_bitneg arity x =
      with_arity 1 arity (if is_int x then ok (int (not64 (int_val x))) else fail type_error)
