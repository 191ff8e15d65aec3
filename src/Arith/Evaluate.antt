-- ===== src/Arith/Evaluate.antt =====
-- `arithEvaluate` of src/arithmetic.cc.
use qu_prolog.Base.{ℕ, Bool, true, false, if◌then◌else◌}
use qu_prolog.Arith.Number.{
  Platform, Atom, ErrorValue, no_error, inst, type_error, Number, int, dbl, Expr, integer, float,
  atom, structure, variable, compound, nil, arg,
}
use qu_prolog.Arith.Operators.{
  Result, fail, eval_plus, eval_minus, eval_multiply, eval_maxi, eval_min, eval_abs, eval_round,
  eval_floor, eval_truncate, eval_ceiling, eval_sqrt, eval_sin, eval_cos, eval_tan, eval_asin,
  eval_acos, eval_atan, eval_log, eval_divide, eval_intdivide, eval_mod, eval_power,
  eval_bitwiseand, eval_bitwiseor, eval_shiftl, eval_shiftr, eval_bitneg,
}

unfoldable pub is_error : ErrorValue → Bool
is_error no_error = false
is_error inst = true
is_error type_error = true
is_error ErrorValue.range = true
is_error ErrorValue.zero_divide = true

-- `garbage` is what the local variables `res1` and `res2` hold before they are assigned.
module _ (p : Platform) (garbage : Number p.Double) where
  open p use {Double}

  -- The branches on the functor, with no error so far.
  unfoldable pub apply : Atom → ℕ → Number Double → Number Double → Result Double
  apply Atom.plus n x y = eval_plus p n x y
  apply Atom.minus n x y = eval_minus p n x y
  apply Atom.multiply n x y = eval_multiply p n x y
  apply Atom.maxi n x y = eval_maxi p x y
  apply Atom.min n x y = eval_min p x y
  apply Atom.abs n x y = eval_abs p n x
  apply Atom.round n x y = eval_round p n x
  apply Atom.floor n x y = eval_floor p n x
  apply Atom.truncate n x y = eval_truncate p n x
  apply Atom.ceiling n x y = eval_ceiling p n x
  apply Atom.sqrt n x y = eval_sqrt p n x
  apply Atom.sin n x y = eval_sin p n x
  apply Atom.cos n x y = eval_cos p n x
  apply Atom.tan n x y = eval_tan p n x
  apply Atom.asin n x y = eval_asin p n x
  apply Atom.acos n x y = eval_acos p n x
  apply Atom.atan n x y = eval_atan p n x
  apply Atom.log n x y = eval_log p n x
  apply Atom.divide n x y = eval_divide p n x y
  apply Atom.intdivide n x y = eval_intdivide p n x y
  apply Atom.modulo n x y = eval_mod p n x y
  apply Atom.power n x y = eval_power p n x y
  apply Atom.bitwiseand n x y = eval_bitwiseand p n x y
  apply Atom.bitwiseor n x y = eval_bitwiseor p n x y
  apply Atom.shiftl n x y = eval_shiftl p n x y
  apply Atom.shiftr n x y = eval_shiftr p n x y
  apply Atom.bitneg n x y = eval_bitneg p n x
  apply Atom.pi n x y = fail type_error
  apply Atom.e n x y = fail type_error
  apply (Atom.other a) n x y = fail type_error

  -- A `number` and the error variable, which a call reads and writes.
  unfoldable pub evaluate : Expr Double → ErrorValue → Result Double
  evaluate (integer i) v = (int i, v)
  evaluate (float d) v = (dbl d, v)
  evaluate (atom Atom.pi) v = (dbl p.pi, v)
  evaluate (atom Atom.e) v = (dbl p.e, v)
  evaluate (atom a) v = fail type_error
  evaluate (structure op (arg a nil)) v =
      let (x, w) = evaluate a v in if is_error w then fail w else apply op 1 x garbage
  evaluate (structure op (arg a (arg b nil))) v =
      let (x, u) = evaluate a v in
      let (y, w) = evaluate b u in if is_error w then fail w else apply op 2 x y
  evaluate (structure op args) v = fail type_error
  evaluate variable v = fail inst
  evaluate compound v = fail type_error
