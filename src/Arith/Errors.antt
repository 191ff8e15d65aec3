-- ===== src/Arith/Errors.antt =====
-- Errors of `arithEvaluate` in src/arithmetic.cc.
use qu_prolog.Base.{ℕ, ◌≡◌, refl, Bool, true, false, ◌||◌, ◌==◌, if◌then◌else◌, arith}
use qu_prolog.Arith.Number.{
  Platform, Atom, ErrorValue, Number, zero, Expr, integer, float, atom, structure, variable,
  compound, nil, arg,
}
use qu_prolog.Arith.Operators.{
  eval_plus, eval_minus, eval_multiply, eval_maxi, eval_min, eval_abs, eval_round, eval_floor,
  eval_truncate, eval_ceiling, eval_sqrt, eval_sin, eval_cos, eval_tan, eval_asin, eval_acos,
  eval_atan, eval_log, eval_divide, eval_intdivide, eval_mod, eval_power, eval_bitwiseand,
  eval_bitwiseor, eval_shiftl, eval_shiftr, eval_bitneg, Result, fail,
}
use qu_prolog.Arith.Evaluate.{is_error, apply, evaluate}
use qu_prolog.Arith.Defects.{IsDetermined}

-- The numbers of arguments of each operator.
abbrev pub takes : Atom → ℕ → Bool
takes Atom.plus n = n == 2
takes Atom.minus n = n == 1 || n == 2
takes Atom.multiply n = n == 2
takes Atom.maxi n = n == 2
takes Atom.min n = n == 2
takes Atom.abs n = n == 1
takes Atom.round n = n == 1
takes Atom.floor n = n == 1
takes Atom.truncate n = n == 1
takes Atom.ceiling n = n == 1
takes Atom.sqrt n = n == 1
takes Atom.sin n = n == 1
takes Atom.cos n = n == 1
takes Atom.tan n = n == 1
takes Atom.asin n = n == 1
takes Atom.acos n = n == 1
takes Atom.atan n = n == 1
takes Atom.log n = n == 1
takes Atom.divide n = n == 2
takes Atom.intdivide n = n == 2
takes Atom.modulo n = n == 2
takes Atom.power n = n == 2
takes Atom.bitwiseand n = n == 2
takes Atom.bitwiseor n = n == 2
takes Atom.shiftl n = n == 2
takes Atom.shiftr n = n == 2
takes Atom.bitneg n = n == 1
takes _ n = false

-- Expressions of numbers, the two constants, and operators with as many arguments as they have.
abbrev pub IsWellFormed : {D : Type 0} → Expr D → Type 0
IsWellFormed (integer i) = Unit
IsWellFormed (float d) = Unit
IsWellFormed (atom Atom.pi) = Unit
IsWellFormed (atom Atom.e) = Unit
IsWellFormed (atom a) = ⊥
IsWellFormed (structure op (arg a nil)) = (takes op 1 ≡ true) × IsWellFormed a
IsWellFormed (structure op (arg a (arg b nil))) =
    (takes op 2 ≡ true) × IsWellFormed a × IsWellFormed b
IsWellFormed (structure op args) = ⊥
IsWellFormed variable = ⊥
IsWellFormed compound = ⊥

-- The numbers of arguments that an operator is evaluated with: `max` and `min` test no number.
abbrev accepts : Atom → ℕ → Bool
accepts Atom.maxi n = true
accepts Atom.min n = true
accepts op n = takes op n

accepts_one :
    {D : Type 0} (op : Atom) (a : Expr D)
    → IsDetermined (structure op (arg a nil))
    → accepts op 1 ≡ true
    → (takes op 1 ≡ true) × IsDetermined a
accepts_one Atom.maxi a d h = absurd d
accepts_one Atom.min a d h = absurd d
accepts_one _ a d h = (h, d)

accepts_two :
    {D : Type 0} (op : Atom) (a b : Expr D)
    → IsDetermined (structure op (arg a (arg b nil)))
    → accepts op 2 ≡ true
    → (takes op 2 ≡ true) × IsDetermined a × IsDetermined b
accepts_two Atom.maxi a b d h = (refl, d.0, d.1)
accepts_two Atom.min a b d h = (refl, d.0, d.1)
accepts_two _ a b d h = (h, d.0, d.1)

module _ (p : Platform) (garbage : Number p.Double) where
  -- What the result of a branch satisfies.
  abbrev IsSound : Atom → ℕ → Result p.Double → Type 0
  IsSound op n r = (is_error r.1 ≡ true → r.0 ≡ zero) × (is_error r.1 ≡ false → accepts op n ≡ true)

  apply-IsSound :
      (op : Atom) (n : ℕ) (x y : Number p.Double) → IsSound op n (apply p garbage op n x y)
  unfolding apply eval_plus eval_minus eval_multiply eval_maxi eval_min eval_abs eval_round
      eval_floor eval_truncate eval_ceiling eval_sqrt eval_sin eval_cos eval_tan eval_asin eval_acos
      eval_atan eval_log eval_divide eval_intdivide eval_mod eval_power eval_bitwiseand
      eval_bitwiseor eval_shiftl eval_shiftr eval_bitneg is_error
  apply-IsSound Atom.plus n x y = ground arith
  apply-IsSound _ n x y = ground arith

  -- The end of a branch with arguments, whose evaluation left the error value `w`.
  guarded :
      (op : Atom) (n : ℕ) (w : ErrorValue) (r : Result p.Double)
      → IsSound op n r
      → let s = if is_error w then fail w else r in
        (is_error w ≡ true → is_error s.1 ≡ true)
        × (is_error s.1 ≡ true → s.0 ≡ zero)
        × (is_error s.1 ≡ false → (is_error w ≡ false) × (accepts op n ≡ true))
  guarded op n w r h = ground arith

  unset :
      (u w : ErrorValue)
      → (is_error u ≡ true → is_error w ≡ true)
      → is_error w ≡ false
      → is_error u ≡ false
  unset u w sticks h = ground arith

  -- For an expression and the error value it starts with: an error stays an error; a new error
  -- comes with the number 0; and with no error in the end the expression is well formed, with each
  -- operator on as many arguments as it has, if `max` and `min` in it have two arguments, which
  -- the code does not test.
  pub evaluate-errors :
      (a : Expr p.Double) (v : ErrorValue)
      → let r = evaluate p garbage a v in
        (is_error v ≡ true → is_error r.1 ≡ true)
        × (is_error v ≡ false → is_error r.1 ≡ true → r.0 ≡ zero)
        × (is_error r.1 ≡ false → IsDetermined a → IsWellFormed a)
  unfolding evaluate is_error
  evaluate-errors (integer i) v = ground arith
  evaluate-errors (float d) v = ground arith
  evaluate-errors (atom Atom.pi) v = ground arith
  evaluate-errors (atom Atom.e) v = ground arith
  evaluate-errors (atom _) v = ground arith
  evaluate-errors (structure op nil) v = ground arith
  evaluate-errors (structure op (arg a nil)) v =
      let (x, w) = evaluate p garbage a v in
      let ih = evaluate-errors a v in
      let end = guarded op 1 w (apply p garbage op 1 x garbage) (apply-IsSound op 1 x garbage) in
      (
        λ e. end.0 (ih.0 e),
        λ _. end.1,
        λ h d. let one = accepts_one op a d (end.2 h).1 in (one.0, ih.2 (end.2 h).0 one.1),
      )
  evaluate-errors (structure op (arg a (arg b nil))) v =
      let (x, u) = evaluate p garbage a v in
      let (y, w) = evaluate p garbage b u in
      let ih = evaluate-errors a v in
      let ih' = evaluate-errors b u in
      let end = guarded op 2 w (apply p garbage op 2 x y) (apply-IsSound op 2 x y) in
      (
        λ e. end.0 (ih'.0 (ih.0 e)),
        λ _. end.1,
        λ h d.
            let (fine, arity) = end.2 h in
            let (two, left, right) = accepts_two op a b d arity in
            (two, ih.2 (unset u w ih'.0 fine) left, ih'.2 fine right),
      )
  evaluate-errors (structure op (arg a (arg b (arg c r)))) v = ground arith
  evaluate-errors variable v = ground arith
  evaluate-errors compound v = ground arith
