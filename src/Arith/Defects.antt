-- ===== src/Arith/Defects.antt =====
-- Where src/arithmetic.cc does not do what its operators are meant to do, and how far that goes.
use qu_prolog.Base.{◌≡◌, ◌≢◌, refl, sym, ap, ◌∙◌, false, arith}
use qu_prolog.Base.Int.{ℤ}
use qu_prolog.Arith.Number.{
  Platform, Atom, ErrorValue, no_error, Number, dbl, Expr, integer, float, atom, structure,
  variable, compound, nil, arg, is_int,
}
use qu_prolog.Arith.Operators.{
  eval_maxi, eval_plus, eval_minus, eval_multiply, eval_divide, eval_intdivide, eval_mod,
  eval_power, eval_bitwiseand, eval_bitwiseor, eval_shiftl, eval_shiftr, double_val,
}
use qu_prolog.Arith.Evaluate.{is_error, apply, evaluate}
use qu_prolog.Arith.Escapes.{psi_less, psi_lesseq, psi_increment, psi_decrement}

-- Expressions in which `max` and `min` have two arguments.
abbrev pub IsDetermined : {D : Type 0} → Expr D → Type 0
IsDetermined (structure Atom.maxi (arg a nil)) = ⊥
IsDetermined (structure Atom.min (arg a nil)) = ⊥
IsDetermined (structure op (arg a nil)) = IsDetermined a
IsDetermined (structure op (arg a (arg b nil))) = IsDetermined a × IsDetermined b
IsDetermined _ = Unit

module _ (p : Platform) where
  apply_unary :
      (g h : Number p.Double) (op : Atom) (a : Expr p.Double) (x : Number p.Double)
      → IsDetermined (structure op (arg a nil))
      → (apply p g op 1 x g ≡ apply p h op 1 x h) × IsDetermined a
  unfolding apply eval_plus eval_minus eval_multiply eval_divide eval_intdivide eval_mod eval_power
      eval_bitwiseand eval_bitwiseor eval_shiftl eval_shiftr
  apply_unary g h Atom.maxi a x d = absurd d
  apply_unary g h Atom.min a x d = absurd d
  apply_unary g h _ a x d = (refl, d)

  apply_binary :
      (g h : Number p.Double) (op : Atom) (a b : Expr p.Double) (x y : Number p.Double)
      → IsDetermined (structure op (arg a (arg b nil)))
      → (apply p g op 2 x y ≡ apply p h op 2 x y) × IsDetermined a × IsDetermined b
  unfolding apply
  apply_binary g h Atom.maxi a b x y d = (refl, d.0, d.1)
  apply_binary g h _ a b x y d = (refl, d.0, d.1)

  -- What the locals hold before they are assigned has no part in the value of an expression in
  -- which `max` and `min` have two arguments.
  pub evaluate_determined :
      (g h : Number p.Double) (a : Expr p.Double) (v : ErrorValue)
      → IsDetermined a
      → evaluate p g a v ≡ evaluate p h a v
  unfolding evaluate
  evaluate_determined g h (integer i) v d = refl
  evaluate_determined g h (float f) v d = refl
  evaluate_determined g h (atom Atom.pi) v d = refl
  evaluate_determined g h (atom Atom.e) v d = refl
  evaluate_determined g h (atom _) v d = refl
  evaluate_determined g h (structure op nil) v d = refl
  evaluate_determined g h (structure op (arg a nil)) v d =
      let (x, w) = evaluate p h a v in
      let (same, part) = apply_unary g h op a x d in
      rw (evaluate_determined g h a v part) (ground (arith, same))
  evaluate_determined g h (structure op (arg a (arg b nil))) v d =
      let (x, u) = evaluate p h a v in
      let (y, w) = evaluate p h b u in
      let (same, left, right) = apply_binary g h op a b x y d in
      rw (evaluate_determined g h a v left, evaluate_determined g h b u right)
        (ground (arith, same))
  evaluate_determined g h (structure op (arg a (arg b (arg c r)))) v d = refl
  evaluate_determined g h variable v d = refl
  evaluate_determined g h compound v d = refl

  max_one_lem :
      (g : Number p.Double) (i : ℤ)
      → p.less (double_val p g) (p.of_int i) ≡ false
      → evaluate p g (structure Atom.maxi (arg (integer i) nil)) no_error ≡ (g, no_error)
  unfolding evaluate apply eval_maxi double_val is_error
  max_one_lem g i h = rw h

  -- `max` of one integer is not determined by the integer: two values that `res2` may hold before
  -- it is assigned, different and neither of them less than the integer, give different answers.
  pub evaluate-max_one :
      (g h : Number p.Double) (i : ℤ)
      → p.less (double_val p g) (p.of_int i) ≡ false
      → p.less (double_val p h) (p.of_int i) ≡ false
      → g ≢ h
      → evaluate p g (structure Atom.maxi (arg (integer i) nil)) no_error
        ≢ evaluate p h (structure Atom.maxi (arg (integer i) nil)) no_error
  evaluate-max_one g h i above above' apart e =
      apart (ap (λ r. r.0) (sym (max_one_lem g i above) ∙ e ∙ max_one_lem h i above'))

  -- For an expression that gives a double, decrementing does what incrementing does.
  pub psi_decrement-psi_increment :
      (g : Number p.Double) (a : Expr p.Double) (d : p.Double)
      → evaluate p g a no_error ≡ (dbl d, no_error)
      → psi_decrement p g a ≡ psi_increment p g a
  unfolding psi_decrement psi_increment is_error is_int double_val
  psi_decrement-psi_increment g a d h = rw h

  -- Integers are compared as doubles: for two integers that round to one double, `<` and `=<` give
  -- the same answer in both orders.
  pub psi_less_rounded :
      (g : Number p.Double) (i j : ℤ)
      → p.of_int i ≡ p.of_int j
      → (psi_less p g (integer i) (integer j) ≡ psi_less p g (integer j) (integer i))
        × (psi_lesseq p g (integer i) (integer j) ≡ psi_lesseq p g (integer j) (integer i))
  unfolding psi_less psi_lesseq evaluate is_error double_val
  psi_less_rounded g i j h = (rw h, rw h)
