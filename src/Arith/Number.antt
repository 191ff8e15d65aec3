-- ===== src/Arith/Number.antt =====
-- The numbers, the atoms and the expressions of src/arithmetic.cc, and what it takes from the
-- floating point unit and the mathematical library.
use qu_prolog.Base.{ℕ, ◌&&◌, Bool, true, false}
use qu_prolog.Base.Int.{ℤ, pos}

-- The doubles. A function that may set `errno` answers, too, whether it does. `shift` is what a
-- shift by a negative or too large number of places gives; `words` are the two 32-bit words of a
-- double.
pub record Platform : Type 1 where
  pub Double : Type 0
  pub of_int : ℤ → Double
  pub to_int64 : Double → ℤ
  pub pi : Double
  pub e : Double
  pub neg : Double → Double
  pub fabs : Double → Double
  pub round : Double → Double
  pub floor : Double → Double
  pub ceil : Double → Double
  pub add : Double → Double → Double
  pub sub : Double → Double → Double
  pub mul : Double → Double → Double
  pub div : Double → Double → Double
  pub less : Double → Double → Bool
  pub less_eq : Double → Double → Bool
  pub sin : Double → Double
  pub cos : Double → Double
  pub sqrt : Double → Bool × Double
  pub tan : Double → Bool × Double
  pub asin : Double → Bool × Double
  pub acos : Double → Bool × Double
  pub atan : Double → Bool × Double
  pub log : Double → Bool × Double
  pub pow : Double → Double → Bool × Double
  pub shift : ℤ → ℤ → ℤ
  pub words : Double → ℕ × ℕ

-- The atoms that the evaluator tells apart.
pub data Atom : Type 0 where
  pi e plus minus multiply maxi min abs round floor truncate ceiling sqrt sin cos tan asin acos :
      Atom
  atan log divide intdivide modulo power bitwiseand bitwiseor shiftl shiftr bitneg : Atom
  other : ℕ → Atom

pub data ErrorValue : Type 0 where
  no_error inst type_error range zero_divide : ErrorValue

pub data Number (D : Type 0) : Type 0 where
  int : ℤ → Number D
  dbl : D → Number D

-- Expressions, dereferenced at each level. `compound` is any other term.
mutual
  pub data Expr (D : Type 0) : Type 0 where
    integer : ℤ → Expr D
    float : D → Expr D
    atom : Atom → Expr D
    structure : Atom → Exprs D → Expr D
    variable : Expr D
    compound : Expr D

  pub data Exprs (D : Type 0) : Type 0 where
    nil : Exprs D
    arg : Expr D → Exprs D → Exprs D

-- `number zero = {ARITH_INTEGER_TYPE, {0}}`
abbrev pub zero : {D : Type 0} → Number D
zero = int (pos 0)

unfoldable pub is_int : {D : Type 0} → Number D → Bool
is_int (int i) = true
is_int (dbl d) = false

unfoldable pub both_ints : {D : Type 0} → Number D → Number D → Bool
unfolding is_int
both_ints x y = is_int x && is_int y

unfoldable pub is_zero : {D : Type 0} → Number D → Bool
is_zero (int (pos ℕ.zero)) = true
is_zero _ = false

-- The integer of the union; it is read only after a test for an integer.
unfoldable pub int_val : {D : Type 0} → Number D → ℤ
int_val (int i) = i
int_val (dbl d) = pos 0
