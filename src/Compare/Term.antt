-- ===== src/Compare/Term.antt =====
-- Terms as `compareTerms` of src/compare.cc meets them: each node is what dereferencing a value of
-- the heap and its substitutions gives, with the substitutions that are left at a variable.
use qu_prolog.Base.{
  ℕ, suc, ◌-◌, ◌%◌, ◌^◌, ◌&&◌, Bool, true, false, List, [], ◌∷◌, ltb, ◌==◌, if◌then◌else◌,
}
use qu_prolog.Base.Int.{ℤ, pos, negsuc}

mutual
  -- An address stands for a variable, a list of bytes for the name of an atom or the characters of
  -- a string. `D` is the type of the doubles.
  pub data Term (D : Type 0) : Type 0 where
    var : ℕ → Term D → Term D
    short : ℤ → Term D
    long : ℤ → Term D
    double : D → Term D
    atom : List ℕ → Term D
    string : List ℕ → Term D
    struct : Term D → Args D → Term D
    cons : Term D → Term D → Term D
    obj_var : ℕ → Term D → Term D
    quant : Term D → Term D → Term D → Term D
    sub_block : Term D

  pub data Args (D : Type 0) : Type 0 where
    no_args : Args D
    arg : Term D → Args D → Args D

-- The answers -1, 0 and 1.
pub data Sign : Type 0 where
  minus zero plus : Sign

pub data Class : Type 0 where
  c_var c_short c_long c_double c_atom c_string c_struct c_cons c_obj_var c_quant c_sub_block :
      Class

unfoldable pub arity : {D : Type 0} → Args D → ℕ
arity no_args = 0
arity (arg x xs) = suc (arity xs)

-- `getTag() & TypeMask`
unfoldable pub class : {D : Type 0} → Term D → Class
class (var a s) = c_var
class (short i) = c_short
class (long i) = c_long
class (double d) = c_double
class (atom n) = c_atom
class (string s) = c_string
class (struct f xs) = c_struct
class (cons h t) = c_cons
class (obj_var a s) = c_obj_var
class (quant q v b) = c_quant
class sub_block = c_sub_block

-- The first list of cases that need no look at the terms: the answer is -1.
unfoldable pub is_before : Class → Class → Bool
is_before c_var c_short = true
is_before c_var c_long = true
is_before c_var c_double = true
is_before c_var c_atom = true
is_before c_var c_string = true
is_before c_var c_struct = true
is_before c_var c_cons = true
is_before c_var c_obj_var = true
is_before c_var c_quant = true
is_before c_short c_atom = true
is_before c_short c_string = true
is_before c_short c_struct = true
is_before c_short c_cons = true
is_before c_short c_obj_var = true
is_before c_short c_quant = true
is_before c_long c_atom = true
is_before c_long c_string = true
is_before c_long c_struct = true
is_before c_long c_cons = true
is_before c_long c_obj_var = true
is_before c_long c_quant = true
is_before c_double c_atom = true
is_before c_double c_string = true
is_before c_double c_struct = true
is_before c_double c_cons = true
is_before c_double c_obj_var = true
is_before c_double c_quant = true
is_before c_atom c_string = true
is_before c_atom c_struct = true
is_before c_atom c_cons = true
is_before c_atom c_obj_var = true
is_before c_atom c_quant = true
is_before c_string c_struct = true
is_before c_string c_cons = true
is_before c_string c_obj_var = true
is_before c_string c_quant = true
is_before c_struct c_obj_var = true
is_before c_struct c_quant = true
is_before c_cons c_obj_var = true
is_before c_cons c_quant = true
is_before c_obj_var c_quant = true
is_before _ _ = false

-- The second list answers 1, and so does the `return` behind the `switch`.
unfoldable pub by_class : Class → Class → Sign
unfolding is_before
by_class a b = if is_before a b then minus else plus

-- The sign of `strcmp`, on characters that are not 0.
unfoldable pub strcmp : List ℕ → List ℕ → Sign
strcmp [] [] = zero
strcmp [] (c ∷ cs) = minus
strcmp (c ∷ cs) [] = plus
strcmp (c ∷ cs) (d ∷ ds) = if ltb c d then minus else if ltb d c then plus else strcmp cs ds

-- `int i = val->getInteger()`: the low 32 bits of a 64-bit integer, read as a signed number.
unfoldable pub to_int : ℤ → ℤ
to_int (pos n) = let w = n % 2 ^ 32 in if ltb w (2 ^ 31) then pos w else negsuc (2 ^ 32 - 1 - w)
to_int (negsuc n) = let w = n % 2 ^ 32 in if ltb w (2 ^ 31) then negsuc w else pos (2 ^ 32 - 1 - w)

-- `Heap::newInteger`: the integers from -2^54 to 2^54 - 1 are short, the others long.
unfoldable pub new_integer : {D : Type 0} → ℤ → Term D
new_integer (pos n) = if ltb n (2 ^ 54) then short (pos n) else long (pos n)
new_integer (negsuc n) = if ltb n (2 ^ 54) then short (negsuc n) else long (negsuc n)

-- `AtomTable::nil` and `AtomTable::cons`
abbrev pub nil_name : List ℕ
nil_name = b'[' ∷ b']' ∷ []

abbrev pub cons_name : List ℕ
cons_name = b'.' ∷ []

unfoldable pub is_nil : {D : Type 0} → Term D → Bool
is_nil (atom (a ∷ b ∷ [])) = a == b'[' && b == b']'
is_nil _ = false
