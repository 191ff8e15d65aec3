-- ===== src/Compare/Order.antt =====
-- `compareTerms` and the escapes that call it, src/compare.cc. The doubles and their comparisons
-- with each other and with integers are parameters.
use qu_prolog.Base.{ℕ, ◌&&◌, Bool, true, false, List, ltb, if◌then◌else◌}
use qu_prolog.Base.Int.{ℤ, ltb_ℤ}
use qu_prolog.Compare.Term.{
  Term, var, short, long, double, atom, string, struct, cons, obj_var, quant, Args, no_args, arg,
  Sign, minus, zero, plus, c_atom, class, by_class, strcmp, to_int, cons_name, is_nil, arity,
}

-- Two tests and an answer for when neither holds, the shape of each comparison of the source.
abbrev pub three_way : Bool → Bool → Sign → Sign
three_way less greater rest = if less then minus else if greater then plus else rest

-- `if (res != 0) return res;`
abbrev pub unless_zero : Sign → Sign → Sign
unless_zero zero rest = rest
unless_zero minus rest = minus
unless_zero plus rest = plus

unfoldable pub compare_int : ℤ → ℤ → Sign
unfolding to_int
compare_int i j = three_way (ltb_ℤ (to_int i) (to_int j)) (ltb_ℤ (to_int j) (to_int i)) zero

-- The row of the `switch` for an atom on the left, which makes no call of `compareTerms`.
unfoldable pub compare_atom : {D : Type 0} → List ℕ → Term D → Sign
unfolding class by_class
compare_atom n (atom m) = strcmp n m
compare_atom n t = by_class c_atom (class t)

module _ {D : Type 0} (less : D → D → Bool) (of_int : ℤ → D) where
  unfoldable pub compare_double : D → D → Sign
  compare_double d e = three_way (less d e) (less e d) zero

  unfoldable mutual
    pub compare : Term D → Term D → Sign
    compare (var a s) (var b t) =
        let subs = compare s t in
        three_way (ltb a b) (ltb b a) (if is_nil s && is_nil t then zero else subs)
    compare (short i) (short j) = compare_int i j
    compare (short i) (long j) = compare_int i j
    compare (long i) (short j) = compare_int i j
    compare (long i) (long j) = compare_int i j
    compare (short i) (double e) = compare_double (of_int (to_int i)) e
    compare (long i) (double e) = compare_double (of_int (to_int i)) e
    compare (double d) (short j) = compare_double d (of_int (to_int j))
    compare (double d) (long j) = compare_double d (of_int (to_int j))
    compare (double d) (double e) = compare_double d e
    compare (atom n) (atom m) = strcmp n m
    compare (string s) (string t) = strcmp s t
    compare (struct f xs) (struct g ys) =
        let functors = compare f g in
        let rest = compare_args xs ys in
        three_way (ltb (arity xs) (arity ys)) (ltb (arity ys) (arity xs))
          (unless_zero functors rest)
    compare (cons h t) (struct g ys) =
        three_way (ltb 2 (arity ys)) (ltb (arity ys) 2) (compare_atom cons_name g)
    compare (struct f xs) (cons h t) =
        three_way (ltb (arity xs) 2) (ltb 2 (arity xs)) (compare_atom cons_name f)
    compare (cons h t) (cons k u) = let tails = compare t u in unless_zero (compare h k) tails
    compare (obj_var a s) (obj_var b t) =
        let subs = compare s t in
        three_way (ltb a b) (ltb b a) (if is_nil s && is_nil t then zero else subs)
    -- the bodies are dereferenced, and then the quantifiers are compared once more
    compare (quant q v b) (quant r w c) = unless_zero (compare q r) (compare q r)
    compare t u = by_class (class t) (class u)

    pub compare_args : Args D → Args D → Sign
    compare_args no_args ys = zero
    compare_args (arg x xs) no_args = zero
    compare_args (arg x xs) (arg y ys) =
        let rest = compare_args xs ys in unless_zero (compare x y) rest

  unfoldable pub psi_term_less_than : Term D → Term D → Bool
  psi_term_less_than t u = elim (compare t u) [ minus ↦ true | _ ↦ false ]

  unfoldable pub psi_term_at_equal : Term D → Term D → Bool
  psi_term_at_equal t u = elim (compare t u) [ zero ↦ true | _ ↦ false ]

  unfoldable pub psi_term_greater_than : Term D → Term D → Bool
  psi_term_greater_than t u = elim (compare t u) [ plus ↦ true | _ ↦ false ]

-- `psi_compare_var`: 1 also for the same variable.
unfoldable pub psi_compare_var : ℕ → ℕ → Sign
psi_compare_var a b = if ltb a b then minus else plus

-- `psi_compare_atom`, up to the size of what `strcmp` returns.
unfoldable pub psi_compare_atom : List ℕ → List ℕ → Sign
psi_compare_atom n m = strcmp n m
