-- ===== src/Compare/Laws.antt =====
-- When `compareTerms` of src/compare.cc answers 0, and where it is no order.
use qu_prolog.Base.{
  ℕ, ◌+◌, ◌*◌, ◌%◌, ◌^◌, ◌≡◌, ◌≢◌, ◌↔◌, refl, sym, ap, ◌∙◌, subst, Bool, true, false, List, [], ◌∷◌,
  ltb, arith,
}
use mathlib.Core.Path.{ap₂}
use qu_prolog.Base.Int.{ℤ, pos, negsuc, ◌+ℤ◌}
use qu_prolog.Compare.Term.{
  Term, var, short, long, double, atom, string, struct, cons, obj_var, quant, sub_block, Args,
  no_args, arg, Sign, minus, zero, plus, class, by_class, strcmp, to_int, new_integer, cons_name,
  is_nil, arity,
}
use qu_prolog.Compare.Order.{
  three_way, unless_zero, compare_int, compare_atom, compare, compare_args, psi_term_at_equal,
}
use qu_prolog.Compare.Swap.{flip, IsOrdered, AreOrdered, compare-swap}

-- Terms with no doubles, no long integers, no quantified terms, and integers that fit an `int`.
unfoldable mutual
  pub IsExact : {D : Type 0} → Term D → Type 0
  IsExact (var a s) = Unit
  IsExact (short i) = to_int i ≡ i
  IsExact (long i) = ⊥
  IsExact (double d) = ⊥
  IsExact (atom n) = Unit
  IsExact (string s) = Unit
  IsExact (struct f xs) = IsExact f × AreExact xs
  IsExact (cons h t) = IsExact h × IsExact t
  IsExact (obj_var a s) = Unit
  IsExact (quant q v b) = ⊥
  IsExact sub_block = ⊥

  pub AreExact : {D : Type 0} → Args D → Type 0
  AreExact no_args = Unit
  AreExact (arg x xs) = IsExact x × AreExact xs

strcmp_refl : (s : List ℕ) → strcmp s s ≡ zero
unfolding strcmp
strcmp_refl [] = refl
strcmp_refl (c ∷ s) = ground (arith, strcmp_refl s)

eq_of_strcmp : (s t : List ℕ) → strcmp s t ≡ zero → s ≡ t
unfolding strcmp
eq_of_strcmp [] [] h = refl
eq_of_strcmp [] (d ∷ t) h = cc
eq_of_strcmp (c ∷ s) [] h = cc
eq_of_strcmp (c ∷ s) (d ∷ t) h = ground (arith, eq_of_strcmp s t)

eq_of_is_nil : {D : Type 0} (s t : Term D) → is_nil s ≡ true → is_nil t ≡ true → s ≡ t
unfolding is_nil
eq_of_is_nil (atom (a ∷ b ∷ [])) (atom (c ∷ d ∷ [])) h k = ground arith
eq_of_is_nil _ _ h k = cc

unless_zero-eq_zero : (a b : Sign) → unless_zero a b ≡ zero → (a ≡ zero) × (b ≡ zero)
unless_zero-eq_zero zero b h = (refl, h)
unless_zero-eq_zero minus b h = cc
unless_zero-eq_zero plus b h = cc

three_way-eq_zero :
    (n m : ℕ) (s : Sign) → three_way (ltb n m) (ltb m n) s ≡ zero → (n ≡ m) × (s ≡ zero)
three_way-eq_zero n m s h = ground arith

arity_apart : {D : Type 0} (y : Term D) (ys : Args D) → arity {D = D} no_args ≡ arity (arg y ys) → ⊥
unfolding arity
arity_apart y ys n = omega arith

arity_tail :
    {D : Type 0} (x y : Term D) (xs ys : Args D)
    → arity (arg x xs) ≡ arity (arg y ys)
    → arity xs ≡ arity ys
unfolding arity
arity_tail x y xs ys n = omega arith

zero_of_flip : (s : Sign) → s ≡ flip s → s ≡ zero
zero_of_flip minus h = cc
zero_of_flip zero h = refl
zero_of_flip plus h = cc

module _ {D : Type 0} (less : D → D → Bool) (of_int : ℤ → D) (lists : Bool) where
  mutual
    unfolding compare IsOrdered IsExact class by_class compare_int

    eq_of_zero :
        (t u : Term D)
        → IsOrdered lists t
        → IsOrdered lists u
        → IsExact t
        → IsExact u
        → compare less of_int t u ≡ zero
        → t ≡ u
    eq_of_zero (var a s) (var b t) h k d e z =
        ap₂ var (three_way-eq_zero a b _ z).0 (eq_of_is_nil s t h k)
    eq_of_zero (short i) (short j) h k d e z = ground arith
    eq_of_zero (atom n) (atom m) h k d e z = ap atom (eq_of_strcmp n m z)
    eq_of_zero (string s) (string t) h k d e z = ap string (eq_of_strcmp s t z)
    eq_of_zero (struct f xs) (struct g ys) h k d e z =
        let r = three_way-eq_zero (arity xs) (arity ys) _ z in
        let p = unless_zero-eq_zero _ _ r.1 in
        ap₂ struct (eq_of_zero f g h.1 k.1 d.0 e.0 p.0)
          (eq_args_of_zero xs ys h.2 k.2 d.1 e.1 r.0 p.1)
    eq_of_zero (cons a t) (struct g ys) h k d e z =
        absurd (k.0 h.0 (sym (three_way-eq_zero 2 (arity ys) _ z).0))
    eq_of_zero (struct f xs) (cons b u) h k d e z =
        absurd (h.0 k.0 (three_way-eq_zero (arity xs) 2 _ z).0)
    eq_of_zero (cons a t) (cons b u) h k d e z =
        let p = unless_zero-eq_zero _ _ z in
        ap₂ cons (eq_of_zero a b h.1 k.1 d.0 e.0 p.0) (eq_of_zero t u h.2 k.2 d.1 e.1 p.1)
    eq_of_zero (obj_var a s) (obj_var b t) h k d e z =
        ap₂ obj_var (three_way-eq_zero a b _ z).0 (eq_of_is_nil s t h k)
    eq_of_zero (long i) u h k d e z = absurd d
    eq_of_zero (double i) u h k d e z = absurd d
    eq_of_zero (quant q v b) u h k d e z = absurd d
    eq_of_zero sub_block u h k d e z = absurd d
    eq_of_zero t (long i) h k d e z = absurd e
    eq_of_zero t (double i) h k d e z = absurd e
    eq_of_zero t (quant q v b) h k d e z = absurd e
    eq_of_zero t sub_block h k d e z = absurd e
    eq_of_zero t u h k d e z = cc

    eq_args_of_zero :
        (xs ys : Args D)
        → AreOrdered lists xs
        → AreOrdered lists ys
        → AreExact xs
        → AreExact ys
        → arity xs ≡ arity ys
        → compare_args less of_int xs ys ≡ zero
        → xs ≡ ys
    eq_args_of_zero no_args no_args h k d e n z = refl
    eq_args_of_zero no_args (arg y ys) h k d e n z = absurd (arity_apart y ys n)
    eq_args_of_zero (arg x xs) no_args h k d e n z = absurd (arity_apart x xs (sym n))
    eq_args_of_zero (arg x xs) (arg y ys) h k d e n z =
        let p = unless_zero-eq_zero _ _ z in
        ap₂ arg (eq_of_zero x y h.0 k.0 d.0 e.0 p.0)
          (eq_args_of_zero xs ys h.1 k.1 d.1 e.1 (arity_tail x y xs ys n) p.1)

  -- `compareTerms` answers 0 for equal terms and for no others, among the terms with no
  -- substitution left at a variable, no doubles, long integers and quantified terms, with integers
  -- that fit an `int`, and free of lists or free of structures with two arguments, if the
  -- comparison of doubles is asymmetric.
  pub compare-eq_zero :
      ((d e : D) → less d e ≡ true → less e d ≡ false)
      → (t u : Term D) → IsOrdered lists t
      → IsOrdered lists u
      → IsExact t
      → IsExact u
      → (compare less of_int t u ≡ zero) ↔ (t ≡ u)
  compare-eq_zero asym t u h k d e = (
    eq_of_zero t u h k d e,
    λ same.
        subst (λ x. compare less of_int t x ≡ zero) same
          (zero_of_flip _ (compare-swap less of_int asym lists t t h h)),
  )

to_int_period : (i : ℤ) (k : ℕ) → to_int i ≡ to_int (i +ℤ pos (k * 2 ^ 32))
unfolding to_int ◌+ℤ◌
to_int_period (pos n) k =
    let low : (n + k * 2 ^ 32) % 2 ^ 32 ≡ n % 2 ^ 32 = omega arith in ground arith
to_int_period (negsuc n) k = ground arith

compare_int-same : (i j : ℤ) → to_int i ≡ to_int j → compare_int i j ≡ zero
unfolding compare_int
compare_int-same i j h = rw h (ground arith)

module _ {D : Type 0} (less : D → D → Bool) (of_int : ℤ → D) where
  -- Quantified terms with one quantifier are found equal whatever their bound variables and their
  -- bodies are, if the quantifier has no substitution left at a variable and is free of lists or
  -- free of structures with two arguments, and the comparison of doubles is asymmetric.
  pub psi_term_at_equal-quant :
      ((d e : D) → less d e ≡ true → less e d ≡ false)
      → (lists : Bool) (q v b w c : Term D) → IsOrdered lists q
      → psi_term_at_equal less of_int (quant q v b) (quant q w c) ≡ true
  unfolding psi_term_at_equal compare
  psi_term_at_equal-quant asym lists q v b w c h =
      rw (zero_of_flip _ (compare-swap less of_int asym lists q q h h))

  -- A structure with two arguments, whose functor is an atom other than that of lists, and a list
  -- give the same answer in both orders, and the answer is not 0: each is before the other, or
  -- each is after it.
  pub compare-struct_cons :
      (f : List ℕ) (h t : Term D) (xs : Args D)
      → arity xs ≡ 2
      → f ≢ cons_name
      → (compare less of_int (struct (atom f) xs) (cons h t)
          ≡ compare less of_int (cons h t) (struct (atom f) xs))
        × (compare less of_int (cons h t) (struct (atom f) xs) ≢ zero)
  unfolding compare compare_atom
  compare-struct_cons f h t xs n apart = (
    ground arith,
    λ z. apart (sym (eq_of_strcmp cons_name f (three_way-eq_zero 2 (arity xs) _ z).1)),
  )

  compare-integers :
      (i j : ℤ) → compare less of_int (new_integer i) (new_integer j) ≡ compare_int i j
  unfolding compare new_integer
  compare-integers (pos n) (pos m) = ground arith
  compare-integers (pos n) (negsuc m) = ground arith
  compare-integers (negsuc n) (pos m) = ground arith
  compare-integers (negsuc n) (negsuc m) = ground arith

  -- Only the low 32 bits of integers are compared: an integer and one that is a multiple of 2 ^ 32
  -- greater are found equal.
  pub compare-wraps :
      (i : ℤ) (k : ℕ)
      → compare less of_int (new_integer i) (new_integer (i +ℤ pos (k * 2 ^ 32))) ≡ zero
  compare-wraps i k =
      compare-integers i (i +ℤ pos (k * 2 ^ 32)) ∙ compare_int-same i _ (to_int_period i k)
