-- ===== src/Compare/Swap.antt =====
-- `compareTerms` of src/compare.cc with its arguments swapped.
use qu_prolog.Base.{ℕ, ◌≡◌, ◌≢◌, refl, Bool, true, false, List, [], ◌∷◌, ltb, arith}
use qu_prolog.Base.Int.{ℤ}
use qu_prolog.Compare.Term.{
  Term, var, short, long, double, atom, string, struct, cons, obj_var, quant, sub_block, Args,
  no_args, arg, Sign, minus, zero, plus, class, by_class, strcmp, is_nil, arity,
}
use qu_prolog.Compare.Order.{
  three_way, unless_zero, compare_int, compare_double, compare, compare_args,
}

abbrev pub flip : Sign → Sign
flip minus = plus
flip zero = zero
flip plus = minus

-- Terms with no substitution left at a variable that, by `lists`, have no structure with two
-- arguments or have no list.
unfoldable mutual
  pub IsOrdered : {D : Type 0} → Bool → Term D → Type 0
  IsOrdered lists (var a s) = is_nil s ≡ true
  IsOrdered lists (short i) = Unit
  IsOrdered lists (long i) = Unit
  IsOrdered lists (double d) = Unit
  IsOrdered lists (atom n) = Unit
  IsOrdered lists (string s) = Unit
  IsOrdered lists (struct f xs) =
      (lists ≡ true → arity xs ≢ 2) × IsOrdered lists f × AreOrdered lists xs
  IsOrdered lists (cons h t) = (lists ≡ true) × IsOrdered lists h × IsOrdered lists t
  IsOrdered lists (obj_var a s) = is_nil s ≡ true
  IsOrdered lists (quant q v b) = IsOrdered lists q
  IsOrdered lists sub_block = ⊥

  pub AreOrdered : {D : Type 0} → Bool → Args D → Type 0
  AreOrdered lists no_args = Unit
  AreOrdered lists (arg x xs) = IsOrdered lists x × AreOrdered lists xs

strcmp-swap : (s t : List ℕ) → strcmp s t ≡ flip (strcmp t s)
unfolding strcmp
strcmp-swap [] [] = refl
strcmp-swap [] (d ∷ t) = refl
strcmp-swap (c ∷ s) [] = refl
strcmp-swap (c ∷ s) (d ∷ t) = ground (arith, strcmp-swap s t)

compare_int-swap : (i j : ℤ) → compare_int i j ≡ flip (compare_int j i)
unfolding compare_int
compare_int-swap i j = ground arith

flip-unless_zero :
    (a b c d : Sign) → a ≡ flip b → c ≡ flip d → unless_zero a c ≡ flip (unless_zero b d)
flip-unless_zero a minus c d h k = ground arith
flip-unless_zero a zero c d h k = ground arith
flip-unless_zero a plus c d h k = ground arith

flip-three_way :
    (n m : ℕ) (s r : Sign)
    → s ≡ flip r
    → three_way (ltb n m) (ltb m n) s ≡ flip (three_way (ltb m n) (ltb n m) r)
flip-three_way n m s r h = ground arith

module _ {D : Type 0} (less : D → D → Bool) (of_int : ℤ → D)
    (asym : (d e : D) → less d e ≡ true → less e d ≡ false) (lists : Bool) where
  compare_double-swap :
      (d e : D) → compare_double less of_int d e ≡ flip (compare_double less of_int e d)
  unfolding compare_double
  compare_double-swap d e = ground (arith, asym d e)

  mutual
    unfolding compare IsOrdered class by_class

    swap :
        (t u : Term D)
        → IsOrdered lists t
        → IsOrdered lists u
        → compare less of_int t u ≡ flip (compare less of_int u t)
    swap (var a s) (var b t) h k = ground arith
    swap (short i) (short j) h k = compare_int-swap i j
    swap (short i) (long j) h k = compare_int-swap i j
    swap (long i) (short j) h k = compare_int-swap i j
    swap (long i) (long j) h k = compare_int-swap i j
    swap (short i) (double e) h k = compare_double-swap _ e
    swap (long i) (double e) h k = compare_double-swap _ e
    swap (double d) (short j) h k = compare_double-swap d _
    swap (double d) (long j) h k = compare_double-swap d _
    swap (double d) (double e) h k = compare_double-swap d e
    swap (atom n) (atom m) h k = strcmp-swap n m
    swap (string s) (string t) h k = strcmp-swap s t
    swap (struct f xs) (struct g ys) h k =
        flip-three_way (arity xs) (arity ys) _ _
          (flip-unless_zero _ _ _ _ (swap f g h.1 k.1) (swap_args xs ys h.2 k.2))
    swap (cons a t) (struct g ys) h k = ground (arith, k.0 h.0)
    swap (struct f xs) (cons b u) h k = ground (arith, h.0 k.0)
    swap (cons a t) (cons b u) h k = flip-unless_zero _ _ _ _ (swap a b h.1 k.1) (swap t u h.2 k.2)
    swap (obj_var a s) (obj_var b t) h k = ground arith
    swap (quant q v b) (quant r w c) h k = flip-unless_zero _ _ _ _ (swap q r h k) (swap q r h k)
    swap sub_block u h k = absurd h
    swap t sub_block h k = absurd k
    swap t u h k = refl

    swap_args :
        (xs ys : Args D)
        → AreOrdered lists xs
        → AreOrdered lists ys
        → compare_args less of_int xs ys ≡ flip (compare_args less of_int ys xs)
    swap_args no_args no_args h k = refl
    swap_args no_args (arg y ys) h k = refl
    swap_args (arg x xs) no_args h k = refl
    swap_args (arg x xs) (arg y ys) h k =
        flip-unless_zero _ _ _ _ (swap x y h.0 k.0) (swap_args xs ys h.1 k.1)

  -- Swapping the arguments turns the answer of `compareTerms` round, for terms with no
  -- substitution left at a variable that are free of lists or free of structures with two
  -- arguments, if the comparison of doubles is asymmetric.
  pub compare-swap :
      (t u : Term D)
      → IsOrdered lists t
      → IsOrdered lists u
      → compare less of_int t u ≡ flip (compare less of_int u t)
  compare-swap t u h k = swap t u h k
