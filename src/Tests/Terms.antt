-- ===== src/Tests/Terms.antt =====
-- Terms with integers for doubles (src/compare.cc).
use qu_prolog.Base.{ℕ, ◌≡◌, ◌≢◌, ◌↔◌, refl, true, false, [], ◌∷◌, ◌*◌, ◌^◌, arith}
use qu_prolog.Base.Int.{ℤ, pos, negsuc, ltb_ℤ, ◌+ℤ◌}
use qu_prolog.Compare.Term.{
  Term, var, short, atom, struct, cons, quant, no_args, arg, zero, class, by_class, strcmp, to_int,
  new_integer, nil_name, is_nil, arity,
}
use qu_prolog.Compare.Order.{
  compare, compare_int, compare_atom, compare_double, psi_term_at_equal, psi_term_less_than,
}
use qu_prolog.Compare.Swap.{flip, IsOrdered, compare-swap}
use qu_prolog.Compare.Laws.{
  IsExact, compare-eq_zero, psi_term_at_equal-quant, compare-struct_cons, compare-wraps,
}

abbrev of_int : ℤ → ℤ
of_int i = i

abbrev name : ℕ → Term ℤ
name c = atom (c ∷ [])

-- f(X, 3) and [a]
abbrev pair : Term ℤ
pair = struct (name b'f') (arg (var 200 (atom nil_name)) (arg (short (pos 3)) no_args))

abbrev one_item : Term ℤ
one_item = cons (name b'a') (atom nil_name)

asym : (d e : ℤ) → ltb_ℤ d e ≡ true → ltb_ℤ e d ≡ false
asym d e h = ground arith

ordering : Unit {0}
unfolding compare class by_class strcmp to_int is_nil arity compare_int compare_atom compare_double
    psi_term_less_than psi_term_at_equal IsOrdered IsExact
ordering = tt

pair-IsOrdered : IsOrdered false pair
unfolding ordering
pair-IsOrdered = ((λ e. cc), tt, (refl, (tt, tt)))

pair-IsExact : IsExact pair
unfolding ordering
pair-IsExact = (tt, (tt, (refl, tt)))

compare-swap_example :
    compare ltb_ℤ of_int pair (name b'f') ≡ flip (compare ltb_ℤ of_int (name b'f') pair)
unfolding ordering
compare-swap_example = compare-swap ltb_ℤ of_int asym false pair (name b'f') pair-IsOrdered tt

compare-eq_zero_example : (compare ltb_ℤ of_int pair pair ≡ zero) ↔ (pair ≡ pair)
compare-eq_zero_example =
    compare-eq_zero ltb_ℤ of_int false asym pair pair pair-IsOrdered pair-IsOrdered pair-IsExact
      pair-IsExact

psi_term_at_equal-quant_example :
    psi_term_at_equal ltb_ℤ of_int
      (quant (name b'q') (atom nil_name) (name b'a'))
      (quant (name b'q') (atom nil_name) (name b'b'))
    ≡ true
unfolding ordering
psi_term_at_equal-quant_example =
    psi_term_at_equal-quant ltb_ℤ of_int asym false (name b'q') (atom nil_name) (name b'a')
      (atom nil_name) (name b'b') tt

compare-struct_cons_example :
    (compare ltb_ℤ of_int pair one_item ≡ compare ltb_ℤ of_int one_item pair)
    × (compare ltb_ℤ of_int one_item pair ≢ zero)
unfolding ordering
compare-struct_cons_example =
    compare-struct_cons ltb_ℤ of_int (b'f' ∷ []) (name b'a') (atom nil_name)
      (arg (var 200 (atom nil_name)) (arg (short (pos 3)) no_args)) refl (λ e. cc)

compare-wraps_example :
    compare ltb_ℤ of_int (new_integer (negsuc 4)) (new_integer (negsuc 4 +ℤ pos (3 * 2 ^ 32)))
    ≡ zero
compare-wraps_example = compare-wraps ltb_ℤ of_int (negsuc 4) 3

-- Each of the two is before the other.
both_before :
    (psi_term_less_than ltb_ℤ of_int pair one_item ≡ true)
    × (psi_term_less_than ltb_ℤ of_int one_item pair ≡ true)
unfolding ordering
both_before = (refl, refl)
