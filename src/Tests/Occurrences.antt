-- ===== src/Tests/Occurrences.antt =====
-- The occurs check (src/occurs_check.cc) on small terms.
use qu_prolog.Base.{◌≡◌, ◌↔◌, refl, Bool, ◌&&◌, not}
use qu_prolog.Occurs.Truth.{unsure, yes, of_bool, conj, disj, negation, is_yes, is_not_no}
use qu_prolog.Occurs.Check.{
  Term, constant, var, cons, struct, subst_term, no_terms, then_term, no_blocks, then_block,
  simple_occurs_check, check_arguments, check_list, check_blocks, check_ranges,
}
use qu_prolog.Occurs.Logic.{Exact, Stands, operators-Exact}
use qu_prolog.Occurs.Laws.{answer, occurs_free, occurs, simple_occurs_check-answer}

-- [X/y] z, with the variables X at 8 and z at 16, in a list
abbrev substituted : Term
substituted =
    cons (subst_term (var 16) (then_block (then_term (var 8) no_terms) no_blocks)) constant

in_range : simple_occurs_check 8 substituted ≡ unsure
unfolding simple_occurs_check check_list check_blocks check_ranges of_bool disj is_yes is_not_no
in_range = refl

outside :
    simple_occurs_check 16 (struct (then_term constant (then_term substituted no_terms))) ≡ yes
unfolding simple_occurs_check check_list check_arguments check_blocks check_ranges of_bool disj
    is_yes is_not_no
outside = refl

simple_occurs_check-answer_example :
    simple_occurs_check 8 substituted ≡ answer (occurs_free 8 substituted) (occurs 8 substituted)
simple_occurs_check-answer_example = simple_occurs_check-answer 8 substituted

operators-Exact_example :
    Exact (λ x y. x && y) unsure yes (conj unsure yes)
    × ((z : Bool) → Stands (negation unsure) z ↔ Stands unsure (not z))
    × (disj unsure yes ≡ negation (conj (negation unsure) (negation yes)))
operators-Exact_example = operators-Exact unsure yes
