-- ===== src/Occurs/Laws.antt =====
-- What `simpleOccursCheck` of src/occurs_check.cc finds.
use qu_prolog.Base.{ℕ, ◌≡◌, refl, Bool, true, false, ◌||◌, arith, ◌==◌, if◌then◌else◌, ◌∙◌}
use qu_prolog.Occurs.Truth.{Truth, unsure, no, yes, of_bool, disj, is_yes, is_not_no}
use qu_prolog.Occurs.Check.{
  Term, Terms, Blocks, constant, var, obj_var, struct, cons, quant, subst_term, no_terms, then_term,
  no_blocks, then_block, simple_occurs_check, check_arguments, check_list, check_blocks,
  check_ranges,
}

-- Whether the variable `v` occurs in a term, with no look at the substitutions.
unfoldable mutual
  pub occurs_free : ℕ → Term → Bool
  occurs_free v constant = false
  occurs_free v (var x) = v == x
  occurs_free v (obj_var x) = false
  occurs_free v (struct ts) = occurs_free_in v ts
  occurs_free v (cons h t) = occurs_free v h || occurs_free v t
  occurs_free v (quant q vs b) = occurs_free v q || occurs_free v vs || occurs_free v b
  occurs_free v (subst_term t bs) = occurs_free v t

  pub occurs_free_in : ℕ → Terms → Bool
  occurs_free_in v no_terms = false
  occurs_free_in v (then_term t ts) = occurs_free v t || occurs_free_in v ts

-- Whether it occurs anywhere, in the ranges of substitutions too.
unfoldable mutual
  pub occurs : ℕ → Term → Bool
  occurs v constant = false
  occurs v (var x) = v == x
  occurs v (obj_var x) = false
  occurs v (struct ts) = occurs_in v ts
  occurs v (cons h t) = occurs v h || occurs v t
  occurs v (quant q vs b) = occurs v q || occurs v vs || occurs v b
  occurs v (subst_term t bs) = occurs v t || occurs_in_blocks v bs

  pub occurs_in : ℕ → Terms → Bool
  occurs_in v no_terms = false
  occurs_in v (then_term t ts) = occurs v t || occurs_in v ts

  pub occurs_in_blocks : ℕ → Blocks → Bool
  occurs_in_blocks v no_blocks = false
  occurs_in_blocks v (then_block ts bs) = occurs_in v ts || occurs_in_blocks v bs

-- The answer for a variable that occurs, or not, outside the substitutions and anywhere.
unfoldable pub answer : Bool → Bool → Truth
answer true anywhere = yes
answer false true = unsure
answer false false = no

disj-answer : (a b c d : Bool) → disj (answer a b) (answer c d) ≡ answer (a || c) (b || d)
unfolding disj answer
disj-answer a b c d = ground arith

answer-or_comm : (a b c d : Bool) → answer (a || c) (b || d) ≡ answer (c || a) (d || b)
unfolding answer
answer-or_comm a b c d = ground arith

-- The early return changes no answer.
early_return :
    (f r x flag : Truth)
    → r ≡ disj (disj flag f) x
    → (if is_yes f then yes else r) ≡ disj flag (disj f x)
unfolding disj is_yes
early_return f r x flag h = ground arith

mutual
  unfolding occurs_free occurs_free_in occurs occurs_in

  occurs_of_free : (v : ℕ) (t : Term) → occurs_free v t ≡ true → occurs v t ≡ true
  occurs_of_free v constant h = h
  occurs_of_free v (var x) h = h
  occurs_of_free v (obj_var x) h = h
  occurs_of_free v (struct ts) h = occurs_in_of_free v ts h
  occurs_of_free v (cons l t) h = ground (arith, occurs_of_free v l, occurs_of_free v t)
  occurs_of_free v (quant q vs b) h =
      ground (arith, occurs_of_free v q, occurs_of_free v vs, occurs_of_free v b)
  occurs_of_free v (subst_term t bs) h = ground (arith, occurs_of_free v t)

  occurs_in_of_free : (v : ℕ) (ts : Terms) → occurs_free_in v ts ≡ true → occurs_in v ts ≡ true
  occurs_in_of_free v no_terms h = h
  occurs_in_of_free v (then_term t ts) h =
      ground (arith, occurs_of_free v t, occurs_in_of_free v ts)

mutual
  unfolding simple_occurs_check check_arguments check_list check_blocks check_ranges occurs_free
      occurs_free_in occurs occurs_in occurs_in_blocks answer disj of_bool is_not_no

  check_lem : (v : ℕ) (t : Term) → simple_occurs_check v t ≡ answer (occurs_free v t) (occurs v t)
  check_lem v constant = refl
  check_lem v (var x) = ground arith
  check_lem v (obj_var x) = refl
  check_lem v (struct ts) = check_arguments_lem v ts no ∙ ground arith
  check_lem v (cons h t) =
      early_return _ _ _ no (check_list_lem v t _) ∙ rw (check_lem v h) (ground arith)
  check_lem v (quant q vs b) = rw (check_lem v q, check_lem v vs, check_lem v b) (ground arith)
  check_lem v (subst_term t bs) = rw (check_lem v t, check_blocks_lem v bs) (ground arith)

  check_arguments_lem :
      (v : ℕ) (ts : Terms) (flag : Truth)
      → check_arguments v ts flag ≡ disj flag (answer (occurs_free_in v ts) (occurs_in v ts))
  check_arguments_lem v no_terms flag = ground arith
  check_arguments_lem v (then_term t ts) flag =
      early_return _ _ _ flag (check_arguments_lem v ts _)
      ∙ rw
          (
            check_lem v t,
            disj-answer (occurs_free v t) (occurs v t) (occurs_free_in v ts) (occurs_in v ts),
          )
          refl

  check_list_lem :
      (v : ℕ) (t : Term) (flag : Truth)
      → check_list v t flag ≡ disj flag (answer (occurs_free v t) (occurs v t))
  check_list_lem v constant flag = ground arith
  check_list_lem v (var x) flag = ground arith
  check_list_lem v (obj_var x) flag = ground arith
  check_list_lem v (struct ts) flag = rw (check_arguments_lem v ts no) (ground arith)
  check_list_lem v (cons h t) flag =
      early_return _ _ _ flag (check_list_lem v t _)
      ∙ rw
          (check_lem v h, disj-answer (occurs_free v h) (occurs v h) (occurs_free v t) (occurs v t))
          refl
  check_list_lem v (quant q vs b) flag =
      rw (check_lem v q, check_lem v vs, check_lem v b) (ground arith)
  check_list_lem v (subst_term t bs) flag = rw (check_lem v t, check_blocks_lem v bs) (ground arith)

  check_blocks_lem : (v : ℕ) (bs : Blocks) → check_blocks v bs ≡ occurs_in_blocks v bs
  check_blocks_lem v no_blocks = refl
  check_blocks_lem v (then_block ts bs) =
      rw (check_ranges_lem v ts, check_blocks_lem v bs) (ground arith)

  check_ranges_lem : (v : ℕ) (ts : Terms) → check_ranges v ts ≡ occurs_in v ts
  check_ranges_lem v no_terms = refl
  check_ranges_lem v (then_term t ts) =
      rw (check_lem v t, check_ranges_lem v ts) (ground (arith, occurs_of_free v t))

-- For every term and variable: the check answers yes if the variable occurs outside the ranges of
-- substitutions, "unsure" if it occurs only in such ranges, and no if it does not occur.
pub simple_occurs_check-answer :
    (v : ℕ) (t : Term) → simple_occurs_check v t ≡ answer (occurs_free v t) (occurs v t)
simple_occurs_check-answer = check_lem
