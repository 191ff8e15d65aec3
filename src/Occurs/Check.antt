-- ===== src/Occurs/Check.antt =====
-- `simpleOccursCheck` of src/occurs_check.cc. A node is what `variableDereference` gives, and a
-- variable is known by its address.
use qu_prolog.Base.{ℕ, Bool, true, false, ◌==◌, if◌then◌else◌}
use qu_prolog.Occurs.Truth.{Truth, unsure, no, yes, of_bool, disj, is_yes, is_not_no}

mutual
  -- `constant` is for the numbers, the atoms and the strings, of which nothing is read. A
  -- structure's first argument, of number 0, is its functor.
  pub data Term : Type 0 where
    constant : Term
    var : ℕ → Term
    obj_var : ℕ → Term
    struct : Terms → Term
    cons : Term → Term → Term
    quant : Term → Term → Term → Term
    subst_term : Term → Blocks → Term

  pub data Terms : Type 0 where
    no_terms : Terms
    then_term : Term → Terms → Terms

  -- A list of substitution blocks; of a block, the ranges.
  pub data Blocks : Type 0 where
    no_blocks : Blocks
    then_block : Terms → Blocks → Blocks

-- `b || v || q`
abbrev pub quant_flag : Truth → Truth → Truth → Truth
quant_flag b vs q = disj (disj b vs) q

-- The answer for a term with a substitution, from those for the term and for the blocks.
abbrev pub subst_flag : Truth → Bool → Truth
subst_flag flag blocks = if is_not_no flag then flag else if blocks then unsure else no

unfoldable mutual
  pub simple_occurs_check : ℕ → Term → Truth
  simple_occurs_check v constant = no
  simple_occurs_check v (var x) = of_bool (v == x)
  simple_occurs_check v (obj_var x) = no
  simple_occurs_check v (struct ts) = check_arguments v ts no
  simple_occurs_check v (cons h t) =
      let f = simple_occurs_check v h in
      let rest = check_list v t (disj no f) in if is_yes f then yes else rest
  simple_occurs_check v (quant q vs b) =
      quant_flag (simple_occurs_check v b) (simple_occurs_check v vs) (simple_occurs_check v q)
  simple_occurs_check v (subst_term t bs) = subst_flag (simple_occurs_check v t) (check_blocks v bs)

  -- The loop over the arguments, with the flag so far.
  pub check_arguments : ℕ → Terms → Truth → Truth
  check_arguments v no_terms flag = flag
  check_arguments v (then_term t ts) flag =
      let f = simple_occurs_check v t in
      let rest = check_arguments v ts (disj flag f) in if is_yes f then yes else rest

  -- The loop over a list from one of its tails on, with the flag so far. At a tail `t` that is no
  -- cons the answer is `simpleOccursCheck(t, var) || flag`.
  pub check_list : ℕ → Term → Truth → Truth
  check_list v (cons h t) flag =
      let f = simple_occurs_check v h in
      let rest = check_list v t (disj flag f) in if is_yes f then yes else rest
  check_list v constant flag = disj no flag
  check_list v (var x) flag = disj (of_bool (v == x)) flag
  check_list v (obj_var x) flag = disj no flag
  check_list v (struct ts) flag = disj (check_arguments v ts no) flag
  check_list v (quant q vs b) flag =
      disj
        (quant_flag (simple_occurs_check v b) (simple_occurs_check v vs) (simple_occurs_check v q))
        flag
  check_list v (subst_term t bs) flag =
      disj (subst_flag (simple_occurs_check v t) (check_blocks v bs)) flag

  -- Whether some block does not pass `simpleOccursCheckSub`.
  pub check_blocks : ℕ → Blocks → Bool
  check_blocks v no_blocks = false
  check_blocks v (then_block ts bs) =
      let rest = check_blocks v bs in if check_ranges v ts then true else rest

  -- `simpleOccursCheckSub`
  pub check_ranges : ℕ → Terms → Bool
  check_ranges v no_terms = false
  check_ranges v (then_term t ts) =
      let rest = check_ranges v ts in if is_not_no (simple_occurs_check v t) then true else rest
