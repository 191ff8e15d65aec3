-- ===== src/Tests/Clauses.antt =====
-- Examples: dynamic predicates.
use qu_prolog.Base.{ℕ, ◌≡◌, refl, true, false, List, [], ◌∷◌, arith}
use qu_prolog.Dynamic.Key.{var, atom, subst_term, make_entry}
use qu_prolog.Dynamic.Chain.{Block, is_alive}
use qu_prolog.Dynamic.Predicate.{
  DynamicPredicate, new_predicate, psi_assert, psi_retract, acquire, release, look_up_clause_chain,
}
use qu_prolog.Dynamic.Views.{view, answers, answers-view}
use qu_prolog.Dynamic.Represents.{blocks_of}
use qu_prolog.Dynamic.Upkeep.{accepts}
use qu_prolog.Dynamic.Runs.{
  Step, Run, Consistent, Run-Consistent, new_predicate-Consistent, view-Run,
}
use qu_prolog.Dynamic.Database.{
  Operation, assert, retract, hold, let_go, perform, meaning, view-perform,
}
use qu_prolog.Dynamic.Defects.{view-psi_assert_missed}

abbrev nothing : ℕ → Block
nothing b = record { created = 0; deleted = 0; code = 0 }

abbrev empty : DynamicPredicate
empty = new_predicate nothing 0 2 0

-- p(a), p(b), p(X) and p(a) again; p(b) is retracted and collected.
abbrev history : List Operation
history =
    assert (atom 100) 1 false
    ∷ assert (atom 200) 2 false
    ∷ assert var 3 true
    ∷ hold
    ∷ retract 1
    ∷ let_go
    ∷ assert (atom 100) 4 false
    ∷ []

view-perform_example :
    view (atom 100) (perform history empty).stamp (perform history empty)
    ≡ blocks_of (accepts 2 (make_entry (atom 100))) (meaning history 0 [])
view-perform_example = view-perform history (atom 100) nothing 0 2 0 (omega arith)

seen_a : view (atom 100) (perform history empty).stamp (perform history empty) ≡ 2 ∷ 0 ∷ 3 ∷ []
unfolding perform view look_up_clause_chain psi_assert release psi_retract new_predicate is_alive
    acquire
seen_a = refl

seen_b : view (atom 200) (perform history empty).stamp (perform history empty) ≡ 2 ∷ []
unfolding perform view look_up_clause_chain psi_assert release psi_retract new_predicate is_alive
    acquire
seen_b = refl

answers-view_example :
    answers (atom 100) 6 (perform history empty) ≡ view (atom 100) 6 (perform history empty)
answers-view_example = answers-view (atom 100) 6 (perform history empty)

answers_a : answers (atom 100) 6 (perform history empty) ≡ 2 ∷ 0 ∷ 3 ∷ []
unfolding perform answers look_up_clause_chain psi_assert release psi_retract new_predicate is_alive
    acquire
answers_a = refl

-- A call begins when one clause is there; another is asserted, and the first is retracted.
abbrev called : DynamicPredicate
called = acquire (psi_assert (atom 100) 1 false empty)

called-Consistent : Consistent called
unfolding new_predicate
called-Consistent =
    Run-Consistent
      (Run.next (Run.next Run.here (Step.assert (atom 100) 1 false (omega arith))) Step.hold)
      (new_predicate-Consistent nothing 0 2 0)

abbrev later : DynamicPredicate
later = psi_retract 0 (psi_assert (atom 100) 2 true called)

called-later : Run called later
unfolding acquire new_predicate psi_assert psi_retract
called-later =
    Run.next (Run.next Run.here (Step.assert (atom 100) 2 true (omega arith)))
      (Step.retract 0 refl (omega arith))

view-Run_example : view (atom 100) 2 later ≡ view (atom 100) 2 called
view-Run_example =
    view-Run (atom 100) 2 called-later called-Consistent
      (unfold acquire psi_assert new_predicate in omega arith)

seen_later : (view (atom 100) 2 later ≡ 0 ∷ []) × (view (atom 100) 4 later ≡ 1 ∷ [])
unfolding view acquire new_predicate psi_assert psi_retract look_up_clause_chain is_alive
seen_later = (refl, refl)

view-psi_assert_missed_example :
    let p = psi_assert (subst_term 900 (atom 100)) 1 false empty in
    (view (subst_term 900 (atom 100)) p.stamp p ≡ 0 ∷ []) × (view (atom 100) p.stamp p ≡ [])
view-psi_assert_missed_example = view-psi_assert_missed 900 (atom 100) 1 false nothing 0 2 0 tt refl
