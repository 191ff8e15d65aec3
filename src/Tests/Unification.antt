-- ===== src/Tests/Unification.antt =====
-- Unification of two lists with variables in memory (src/unify.cc).
use qu_prolog.Base.{ℕ, ◌≤◌, ◌≡◌, ◌≢◌, ◌↔◌, refl, true, false, [], ◌∷◌, arith}
use qu_prolog.Machine.{backtrack_to, save_heap_and_trails}
use qu_prolog.Machine.Backtrack.{Restores}
use qu_prolog.Unify.{Outcome, unify}
use qu_prolog.Unify.Solution.{Layout, Solves}
use qu_prolog.Unify.Decision.{Decides, unify-Decides}
use qu_prolog.Unify.Unifier.{unify-Solves, unify-fails}
use qu_prolog.Unify.Success.{Succeeds, unify-Succeeds, unify-Layout, backtrack_to-unify}
use qu_prolog.Tests.Lists.{
  thread, all_code, start, unified, unify_lists, unify_occurs, object, is_cell,
}
use qu_prolog.Tests.Solutions.{
  start-Layout, start-Chained, unifier, apart, solves, generic, start-State,
}

unify-Succeeds_example :
    (o : Outcome) × (enough : ℕ) × ((f : ℕ) → enough ≤ f → unify true f start 14 17 ≡ o)
    × Succeeds object is_cell start unifier o
unfolding all_code
unify-Succeeds_example =
    unify-Succeeds object is_cell true start 14 17 start-Layout refl refl start-Chained unifier
      (solves unifier refl refl refl refl) refl

unify-Solves_example :
    Solves object unifier unified.store.word
    ↔ (Solves object unifier start.store.word × (unifier 14 ≡ unifier 17))
unify-Solves_example =
    unify-Solves object is_cell true 5 start unified 14 17 start-Layout refl refl unify_lists
      unifier

unify-fails_example : apart 12 ≢ apart 14
unfolding all_code
unify-fails_example =
    unify-fails object is_cell true 5 start start 12 14 start-Layout refl refl unify_occurs apart
      (solves apart refl refl refl refl)

unify-Layout_example :
    Layout object is_cell unified
    × ((x : ℕ) → is_cell x ≡ false → unified.store.word x ≡ start.store.word x)
unify-Layout_example =
    unify-Layout object is_cell true 5 start true unified 14 17 start-Layout refl refl unify_lists

backtrack_to-unify_example : Restores thread (backtrack_to (save_heap_and_trails thread).0 unified)
unfolding all_code
backtrack_to-unify_example =
    backtrack_to-unify object is_cell true 5 thread true unified 14 17 (omega arith) start-Layout
      refl refl unify_lists

unify-Decides_example :
    (o : Outcome) × (enough : ℕ) × ((f : ℕ) → enough ≤ f → unify true f start 14 17 ≡ o)
    × Decides object is_cell start 14 17 o
unify-Decides_example =
    unify-Decides object is_cell (10 ∷ 12 ∷ []) start 14 17 generic start-State refl refl
