-- ===== src/Tests/Trails.antt =====
-- A thread with one variable and a choice point (src/trail.h, src/bind.h, src/thread_qp.h).
use qu_prolog.Base.{
  ℕ, ◌≡◌, refl, Bool, true, false, List, [], ◌∷◌, arith, update, ◌==◌, if◌then◌else◌,
}
use qu_prolog.Trail.Entry.{
  acquire, release, Store, Entry, updatable_object, pred_ref, size, backtrack,
}
use qu_prolog.Trail.Other
use qu_prolog.Trail.Other.{OtherTrail}
use qu_prolog.Trail.Binding
use qu_prolog.Trail.Binding.{BindingTrail}
use qu_prolog.Machine.{
  push_binding, push_other, then_write, must_trail, is_old, write, Machine, bind_and_trail,
  hold_predicate, update_and_trail_object, backtrack_to, save_heap_and_trails, tidy_trails,
}
use qu_prolog.Machine.Steps.{Run, Step, new_choice}
use qu_prolog.Machine.Backtrack.{Restores, backtrack_to-Restores}
use qu_prolog.Machine.Cut.{Same, choice_at, backtrack_to-tidy_trails}

-- A variable at 100, of which the word 101 is the reference.
abbrev store : Store
store = record {
  word = λ a. if a == 101 then 100 else 7;
  predicate = λ p. record { refcount = 0; dirty = false; collections = 0 };
  cleanup = λ t. 0;
}

abbrev is_cell : ℕ → Bool
is_cell a = a == 101

abbrev bindings : List ℕ → ℕ → BindingTrail
bindings vs top = record { low = 2000; high = 3000; top = top; low_water = top; entries = vs }

abbrev others : List Entry → ℕ → OtherTrail
others es top = record { low = 4000; high = 5000; top = top; low_water = top; entries = es }

abbrev thread : Machine
thread = record {
  base = 100;
  next = 110;
  top = 1000;
  highwater = 110;
  saved_top = 100;
  store = store;
  binding_trail = bindings [] 3000;
  other_trail = others [] 5000;
  quick_tidy_check = true;
  current = record { heap_top = 100; binding_trail_top = 3000; other_trail_top = 5000 };
}

steps : Unit {0}
unfolding save_heap_and_trails bind_and_trail hold_predicate update_and_trail_object backtrack_to
    tidy_trails push_binding push_other then_write must_trail is_old write acquire release
    Binding.push Other.push size Binding.backtrack_to Other.backtrack_to Binding.backtrack_loop
    Other.backtrack_loop Binding.reset backtrack
steps = tt

abbrev bound : Machine
unfolding steps
bound = record (new_choice thread) {
  binding_trail = bindings (100 ∷ []) 2999;
  store = record store { word = update store.word 101 555 };
}

abbrev held : Machine
unfolding steps
held = record bound {
  other_trail = others (pred_ref 7 ∷ []) 4996;
  store =
      let s : Store = bound.store in
      record s {
        predicate =
            update store.predicate 7 (record { refcount = 1; dirty = false; collections = 0 });
      };
}

abbrev changed : Machine
unfolding steps
changed = record held {
  other_trail = others (updatable_object 105 7 0 ∷ pred_ref 7 ∷ []) 4988;
  store = let s : Store = held.store in record s { word = update s.word 105 9 };
}

run : Run is_cell (new_choice thread) changed
unfolding steps
run =
    Run.next
      (Run.next (Run.next Run.here (Step.bind 100 555 (omega arith) refl refl refl))
        (Step.hold 7 refl))
      (Step.update_object 105 9 0 (omega arith) refl refl)

backtrack_to-Restores_example :
    Restores thread (backtrack_to (save_heap_and_trails thread).0 changed)
backtrack_to-Restores_example = backtrack_to-Restores is_cell thread changed (omega arith) run

backtrack_to-tidy_trails_example :
    let c = choice_at changed 110 (100 ∷ []) (updatable_object 105 7 0 ∷ pred_ref 7 ∷ []) in
    Same 110 (backtrack_to c (tidy_trails c changed)) (backtrack_to c changed)
unfolding steps
backtrack_to-tidy_trails_example =
    backtrack_to-tidy_trails changed 110 110 (100 ∷ []) [] []
      (updatable_object 105 7 0 ∷ pred_ref 7 ∷ []) [] [] refl refl

-- After the backtrack the variable is unbound and the word has its old value.
restored_words :
    let m = backtrack_to (save_heap_and_trails thread).0 changed in
    (m.store.word 101 ≡ 100) × (m.store.word 105 ≡ 7)
unfolding steps
restored_words = (refl, refl)
