-- ===== src/Machine/Backtrack.antt =====
-- `backtrackTo` of src/thread_qp.h undoes all that ran since a choice point.
use qu_prolog.Base.{ℕ, ◌-◌, ◌≤◌, ◌<◌, ◌≡◌, refl, ap, ◌∙◌, Bool, List, [], ◌∷◌, arith}
use qu_prolog.Trail.Entry.{
  Store, Entry, updatable_object, updatable_tag, pred_ref, cleanup_entry, backtrack, release,
}
use qu_prolog.Trail.Other.{total_size}
use qu_prolog.Trail.Undo.{undo}
use qu_prolog.Trail.Tidy.{undo-word, undo_word}
use qu_prolog.Trail.Cut
use qu_prolog.Trail.Reset
use qu_prolog.Trail.Reset.{reset_all}
use qu_prolog.Machine.{Machine, save_heap_and_trails, backtrack_to}
use qu_prolog.Machine.Invariant.{Recovers, held}
use qu_prolog.Machine.Recovery.{Recoverable, Run-Recoverable}
use qu_prolog.Machine.Steps.{Run, new_choice}

-- Undoing releases each predicate as often as it is held.
undo-refcount :
    (es : List Entry) (s : Store) (p : ℕ)
    → ((undo es s).predicate p).refcount ≡ (s.predicate p).refcount - held p es
unfolding undo backtrack release held
undo-refcount [] s p = omega arith
undo-refcount (updatable_object a o i ∷ es) s p = undo-refcount es _ p ∙ ground arith
undo-refcount (updatable_tag a o ∷ es) s p = undo-refcount es _ p ∙ ground arith
undo-refcount (pred_ref q ∷ es) s p = undo-refcount es _ p ∙ ground arith
undo-refcount (cleanup_entry c t ∷ es) s p = undo-refcount es _ p

-- What a choice point restores of the machine `m`, in the machine `b`.
pub record Restores (m b : Machine) : Type 0 where
  pub words : (x : ℕ) → x < m.next → b.store.word x ≡ m.store.word x
  pub refcounts : (p : ℕ) → (b.store.predicate p).refcount ≡ (m.store.predicate p).refcount
  pub next : b.next ≡ m.next
  pub saved_top : b.saved_top ≡ m.next
  pub bindings : b.binding_trail.entries ≡ m.binding_trail.entries
  pub binding_top : b.binding_trail.top ≡ m.binding_trail.top
  pub others : b.other_trail.entries ≡ m.other_trail.entries
  pub other_top : b.other_trail.top ≡ m.other_trail.top

module _ (is_cell : ℕ → Bool) (m n : Machine) where
  started :
      m.saved_top ≤ m.next
      → Recovers is_cell
          (save_heap_and_trails m).0
          m.store.word
          (λ p. (m.store.predicate p).refcount)
          m.binding_trail.entries
          m.other_trail.entries
          []
          []
          (new_choice m)
  unfolding save_heap_and_trails total_size reset_all undo_word held
  started h = record {
    binding_entries = refl;
    binding_top = omega arith;
    other_entries = refl;
    other_top = omega arith;
    saved = omega arith;
    allocated = omega arith;
    current_saved = omega arith;
    current_other = omega arith;
    cells = tt;
    words = λ x hx. refl;
    refcounts = λ p. omega arith;
  }

  restored :
      (vs : List ℕ) (es : List Entry)
      → Recovers is_cell
          (save_heap_and_trails m).0
          m.store.word
          (λ p. (m.store.predicate p).refcount)
          m.binding_trail.entries
          m.other_trail.entries
          vs
          es
          n
      → Restores m (backtrack_to (save_heap_and_trails m).0 n)
  unfolding save_heap_and_trails backtrack_to
  restored vs es i =
      let w = reset_all vs n.store.word in
      let s : Store = let s = n.store in record s { word = w } in
      rw
        (
          Reset.backtrack_to_lem n.binding_trail m.binding_trail.top vs m.binding_trail.entries
              n.store.word i.binding_entries i.binding_top,
          Cut.backtrack_to_lem n.other_trail m.other_trail.top es m.other_trail.entries s
              i.other_entries i.other_top,
        )
        (record {
          words = λ x hx. ap (λ (f : ℕ → ℕ). f x) (undo-word es s) ∙ i.words x hx;
          refcounts = λ p. omega (arith, undo-refcount es s p, i.refcounts p);
          next = refl;
          saved_top = refl;
          bindings = refl;
          binding_top = refl;
          others = refl;
          other_top = refl;
        })

  -- After a choice point is made on the machine `m`, whose saved
  -- top is not above its top, let any sequence of steps run: blocks of the
  -- heap are taken and filled, unbound variables are bound, other words are updated by the
  -- functions that trail them, predicates are held, further choice points are made. Backtracking
  -- to the choice point then gives back every word below its heap top, every reference count, both
  -- trails and the heap's tops.
  pub backtrack_to-Restores :
      m.saved_top ≤ m.next
      → Run is_cell (new_choice m) n
      → Restores m (backtrack_to (save_heap_and_trails m).0 n)
  unfolding Recoverable
  backtrack_to-Restores h run =
      let (vs, es, i) =
        Run-Recoverable is_cell (save_heap_and_trails m).0 m.store.word
          (λ p. (m.store.predicate p).refcount) m.binding_trail.entries m.other_trail.entries run
          ([], [], started h) in
      restored vs es i
