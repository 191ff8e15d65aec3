-- ===== src/Machine.antt =====
-- The heap and the trails of a thread: src/heap_qp.h (the heap's tops), src/bind.h (writes that
-- are trailed) and src/thread_qp.h (saving, restoring and tidying the state of a choice point).
pub mod Invariant
pub mod Steps
mod Writes
mod Recovery
pub mod Backtrack
pub mod Cut
use qu_prolog.Base.{
  ℕ, ◌+◌, Bool, true, false, ◌&&◌, ◌||◌, Option, none, some, ltb, leb, if◌then◌else◌, update, not,
}
use qu_prolog.Trail.Entry.{Store, Entry, updatable_object, updatable_tag, pred_ref, tidy, acquire}
use qu_prolog.Trail.Other.{OtherTrail, entries_until}
use qu_prolog.Trail.Other
use qu_prolog.Trail.Binding.{BindingTrail}
use qu_prolog.Trail.Binding

-- `HeapAndTrailsChoice`
pub record HeapAndTrails : Type 0 where
  pub heap_top : ℕ
  pub binding_trail_top : ℕ
  pub other_trail_top : ℕ

-- `base`, `next`, `top` and `saved_top` are the heap's; `current` is the saved state of the
-- current choice point.
pub record Machine : Type 0 where
  pub base : ℕ
  pub next : ℕ
  pub top : ℕ
  pub highwater : ℕ
  pub saved_top : ℕ
  pub store : Store
  pub binding_trail : BindingTrail
  pub other_trail : OtherTrail
  pub quick_tidy_check : Bool
  pub current : HeapAndTrails

-- The address of the new block; `none` is the exit when the heap is full.
unfoldable pub allocate_heap_space : ℕ → Machine → Option (ℕ × Machine)
allocate_heap_space n m =
    let next = m.next + n in
    if ltb m.top next
    then none
    else some (
      m.next,
      record m { next = next; highwater = if ltb m.highwater next then next else m.highwater },
    )

-- `*(addr) = value`
unfoldable pub write : ℕ → ℕ → Machine → Machine
write addr value m =
    let s = m.store in record m { store = record s { word = update s.word addr value } }

unfoldable pub push_binding : ℕ → Machine → Option Machine
push_binding var m = elim (Binding.push var m.binding_trail) [
  | none ↦ none
  | some t ↦ some (record m { binding_trail = t })
]

unfoldable pub push_other : Entry → Machine → Option Machine
push_other e m = elim (Other.push e m.other_trail) [
  | none ↦ none
  | some t ↦ some (record m { other_trail = t })
]

-- Write, once the trailing that may fail is done.
unfoldable pub then_write : ℕ → ℕ → Option Machine → Option Machine
then_write addr value none = none
then_write addr value (some m) = some (write addr value m)

unfoldable pub bind_and_trail : ℕ → ℕ → Machine → Option Machine
unfolding then_write push_binding write
bind_and_trail var value m =
    then_write (var + 1) value
      (if ltb var m.saved_top && leb m.base var then push_binding var m else some m)

unfoldable pub bind_var_var : ℕ → ℕ → Machine → Option Machine
unfolding then_write push_binding write
bind_var_var var1 var2 m =
    if leb m.saved_top var1
    then some (write (var1 + 1) var2 m)
    else if leb m.saved_top var2
    then some (write (var2 + 1) var1 m)
    else then_write (var1 + 1) var2 (push_binding var1 m)

-- Whether a word at `ptr` is outside what was allocated since the last choice point.
unfoldable pub is_old : ℕ → Machine → Bool
is_old ptr m = ltb ptr m.saved_top || leb m.next ptr

-- The test of the code: by `is_old` when `quick_tidy_check` is set, and else by `tidy` of the new
-- entry against the entries since the current choice point.
unfoldable pub must_trail : Entry → ℕ → Machine → Bool
unfolding is_old
must_trail e ptr m =
    if m.quick_tidy_check
    then is_old ptr m
    else not
        (tidy e (entries_until m.other_trail.top m.current.other_trail_top m.other_trail.entries)
          m.current.heap_top m.next m.store).0

unfoldable pub update_and_trail_object : ℕ → ℕ → ℕ → Machine → Option Machine
unfolding must_trail push_other then_write write
update_and_trail_object ptr value offset m =
    let addr = ptr + offset in
    then_write addr value (
      if must_trail (updatable_object ptr value offset) ptr m
      then push_other (updatable_object ptr (m.store.word addr) offset) m
      else some m)

-- The same code without the assertion on the old value.
unfoldable pub update_and_trail_ip : ℕ → ℕ → ℕ → Machine → Option Machine
unfolding must_trail push_other then_write write
update_and_trail_ip ptr value offset m =
    let addr = ptr + offset in
    then_write addr value (
      if must_trail (updatable_object ptr value offset) ptr m
      then push_other (updatable_object ptr (m.store.word addr) offset) m
      else some m)

unfoldable pub trail_tag : ℕ → Machine → Option Machine
unfolding must_trail push_other
trail_tag o m =
    let e = updatable_tag o (m.store.word o) in if must_trail e o m then push_other e m else some m

-- A dynamic predicate whose clauses a choice point goes through is held until the trail is undone.
unfoldable pub hold_predicate : ℕ → Machine → Option Machine
hold_predicate p m =
    let t = Other.push (pred_ref p) m.other_trail in
    elim t [
      | none ↦ none
      | some t ↦
          let s = m.store in
          some (record m {
            other_trail = t;
            store = record s { predicate = update s.predicate p (acquire (s.predicate p)) };
          })
    ]

-- The state for a new choice point, and the machine with the heap's saved top raised to its top.
unfoldable pub save_heap_and_trails : Machine → HeapAndTrails × Machine
save_heap_and_trails m = (
  record {
    heap_top = m.next;
    binding_trail_top = m.binding_trail.top;
    other_trail_top = m.other_trail.top;
  },
  record m { saved_top = m.next },
)

unfoldable pub backtrack_to : HeapAndTrails → Machine → Machine
backtrack_to c m =
    let (bindings, w) = Binding.backtrack_to c.binding_trail_top m.binding_trail m.store.word in
    let s = m.store in
    let (others, s') = Other.backtrack_to c.other_trail_top m.other_trail (record s { word = w }) in
    record m {
      saved_top = c.heap_top;
      next = c.heap_top;
      binding_trail = bindings;
      other_trail = others;
      store = s';
    }

unfoldable pub tidy_trails : HeapAndTrails → Machine → Machine
tidy_trails c m =
    let bindings = Binding.tidy_up_trail c.binding_trail_top c.heap_top m.binding_trail in
    let (others, s') =
      Other.tidy_up_trail c.other_trail_top c.heap_top m.next m.other_trail m.store in
    record m { binding_trail = bindings; other_trail = others; store = s'; saved_top = c.heap_top }
