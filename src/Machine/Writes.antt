-- ===== src/Machine/Writes.antt =====
-- Each kind of write to memory, and each push on a trail, keeps the saved memory recoverable
-- (src/bind.h, src/trail.h).
use qu_prolog.Base.{
  ℕ, ◌+◌, ◌≤◌, ◌<◌, ◌≡◌, ◌≢◌, ◌∙◌, Bool, true, false, List, ◌∷◌, some, arith, ◌==◌, update,
}
use qu_prolog.Trail.Entry.{Entry, updatable_object, updatable_tag, pred_ref, size, occurs, acquire}
use qu_prolog.Trail.Other.{OtherTrail, total_size, entries_until}
use qu_prolog.Trail.Other
use qu_prolog.Trail.Binding
use qu_prolog.Trail.Binding.{BindingTrail}
use qu_prolog.Trail.Tidy.{undo_word, undo_word_local, undo_word-occurs_object, undo_word-occurs_tag}
use qu_prolog.Trail.Reset.{reset_all, reset_all_local}
use qu_prolog.Machine.{Machine, HeapAndTrails, write}
use qu_prolog.Machine.Invariant.{Recovers, held, reset_all_other, reset_all-bind}

module _ {is_cell : ℕ → Bool} {c : HeapAndTrails} {w r : ℕ → ℕ} {us : List ℕ} {ds : List Entry}
    {vs : List ℕ} {es : List Entry} {m : Machine} (i : Recovers is_cell c w r us ds vs es m) where
  -- A word that the trails put back is as before if it was not changed.
  unchanged :
      (u : ℕ → ℕ) (y : ℕ)
      → y < c.heap_top
      → u y ≡ m.store.word y
      → undo_word es (reset_all vs u) y ≡ w y
  unchanged u y h e = undo_word_local es _ _ y (reset_all_local vs u m.store.word y e) ∙ i.words y h

  pub write_high : (a x : ℕ) → c.heap_top ≤ a → Recovers is_cell c w r us ds vs es (write a x m)
  unfolding write
  write_high a x h = record {
    binding_entries = i.binding_entries;
    binding_top = i.binding_top;
    other_entries = i.other_entries;
    other_top = i.other_top;
    saved = i.saved;
    allocated = i.allocated;
    current_saved = i.current_saved;
    current_other = i.current_other;
    cells = i.cells;
    words = λ y hy. unchanged (update m.store.word a x) y hy (ground arith);
    refcounts = i.refcounts;
  }

  pub push_bind :
      (v x : ℕ) (t : BindingTrail)
      → Binding.push v m.binding_trail ≡ some t
      → m.store.word (v + 1) ≡ v
      → is_cell (v + 1) ≡ true
      → Recovers is_cell c w r us ds (v ∷ vs) es (write (v + 1) x (record m { binding_trail = t }))
  unfolding write Binding.push
  push_bind v x t p unbound cell = record {
    binding_entries = ground (arith, i.binding_entries);
    binding_top = ground (arith, i.binding_top);
    other_entries = i.other_entries;
    other_top = i.other_top;
    saved = i.saved;
    allocated = i.allocated;
    current_saved = i.current_saved;
    current_other = i.current_other;
    cells = (cell, i.cells);
    words = λ y hy.
        undo_word_local es _ _ y (reset_all-bind vs m.store.word v x y unbound) ∙ i.words y hy;
    refcounts = i.refcounts;
  }

  put_back :
      (a x y : ℕ)
      → is_cell a ≡ false
      → update (reset_all vs (update m.store.word a x)) a (m.store.word a) y
        ≡ reset_all vs m.store.word y
  put_back a x y cell = ground (
    arith,
    reset_all_other is_cell vs m.store.word a i.cells cell,
    reset_all_local vs (update m.store.word a x) m.store.word y,
  )

  -- Pushing an entry that undoes the write of a word that is no variable's reference.
  pub push_object :
      (ptr x offset : ℕ) (t : OtherTrail)
      → ptr ≢ 0
      → is_cell (ptr + offset) ≡ false
      → Other.push (updatable_object ptr (m.store.word (ptr + offset)) offset) m.other_trail
        ≡ some t
      → Recovers is_cell c w r us ds vs
          (updatable_object ptr (m.store.word (ptr + offset)) offset ∷ es)
          (write (ptr + offset) x (record m { other_trail = t }))
  unfolding write Other.push total_size held size undo_word
  push_object ptr x offset t nonzero cell p =
      let zero_test : ptr == 0 ≡ false = ground (arith, nonzero) in
      record {
        binding_entries = i.binding_entries;
        binding_top = i.binding_top;
        other_entries = ground (arith, i.other_entries);
        other_top = ground (arith, i.other_top);
        saved = i.saved;
        allocated = i.allocated;
        current_saved = i.current_saved;
        current_other = i.current_other;
        cells = i.cells;
        words = λ y hy.
            rw (zero_test)
              (undo_word_local es _ _ y (put_back (ptr + offset) x y cell) ∙ i.words y hy);
        refcounts = i.refcounts;
      }

  pub push_tag :
      (o x : ℕ) (t : OtherTrail)
      → o ≢ 0
      → is_cell o ≡ false
      → Other.push (updatable_tag o (m.store.word o)) m.other_trail ≡ some t
      → Recovers is_cell c w r us ds vs
          (updatable_tag o (m.store.word o) ∷ es)
          (write o x (record m { other_trail = t }))
  unfolding write Other.push total_size held size undo_word
  push_tag o x t nonzero cell p =
      let zero_test : o == 0 ≡ false = ground (arith, nonzero) in
      record {
        binding_entries = i.binding_entries;
        binding_top = i.binding_top;
        other_entries = ground (arith, i.other_entries);
        other_top = ground (arith, i.other_top);
        saved = i.saved;
        allocated = i.allocated;
        current_saved = i.current_saved;
        current_other = i.current_other;
        cells = i.cells;
        words =
            λ y hy. rw (zero_test) (undo_word_local es _ _ y (put_back o x y cell) ∙ i.words y hy);
        refcounts = i.refcounts;
      }

  -- A write that an older entry already undoes.
  module _ (a : ℕ) where
    covered :
        (x : ℕ)
        → ((u v : ℕ → ℕ) → undo_word es u a ≡ undo_word es v a)
        → Recovers is_cell c w r us ds vs es (write a x m)
    unfolding write
    covered x free = record {
      binding_entries = i.binding_entries;
      binding_top = i.binding_top;
      other_entries = i.other_entries;
      other_top = i.other_top;
      saved = i.saved;
      allocated = i.allocated;
      current_saved = i.current_saved;
      current_other = i.current_other;
      cells = i.cells;
      words = λ y hy.
          let u : ℕ → ℕ = update m.store.word a x in
          ground (
            arith,
            free (reset_all vs u) (reset_all vs m.store.word),
            i.words y hy,
            unchanged u y hy,
          );
      refcounts = i.refcounts;
    }

  pub covered_object :
      (ptr o x offset : ℕ)
      → ptr ≢ 0
      → occurs (updatable_object ptr o offset) es ≡ true
      → Recovers is_cell c w r us ds vs es (write (ptr + offset) x m)
  covered_object ptr o x offset nonzero h =
      covered (ptr + offset) x
        (λ u v. undo_word-occurs_object ptr o offset es u v (ground (arith, nonzero)) h)

  pub covered_tag :
      (ptr o x : ℕ)
      → ptr ≢ 0
      → occurs (updatable_tag ptr o) es ≡ true
      → Recovers is_cell c w r us ds vs es (write ptr x m)
  covered_tag ptr o x nonzero h =
      covered ptr x (λ u v. undo_word-occurs_tag ptr o es u v (ground (arith, nonzero)) h)

  pub push_hold :
      (p : ℕ) (t : OtherTrail)
      → Other.push (pred_ref p) m.other_trail ≡ some t
      → let s = m.store in
        Recovers is_cell c w r us ds vs (pred_ref p ∷ es) (record m {
          other_trail = t;
          store = record s { predicate = update s.predicate p (acquire (s.predicate p)) };
        })
  unfolding Other.push total_size held size undo_word acquire
  push_hold p t h = record {
    binding_entries = i.binding_entries;
    binding_top = i.binding_top;
    other_entries = ground (arith, i.other_entries);
    other_top = ground (arith, i.other_top);
    saved = i.saved;
    allocated = i.allocated;
    current_saved = i.current_saved;
    current_other = i.current_other;
    cells = i.cells;
    words = i.words;
    refcounts = λ q. ground (arith, i.refcounts q);
  }
