-- ===== src/Machine/Cut.antt =====
-- `tidyTrails` of src/thread_qp.h, which a cut calls (src/cut.cc).
use qu_prolog.Base.{
  ℕ, ◌+◌, ◌-◌, ◌<◌, ◌≡◌, refl, sym, ◌∙◌, List, ◌++◌, append_assoc, arith, length, length-append,
}
use qu_prolog.Trail.Entry.{Store, Entry}
use qu_prolog.Trail.Other.{OtherTrail, total_size}
use qu_prolog.Trail.Binding
use qu_prolog.Trail.Binding.{BindingTrail}
use qu_prolog.Trail.Cut
use qu_prolog.Trail.Undo.{undo, undo-append, total_size-append}
use qu_prolog.Trail.Tidy.{kept, settled}
use qu_prolog.Trail.Cut.{
  Agree, undo-Agree, kept-Agree_reset, tidy_up_trail_lem, total_size-kept_le, settled-word,
}
use qu_prolog.Trail.Reset
use qu_prolog.Machine.{Machine, HeapAndTrails, backtrack_to, tidy_trails}

-- Two machines are in the same state, but for words at or above `st`.
pub record Same (st : ℕ) (a b : Machine) : Type 0 where
  pub stores : Agree st a.store b.store
  pub bindings : a.binding_trail ≡ b.binding_trail
  pub others : a.other_trail ≡ b.other_trail
  pub nexts : a.next ≡ b.next
  pub saved_tops : a.saved_top ≡ b.saved_top

-- A choice point on the trails of `m`, above which stand `vs` and `es`.
abbrev pub choice_at : Machine → ℕ → List ℕ → List Entry → HeapAndTrails
choice_at m st vs es = record {
  heap_top = st;
  binding_trail_top = m.binding_trail.top + length vs;
  other_trail_top = m.other_trail.top + total_size es;
}

module _ (m : Machine) (st st' : ℕ) (vs us bottom : List ℕ) (es ds rest : List Entry)
    (bindings : m.binding_trail.entries ≡ vs ++ (us ++ bottom))
    (others : m.other_trail.entries ≡ es ++ (ds ++ rest)) where
  reset_direct : BindingTrail × (ℕ → ℕ)
  reset_direct =
      Binding.backtrack_to (m.binding_trail.top + length (vs ++ us)) m.binding_trail m.store.word

  direct : backtrack_to (choice_at m st' (vs ++ us) (es ++ ds)) m ≡ record m {
    saved_top = st';
    next = st';
    binding_trail = reset_direct.0;
    other_trail =
        let t = m.other_trail in record t { top = t.top + total_size (es ++ ds); entries = rest };
    store = undo (es ++ ds) (let s = m.store in record s { word = reset_direct.1 });
  }
  unfolding backtrack_to reset_direct
  direct = rw (
      Cut.backtrack_to_lem m.other_trail (m.other_trail.top + total_size (es ++ ds)) (es ++ ds) rest
        (let s : Store = m.store in record s { word = reset_direct.1 })
        (others ∙ sym (append_assoc es ds rest)) refl)

  reset_tidied : BindingTrail × (ℕ → ℕ)
  reset_tidied =
      Binding.backtrack_to (m.binding_trail.top + length (vs ++ us))
        (Binding.tidy_up_trail (m.binding_trail.top + length vs) st m.binding_trail)
        (settled es m.store).word

  tidied :
      backtrack_to (choice_at m st' (vs ++ us) (es ++ ds)) (tidy_trails (choice_at m st vs es) m)
      ≡ record m {
        saved_top = st';
        next = st';
        binding_trail = reset_tidied.0;
        other_trail =
            let t = m.other_trail in
            record t { top = t.top + total_size (es ++ ds); entries = rest };
        store =
            undo
              (kept st m.next es ++ ds)
              (let s = settled es m.store in record s { word = reset_tidied.1 });
      }
  unfolding backtrack_to tidy_trails reset_tidied
  tidied =
      let short = kept st m.next es in
      let t : OtherTrail =
        let t = m.other_trail in
        record t {
          top = t.top + total_size es - total_size short;
          entries = short ++ (ds ++ rest);
        } in
      rw (
        tidy_up_trail_lem m.other_trail st m.next es (ds ++ rest) m.store others,
        Cut.backtrack_to_lem t (m.other_trail.top + total_size (es ++ ds)) (short ++ ds) rest
            (let s : Store = settled es m.store in record s { word = reset_tidied.1 })
            (sym (append_assoc short ds rest))
            (omega (
              arith,
              total_size-append short ds,
              total_size-append es ds,
              total_size-kept_le st m.next es,
            )),
      )

  same_reset :
      (reset_tidied.0 ≡ reset_direct.0) × ((x : ℕ) → x < st → reset_tidied.1 x ≡ reset_direct.1 x)
  unfolding reset_tidied reset_direct
  same_reset =
      let b =
        Reset.backtrack_to-tidy_up_trail m.binding_trail st vs us bottom m.store.word bindings in
      let loc : m.binding_trail.top + length (vs ++ us)
          ≡ m.binding_trail.top + length vs + length us =
        omega (arith, length-append vs us) in
      rw (settled-word es m.store, loc) (b.0, λ x hx. b.1 x (omega arith))

  -- The trails of the machine `m` pass, from their tops, the tops that a choice point with the
  -- heap top `st` saved and then those of a choice point that is at least as old. A cut to the
  -- first tidies the trails. Backtracking to the second afterwards gives the same machine as
  -- backtracking with no tidying: the same trails and heap tops, predicates, cleanup levels, and
  -- words below `st`.
  pub backtrack_to-tidy_trails :
      let c = choice_at m st vs es in
      let d = choice_at m st' (vs ++ us) (es ++ ds) in
      Same st (backtrack_to d (tidy_trails c m)) (backtrack_to d m)
  backtrack_to-tidy_trails =
      let s = settled es m.store in
      let r : Store = let s = m.store in record s { word = reset_direct.1 } in
      let a : Store = record s { word = reset_tidied.1 } in
      rw (direct, tidied)
        (record {
          stores =
              rw (undo-append es ds r, undo-append (kept st m.next es) ds a)
                (undo-Agree ds _ _
                  (kept-Agree_reset st m.next es m.store r reset_tidied.1 same_reset.1 refl refl));
          bindings = same_reset.0;
          others = refl;
          nexts = refl;
          saved_tops = refl;
        })
