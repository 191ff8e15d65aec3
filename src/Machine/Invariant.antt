-- ===== src/Machine/Invariant.antt =====
-- What the trails know of the memory at a choice point (src/bind.h, src/trail.h).
use qu_prolog.Base.{
  ℕ, ◌+◌, ◌≤◌, ◌<◌, ◌≡◌, ◌≢◌, refl, ap, ◌∙◌, Bool, true, false, List, [], ◌∷◌, ◌++◌, arith, ◌==◌,
  if◌then◌else◌, update, length,
}
use qu_prolog.Trail.Entry.{Entry, pred_ref, size, occurs}
use qu_prolog.Trail.Other.{total_size, entries_until}
use qu_prolog.Trail.Binding.{reset}
use qu_prolog.Trail.Tidy.{undo_word}
use qu_prolog.Trail.Reset.{reset_all, reset_all_local}
use qu_prolog.Machine.{Machine, HeapAndTrails}

abbrev pub All {ℓ κ} : {A : Type ℓ} → (A → Type κ) → List A → Type κ
All P [] = Unit
All P (x ∷ xs) = P x × All P xs

-- How often a predicate is held by the entries.
unfoldable pub held : ℕ → List Entry → ℕ
held p [] = 0
held p (pred_ref q ∷ es) = if q == p then held p es + 1 else held p es
held p (_ ∷ es) = held p es

-- Since the state `c` was saved, with the words `w` below its heap top and the reference counts
-- `r`, the variables `vs` and the entries `es` were pushed on the trails, over `us` and `ds`.
-- Undoing them gives `w` and `r` back.
pub record Recovers (is_cell : ℕ → Bool) (c : HeapAndTrails) (w r : ℕ → ℕ) (us : List ℕ)
    (ds : List Entry) (vs : List ℕ) (es : List Entry) (m : Machine) : Type 0 where
  pub binding_entries : m.binding_trail.entries ≡ vs ++ us
  pub binding_top : c.binding_trail_top ≡ m.binding_trail.top + length vs
  pub other_entries : m.other_trail.entries ≡ es ++ ds
  pub other_top : c.other_trail_top ≡ m.other_trail.top + total_size es
  pub saved : c.heap_top ≤ m.saved_top
  pub allocated : m.saved_top ≤ m.next
  pub current_saved : c.heap_top ≤ m.current.heap_top
  pub current_other : m.current.other_trail_top ≤ c.other_trail_top
  pub cells : All (λ v. is_cell (v + 1) ≡ true) vs
  pub words : (x : ℕ) → x < c.heap_top → undo_word es (reset_all vs m.store.word) x ≡ w x
  pub refcounts : (p : ℕ) → (m.store.predicate p).refcount ≡ r p + held p es

module _ (is_cell : ℕ → Bool) where
  update_away :
      {a : ℕ} (b v : ℕ) (u : ℕ → ℕ) → is_cell b ≡ true → is_cell a ≡ false → update u b v a ≡ u a
  update_away {a} b v u k e =
      let apart : b ≢ a = λ same. cc (ap is_cell same) in ground (arith, apart)

  -- A word that is no variable's reference is not reset.
  pub reset_all_other :
      (vs : List ℕ) (u : ℕ → ℕ) (a : ℕ)
      → All (λ v. is_cell (v + 1) ≡ true) vs
      → is_cell a ≡ false
      → reset_all vs u a ≡ u a
  unfolding reset_all reset
  reset_all_other [] u a h e = refl
  reset_all_other (v ∷ vs) u a h e =
      reset_all_other vs (reset v u) a h.1 e ∙ update_away (v + 1) v u h.0 e

-- Binding a variable that is put on the trail.
pub reset_all-bind :
    (vs : List ℕ) (u : ℕ → ℕ) (v x y : ℕ)
    → u (v + 1) ≡ v
    → reset_all (v ∷ vs) (update u (v + 1) x) y ≡ reset_all vs u y
unfolding reset_all reset
reset_all-bind vs u v x y h =
    reset_all_local vs (update (update u (v + 1) x) (v + 1) v) u y (ground arith)

-- Entries from the top to an older location within `es` are entries of `es`.
pub occurs-entries_until :
    (e : Entry) (c stop : ℕ) (es ds : List Entry)
    → stop ≤ c + total_size es
    → occurs e (entries_until c stop (es ++ ds)) ≡ true
    → occurs e es ≡ true
unfolding occurs entries_until total_size
occurs-entries_until e c stop [] [] h o = o
occurs-entries_until e c stop [] (d ∷ ds) h o = ground arith
occurs-entries_until e c stop (d ∷ es) ds h o =
    ground (arith, occurs-entries_until e (c + size d) stop es ds (omega arith))
