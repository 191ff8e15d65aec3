-- ===== src/Trail/Tidy.antt =====
-- Tidying the value trail after a cut (src/trail.h).
use qu_prolog.Base.{
  ℕ, ◌+◌, ◌<◌, ◌≡◌, refl, ap, ◌∙◌, List, [], ◌∷◌, ◌++◌, true, false, arith, ◌==◌, if◌then◌else◌,
  update, ◌&&◌, Bool-cases, inl, inr,
}
use qu_prolog.Trail.Entry.{
  Store, Entry, updatable_object, updatable_tag, pred_ref, cleanup_entry, size, backtrack, tidy,
  same, occurs, is_redundant,
}
use qu_prolog.Trail.Other.{total_size, tidy_loop}
use qu_prolog.Trail.Undo.{undo, size-pos, entries_until_lem}

-- The entries that stay when a whole list is tidied.
unfoldable pub kept : ℕ → ℕ → List Entry → List Entry
kept st ht [] = []
kept st ht (updatable_object a o i ∷ es) =
    let keep = kept st ht es in
    if is_redundant (updatable_object a o i) a es st ht then keep else updatable_object a o i ∷ keep
kept st ht (updatable_tag a o ∷ es) =
    let keep = kept st ht es in
    if is_redundant (updatable_tag a o) a es st ht then keep else updatable_tag a o ∷ keep
kept st ht (_ ∷ es) = kept st ht es

-- The entries of a list that take effect at once when it is tidied.
unfoldable pub settled : List Entry → Store → Store
settled [] s = s
settled (pred_ref p ∷ es) s = settled es (backtrack (pred_ref p) s)
settled (cleanup_entry c t ∷ es) s = settled es (backtrack (cleanup_entry c t) s)
settled (e ∷ es) s = settled es s

pub tidy_loop_lem :
    (c loc st ht : ℕ) (es ds : List Entry) (s : Store)
    → loc ≡ c + total_size es
    → tidy_loop c loc st ht (es ++ ds) s ≡ (kept st ht es, ds, settled es s)
unfolding tidy_loop total_size kept settled tidy
tidy_loop_lem c loc st ht [] [] s h = refl
tidy_loop_lem c loc st ht [] (d ∷ ds) s h = ground arith
tidy_loop_lem c loc st ht (updatable_object a o i ∷ es) ds s h =
    let e = updatable_object a o i in
    ground (
      arith,
      size-pos e,
      entries_until_lem (c + size e) loc es ds (omega arith),
      tidy_loop_lem (c + size e) loc st ht es ds s (omega arith),
    )
tidy_loop_lem c loc st ht (updatable_tag a o ∷ es) ds s h =
    let e = updatable_tag a o in
    ground (
      arith,
      size-pos e,
      entries_until_lem (c + size e) loc es ds (omega arith),
      tidy_loop_lem (c + size e) loc st ht es ds s (omega arith),
    )
tidy_loop_lem c loc st ht (pred_ref p ∷ es) ds s h =
    let e = pred_ref p in
    ground
      (arith, size-pos e, tidy_loop_lem (c + size e) loc st ht es ds (backtrack e s) (omega arith))
tidy_loop_lem c loc st ht (cleanup_entry p t ∷ es) ds s h =
    let e = cleanup_entry p t in
    ground
      (arith, size-pos e, tidy_loop_lem (c + size e) loc st ht es ds (backtrack e s) (omega arith))

-- The words that undoing the entries leaves.
unfoldable pub undo_word : List Entry → (ℕ → ℕ) → ℕ → ℕ
undo_word [] w = w
undo_word (updatable_object a o i ∷ es) w = undo_word es (if a == 0 then w else update w (a + i) o)
undo_word (updatable_tag a o ∷ es) w = undo_word es (if a == 0 then w else update w a o)
undo_word (_ ∷ es) w = undo_word es w

backtrack-word_object :
    (a o i : ℕ) (s : Store)
    → (backtrack (updatable_object a o i) s).word
      ≡ (if a == 0 then s.word else update s.word (a + i) o)
unfolding backtrack
backtrack-word_object a o i s = ground arith

backtrack-word_tag :
    (a o : ℕ) (s : Store)
    → (backtrack (updatable_tag a o) s).word ≡ (if a == 0 then s.word else update s.word a o)
unfolding backtrack
backtrack-word_tag a o s = ground arith

backtrack-word_pred : (p : ℕ) (s : Store) → (backtrack (pred_ref p) s).word ≡ s.word
unfolding backtrack
backtrack-word_pred p s = refl

backtrack-word_cleanup : (c t : ℕ) (s : Store) → (backtrack (cleanup_entry c t) s).word ≡ s.word
unfolding backtrack
backtrack-word_cleanup c t s = refl

pub undo-word : (es : List Entry) (s : Store) → (undo es s).word ≡ undo_word es s.word
unfolding undo undo_word
undo-word [] s = refl
undo-word (updatable_object a o i ∷ es) s =
    undo-word es _ ∙ ap (undo_word es) (backtrack-word_object a o i s)
undo-word (updatable_tag a o ∷ es) s = undo-word es _ ∙ ap (undo_word es) (backtrack-word_tag a o s)
undo-word (pred_ref p ∷ es) s = undo-word es _ ∙ ap (undo_word es) (backtrack-word_pred p s)
undo-word (cleanup_entry c t ∷ es) s =
    undo-word es _ ∙ ap (undo_word es) (backtrack-word_cleanup c t s)

-- A word that is restored depends on no other word.
pub undo_word_local :
    (es : List Entry) (v w : ℕ → ℕ) (x : ℕ) → v x ≡ w x → undo_word es v x ≡ undo_word es w x
unfolding undo_word
undo_word_local [] v w x h = h
undo_word_local (updatable_object a o i ∷ es) v w x h =
    undo_word_local es (if a == 0 then v else update v (a + i) o)
      (if a == 0 then w else update w (a + i) o) x (ground arith)
undo_word_local (updatable_tag a o ∷ es) v w x h =
    undo_word_local es (if a == 0 then v else update v a o) (if a == 0 then w else update w a o) x
      (ground arith)
undo_word_local (pred_ref p ∷ es) v w x h = undo_word_local es v w x h
undo_word_local (cleanup_entry c t ∷ es) v w x h = undo_word_local es v w x h

-- What an older entry for the same word restores does not depend on the word.
pub undo_word-occurs_object :
    (a o i : ℕ) (es : List Entry) (v w : ℕ → ℕ)
    → (a == 0) ≡ false
    → occurs (updatable_object a o i) es ≡ true
    → undo_word es v (a + i) ≡ undo_word es w (a + i)
unfolding undo_word occurs same
undo_word-occurs_object a o i [] v w z h = cc
undo_word-occurs_object a o i (updatable_object b p j ∷ es) v w z h =
    elim (Bool-cases (b == a && j == i)) [
      | inl e ↦
          undo_word_local es (if b == 0 then v else update v (b + j) p)
            (if b == 0 then w else update w (b + j) p) (a + i) (ground arith)
      | inr e ↦ undo_word-occurs_object a o i es _ _ z (rw e at h)
    ]
undo_word-occurs_object a o i (updatable_tag b p ∷ es) v w z h =
    undo_word-occurs_object a o i es _ _ z h
undo_word-occurs_object a o i (pred_ref p ∷ es) v w z h = undo_word-occurs_object a o i es v w z h
undo_word-occurs_object a o i (cleanup_entry c t ∷ es) v w z h =
    undo_word-occurs_object a o i es v w z h

pub undo_word-occurs_tag :
    (a o : ℕ) (es : List Entry) (v w : ℕ → ℕ)
    → (a == 0) ≡ false
    → occurs (updatable_tag a o) es ≡ true
    → undo_word es v a ≡ undo_word es w a
unfolding undo_word occurs same
undo_word-occurs_tag a o [] v w z h = cc
undo_word-occurs_tag a o (updatable_tag b p ∷ es) v w z h = elim (Bool-cases (b == a)) [
  | inl e ↦
      undo_word_local es (if b == 0 then v else update v b p) (if b == 0 then w else update w b p) a
        (ground arith)
  | inr e ↦ undo_word-occurs_tag a o es _ _ z (rw e at h)
]
undo_word-occurs_tag a o (updatable_object b p j ∷ es) v w z h = undo_word-occurs_tag a o es _ _ z h
undo_word-occurs_tag a o (pred_ref p ∷ es) v w z h = undo_word-occurs_tag a o es v w z h
undo_word-occurs_tag a o (cleanup_entry c t ∷ es) v w z h = undo_word-occurs_tag a o es v w z h

-- Below the saved top, undoing the entries that stay restores the same words.
pub undo_word-kept :
    (st ht : ℕ) (es : List Entry) (w : ℕ → ℕ) (x : ℕ)
    → x < st
    → undo_word (kept st ht es) w x ≡ undo_word es w x
unfolding undo_word kept is_redundant
undo_word-kept st ht [] w x h = refl
undo_word-kept st ht (updatable_object a o i ∷ es) w x h = ground (
  arith,
  undo_word-kept st ht es w x h,
  undo_word-kept st ht es (update w (a + i) o) x h,
  undo_word_local es (update w (a + i) o) w x,
  undo_word-occurs_object a o i es (update w (a + i) o) w,
)
undo_word-kept st ht (updatable_tag a o ∷ es) w x h = ground (
  arith,
  undo_word-kept st ht es w x h,
  undo_word-kept st ht es (update w a o) x h,
  undo_word_local es (update w a o) w x,
  undo_word-occurs_tag a o es (update w a o) w,
)
undo_word-kept st ht (pred_ref p ∷ es) w x h = undo_word-kept st ht es w x h
undo_word-kept st ht (cleanup_entry c t ∷ es) w x h = undo_word-kept st ht es w x h
