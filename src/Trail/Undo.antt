-- ===== src/Trail/Undo.antt =====
-- Backtracking of the value trail (src/trail.h) as a fold over the entries that it passes.
use qu_prolog.Base.{ℕ, ◌+◌, ◌<◌, ◌≡◌, refl, List, [], ◌∷◌, ◌++◌, arith}
use qu_prolog.Trail.Entry.{Store, Entry, size, backtrack}
use qu_prolog.Trail.Other.{entries_until, backtrack_loop, total_size}

-- Undo the entries in order, the newest first.
unfoldable pub undo : List Entry → Store → Store
undo [] s = s
undo (e ∷ es) s = undo es (backtrack e s)

pub undo-append : (es ds : List Entry) (s : Store) → undo (es ++ ds) s ≡ undo ds (undo es s)
unfolding undo
undo-append [] ds s = refl
undo-append (e ∷ es) ds s = undo-append es ds (backtrack e s)

pub size-pos : (e : Entry) → 0 < size e
unfolding size
size-pos (Entry.updatable_object a o i) = omega arith
size-pos (Entry.updatable_tag a o) = omega arith
size-pos (Entry.pred_ref p) = omega arith
size-pos (Entry.cleanup_entry c t) = omega arith

pub total_size-append : (es ds : List Entry) → total_size (es ++ ds) ≡ total_size es + total_size ds
unfolding total_size
total_size-append [] ds = omega arith
total_size-append (e ∷ es) ds = omega (arith, total_size-append es ds)

-- The walk stops at the first entry at or above `loc`.
pub entries_until_lem :
    (c loc : ℕ) (es ds : List Entry) → loc ≡ c + total_size es → entries_until c loc (es ++ ds) ≡ es
unfolding entries_until total_size
entries_until_lem c loc [] [] h = refl
entries_until_lem c loc [] (d ∷ ds) h = ground arith
entries_until_lem c loc (e ∷ es) ds h =
    ground (arith, size-pos e, entries_until_lem (c + size e) loc es ds (omega arith))

pub backtrack_loop_lem :
    (c loc : ℕ) (es ds : List Entry) (s : Store)
    → loc ≡ c + total_size es
    → backtrack_loop c loc (es ++ ds) s ≡ (ds, undo es s)
unfolding backtrack_loop total_size undo
backtrack_loop_lem c loc [] [] s h = refl
backtrack_loop_lem c loc [] (d ∷ ds) s h = ground arith
backtrack_loop_lem c loc (e ∷ es) ds s h =
    ground
      (arith, size-pos e, backtrack_loop_lem (c + size e) loc es ds (backtrack e s) (omega arith))
