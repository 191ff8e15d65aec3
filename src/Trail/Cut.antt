-- ===== src/Trail/Cut.antt =====
-- A cut tidies the value trail; a later backtrack must not see the difference (src/trail.h).
use qu_prolog.Base.{
  ℕ, ◌+◌, ◌-◌, ◌≤◌, ◌<◌, ◌≡◌, refl, sym, ◌∙◌, List, [], ◌∷◌, ◌++◌, arith, append_assoc,
}
use qu_prolog.Trail.Entry.{
  Store, Entry, updatable_object, updatable_tag, pred_ref, cleanup_entry, backtrack,
}
use qu_prolog.Trail.Other.{OtherTrail, backtrack_to, total_size, tidy_up_trail}
use qu_prolog.Trail.Undo.{undo, undo-append, total_size-append, backtrack_loop_lem}
use qu_prolog.Trail.Tidy.{kept, settled, tidy_loop_lem, undo-word, undo_word-kept, undo_word_local}

-- Two stores agree but for words at or above `st`.
pub record Agree (st : ℕ) (s r : Store) : Type 0 where
  pub words : (x : ℕ) → x < st → s.word x ≡ r.word x
  pub predicates : s.predicate ≡ r.predicate
  pub cleanups : s.cleanup ≡ r.cleanup

-- Undoing depends on a part of the store only through that part.
undo-predicate :
    (es : List Entry) (s r : Store)
    → s.predicate ≡ r.predicate
    → (undo es s).predicate ≡ (undo es r).predicate
unfolding undo backtrack
undo-predicate [] s r h = h
undo-predicate (updatable_object a o i ∷ es) s r h = undo-predicate es _ _ (ground arith)
undo-predicate (updatable_tag a o ∷ es) s r h = undo-predicate es _ _ (ground arith)
undo-predicate (pred_ref p ∷ es) s r h = undo-predicate es _ _ (rw h)
undo-predicate (cleanup_entry c t ∷ es) s r h = undo-predicate es _ _ h

undo-cleanup :
    (es : List Entry) (s r : Store)
    → s.cleanup ≡ r.cleanup
    → (undo es s).cleanup ≡ (undo es r).cleanup
unfolding undo backtrack
undo-cleanup [] s r h = h
undo-cleanup (updatable_object a o i ∷ es) s r h = undo-cleanup es _ _ (ground arith)
undo-cleanup (updatable_tag a o ∷ es) s r h = undo-cleanup es _ _ (ground arith)
undo-cleanup (pred_ref p ∷ es) s r h = undo-cleanup es _ _ h
undo-cleanup (cleanup_entry c t ∷ es) s r h = undo-cleanup es _ _ (rw h)

undo-words :
    (st : ℕ) (es : List Entry) (s r : Store)
    → ((x : ℕ) → x < st → s.word x ≡ r.word x)
    → (x : ℕ) → x < st
    → (undo es s).word x ≡ (undo es r).word x
undo-words st es s r h x hx =
    rw (undo-word es s, undo-word es r) (undo_word_local es s.word r.word x (h x hx))

pub undo-Agree :
    {st : ℕ} (es : List Entry) (s r : Store) → Agree st s r → Agree st (undo es s) (undo es r)
undo-Agree {st} es s r h = record {
  words = undo-words st es s r h.words;
  predicates = undo-predicate es s r h.predicates;
  cleanups = undo-cleanup es s r h.cleanups;
}

pub settled-word : (es : List Entry) (s : Store) → (settled es s).word ≡ s.word
unfolding settled backtrack
settled-word [] s = refl
settled-word (updatable_object a o i ∷ es) s = settled-word es s
settled-word (updatable_tag a o ∷ es) s = settled-word es s
settled-word (pred_ref p ∷ es) s = settled-word es _
settled-word (cleanup_entry c t ∷ es) s = settled-word es _

-- The entries that stay restore words only.
kept-predicate :
    (st ht : ℕ) (es : List Entry) (s : Store) → (undo (kept st ht es) s).predicate ≡ s.predicate
unfolding kept undo backtrack
kept-predicate st ht [] s = refl
kept-predicate st ht (updatable_object a o i ∷ es) s = ground (
  arith,
  kept-predicate st ht es s,
  kept-predicate st ht es (backtrack (updatable_object a o i) s),
)
kept-predicate st ht (updatable_tag a o ∷ es) s =
    ground
      (arith, kept-predicate st ht es s, kept-predicate st ht es (backtrack (updatable_tag a o) s))
kept-predicate st ht (pred_ref p ∷ es) s = kept-predicate st ht es s
kept-predicate st ht (cleanup_entry c t ∷ es) s = kept-predicate st ht es s

kept-cleanup :
    (st ht : ℕ) (es : List Entry) (s : Store) → (undo (kept st ht es) s).cleanup ≡ s.cleanup
unfolding kept undo backtrack
kept-cleanup st ht [] s = refl
kept-cleanup st ht (updatable_object a o i ∷ es) s =
    ground
      (arith, kept-cleanup st ht es s, kept-cleanup st ht es (backtrack (updatable_object a o i) s))
kept-cleanup st ht (updatable_tag a o ∷ es) s =
    ground (arith, kept-cleanup st ht es s, kept-cleanup st ht es (backtrack (updatable_tag a o) s))
kept-cleanup st ht (pred_ref p ∷ es) s = kept-cleanup st ht es s
kept-cleanup st ht (cleanup_entry c t ∷ es) s = kept-cleanup st ht es s

settled-predicate :
    (es : List Entry) (s r : Store)
    → s.predicate ≡ r.predicate
    → (settled es s).predicate ≡ (undo es r).predicate
unfolding settled undo backtrack
settled-predicate [] s r h = h
settled-predicate (updatable_object a o i ∷ es) s r h = settled-predicate es _ _ (ground arith)
settled-predicate (updatable_tag a o ∷ es) s r h = settled-predicate es _ _ (ground arith)
settled-predicate (pred_ref p ∷ es) s r h = settled-predicate es _ _ (rw h)
settled-predicate (cleanup_entry c t ∷ es) s r h = settled-predicate es _ _ h

settled-cleanup :
    (es : List Entry) (s r : Store)
    → s.cleanup ≡ r.cleanup
    → (settled es s).cleanup ≡ (undo es r).cleanup
unfolding settled undo backtrack
settled-cleanup [] s r h = h
settled-cleanup (updatable_object a o i ∷ es) s r h = settled-cleanup es _ _ (ground arith)
settled-cleanup (updatable_tag a o ∷ es) s r h = settled-cleanup es _ _ (ground arith)
settled-cleanup (pred_ref p ∷ es) s r h = settled-cleanup es _ _ h
settled-cleanup (cleanup_entry c t ∷ es) s r h = settled-cleanup es _ _ (rw h)

kept-Agree :
    (st ht : ℕ) (es : List Entry) (s : Store)
    → Agree st (undo (kept st ht es) (settled es s)) (undo es s)
kept-Agree st ht es s = record {
  words = λ x hx.
      rw (undo-word (kept st ht es) (settled es s), undo-word es s, settled-word es s)
        (undo_word-kept st ht es s.word x hx);
  predicates = kept-predicate st ht es (settled es s) ∙ settled-predicate es s s refl;
  cleanups = kept-cleanup st ht es (settled es s) ∙ settled-cleanup es s s refl;
}

pub total_size-kept_le : (st ht : ℕ) (es : List Entry) → total_size (kept st ht es) ≤ total_size es
unfolding total_size kept
total_size-kept_le st ht [] = omega arith
total_size-kept_le st ht (updatable_object a o i ∷ es) = ground (arith, total_size-kept_le st ht es)
total_size-kept_le st ht (updatable_tag a o ∷ es) = ground (arith, total_size-kept_le st ht es)
total_size-kept_le st ht (pred_ref p ∷ es) = omega (arith, total_size-kept_le st ht es)
total_size-kept_le st ht (cleanup_entry c t ∷ es) = omega (arith, total_size-kept_le st ht es)

-- What tidying leaves, on a trail whose entries up to `loc` are `es`.
pub tidy_up_trail_lem :
    (t : OtherTrail) (st ht : ℕ) (es ds : List Entry) (s : Store)
    → t.entries ≡ es ++ ds
    → tidy_up_trail (t.top + total_size es) st ht t s ≡ (
      record t {
        top = t.top + total_size es - total_size (kept st ht es);
        entries = kept st ht es ++ ds;
      },
      settled es s,
    )
unfolding tidy_up_trail
tidy_up_trail_lem t st ht es ds s h =
    rw (h, tidy_loop_lem t.top (t.top + total_size es) st ht es ds s refl)

-- What backtracking leaves, on a trail whose entries up to `loc` are `es`.
pub backtrack_to_lem :
    (t : OtherTrail) (loc : ℕ) (es ds : List Entry) (s : Store)
    → t.entries ≡ es ++ ds
    → loc ≡ t.top + total_size es
    → backtrack_to loc t s ≡ (record t { top = loc; entries = ds }, undo es s)
unfolding backtrack_to
backtrack_to_lem t loc es ds s h e = rw (h, backtrack_loop_lem t.top loc es ds s e)

-- The same where words were put back in between.
pub kept-Agree_reset :
    (st ht : ℕ) (es : List Entry) (s r : Store) (u : ℕ → ℕ)
    → ((x : ℕ) → x < st → u x ≡ r.word x)
    → s.predicate ≡ r.predicate
    → s.cleanup ≡ r.cleanup
    → let s' = settled es s in Agree st (undo (kept st ht es) (record s' { word = u })) (undo es r)
kept-Agree_reset st ht es s r u h p q =
    let s' : Store = let s' = settled es s in record s' { word = u } in
    record {
      words = λ x hx.
          rw (undo-word (kept st ht es) s', undo-word es r)
            (undo_word_local (kept st ht es) u r.word x (h x hx)
              ∙ undo_word-kept st ht es r.word x hx);
      predicates = kept-predicate st ht es s' ∙ settled-predicate es s r p;
      cleanups = kept-cleanup st ht es s' ∙ settled-cleanup es s r q;
    }

-- Let `es` be the entries from the top of the value trail to the location that a choice point
-- saved, and `ds` those on to the location of a choice point that is at least as old. Tidying up
-- to the first and then backtracking to the second gives the same trail as backtracking to the
-- second alone, and the same predicates, cleanup levels and words below the saved heap top.
pub backtrack_to-tidy_up_trail :
    (t : OtherTrail) (st ht : ℕ) (es ds rest : List Entry) (s : Store)
    → t.entries ≡ es ++ (ds ++ rest)
    → let loc = t.top + total_size es in
      let tidied = tidy_up_trail loc st ht t s in
      let after = backtrack_to (loc + total_size ds) tidied.0 tidied.1 in
      let direct = backtrack_to (loc + total_size ds) t s in
      (after.0 ≡ direct.0) × Agree st after.1 direct.1
backtrack_to-tidy_up_trail t st ht es ds rest s h =
    let loc = t.top + total_size es in
    let short = kept st ht es in
    let t' : OtherTrail = record t {
      top = loc - total_size short;
      entries = short ++ (ds ++ rest);
    } in
    rw
      (
        tidy_up_trail_lem t st ht es (ds ++ rest) s h,
        backtrack_to_lem t (loc + total_size ds) (es ++ ds) rest s
            (h ∙ sym (append_assoc es ds rest)) (omega (arith, total_size-append es ds)),
        backtrack_to_lem t' (loc + total_size ds) (short ++ ds) rest (settled es s)
            (sym (append_assoc short ds rest))
            (omega (arith, total_size-append short ds, total_size-kept_le st ht es)),
        undo-append es ds s,
        undo-append short ds (settled es s),
      )
      (refl, undo-Agree ds _ _ (kept-Agree st ht es s))
