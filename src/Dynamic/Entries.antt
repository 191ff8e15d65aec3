-- ===== src/Dynamic/Entries.antt =====
-- The entries of the hash table of chains, as a clause is added or clauses are unlinked
-- (src/dynamic_code.cc).
use qu_prolog.Base.{
  ℕ, ◌≡◌, ◌↔◌, refl, sym, ap, subst, ◌∙◌, Bool, true, false, List, [], ◌∷◌, none, some, arith, inl,
  inr, Bool-cases,
}
use qu_prolog.Dynamic.Key.{Key, is_empty, same_key}
use qu_prolog.Dynamic.Chain.{Block, Chain, gc_chain}
use qu_prolog.Dynamic.Predicate.{search_entry, set_entry, add_to_hashed_chains, gc_entries}
use qu_prolog.Dynamic.Represents.{
  Clauses, fits, blocks_of, add, remaining, blocks_of-add, blocks_of-remaining, Sound,
}

same_key-eq : (k l : Key) → same_key k l ≡ true → k ≡ l
unfolding same_key
same_key-eq k l h = ground arith

same_key_comm : (k l : Key) → same_key k l ≡ same_key l k
unfolding same_key
same_key_comm k l = ground arith

pub same_key_refl : (k : Key) → same_key k k ≡ true
unfolding same_key
same_key_refl k = ground arith

module _ (cs : Clauses) where
  pub Sound-search :
      (es : List (Key × Chain)) (k : Key) (c : Chain)
      → Sound cs es
      → search_entry k es ≡ some c
      → c ≡ blocks_of (fits k) cs
  unfolding Sound search_entry
  Sound-search [] k c s e = cc
  Sound-search ((l, d) ∷ es) k c s e = elim (Bool-cases (same_key k l)) [
    | inl h ↦
        let found : c ≡ d = ground (arith, h, e) in
        subst (λ i. c ≡ blocks_of (fits i) cs) (sym (same_key-eq k l h)) (found ∙ s.1)
    | inr h ↦ Sound-search es k c s.3 (ground (arith, h, e))
  ]

module _ (cs : Clauses) (asserta : Bool) (k : Key) (b : ℕ) where
  abbrev more : Clauses
  more = add asserta (k, b) cs

  search-add_to_hashed_chains :
      (l : Key) (es : List (Key × Chain))
      → search_entry l es ≡ none
      → search_entry l (add_to_hashed_chains asserta b es) ≡ none
  unfolding search_entry add_to_hashed_chains
  search-add_to_hashed_chains l [] h = refl
  search-add_to_hashed_chains l ((i, c) ∷ es) h = ground (arith, search-add_to_hashed_chains l es)

  pub search_of_hashed_chains :
      (l : Key) (es : List (Key × Chain))
      → search_entry l (add_to_hashed_chains asserta b es) ≡ none
      → search_entry l es ≡ none
  unfolding search_entry add_to_hashed_chains
  search_of_hashed_chains l [] h = refl
  search_of_hashed_chains l ((i, c) ∷ es) h = ground (arith, search_of_hashed_chains l es)

  -- A clause whose key is empty goes into every chain.
  pub add_to_hashed_chains-Sound :
      (es : List (Key × Chain))
      → is_empty k ≡ true
      → Sound cs es
      → Sound more (add_to_hashed_chains asserta b es)
  unfolding Sound add_to_hashed_chains
  add_to_hashed_chains-Sound [] e s = tt
  add_to_hashed_chains-Sound ((l, c) ∷ es) e s = (
    s.0,
    ground (arith, blocks_of-add (fits l) asserta k b cs, s.1),
    search-add_to_hashed_chains l es s.2,
    add_to_hashed_chains-Sound es e s.3,
  )

  -- A clause whose key is not empty changes the chains of that key only.
  pub blocks_of-other :
      (l : Key)
      → is_empty k ≡ false
      → same_key k l ≡ false
      → blocks_of (fits l) more ≡ blocks_of (fits l) cs
  blocks_of-other l e apart =
      blocks_of-add (fits l) asserta k b cs ∙ ground (arith, same_key_comm k l)

  Sound-other :
      (es : List (Key × Chain))
      → is_empty k ≡ false
      → search_entry k es ≡ none
      → Sound cs es
      → Sound more es
  unfolding Sound search_entry
  Sound-other [] e h s = tt
  Sound-other ((l, c) ∷ es) e h s =
      let apart : same_key k l ≡ false = ground (arith, h) in
      (s.0, s.1 ∙ sym (blocks_of-other l e apart), s.2, Sound-other es e (ground (arith, h)) s.3)

  pub search-set_entry_other :
      (l : Key) (c : Chain) (es : List (Key × Chain))
      → same_key l k ≡ false
      → search_entry l es ≡ none
      → search_entry l (set_entry k c es) ≡ none
  unfolding search_entry set_entry
  search-set_entry_other l c [] apart h = ground arith
  search-set_entry_other l c ((i, d) ∷ es) apart h = ground (arith, search-set_entry_other l c es)

  pub set_entry-Sound :
      (c : Chain) (es : List (Key × Chain))
      → is_empty k ≡ false
      → c ≡ blocks_of (fits k) more
      → Sound cs es
      → Sound more (set_entry k c es)
  unfolding Sound set_entry search_entry
  set_entry-Sound c [] e f s = (e, f, refl, tt)
  set_entry-Sound c ((l, d) ∷ es) e f s = elim (Bool-cases (same_key k l)) [
    | inl h ↦
        let same = same_key-eq k l h in
        rw h (
          s.0,
          f ∙ ap (λ i. blocks_of (fits i) more) same,
          s.2,
          Sound-other es e (subst (λ i. search_entry i es ≡ none) (sym same) s.2) s.3,
        )
    | inr h ↦ rw h (
      s.0,
      s.1 ∙ sym (blocks_of-other l e h),
      search-set_entry_other l c es (same_key_comm l k ∙ h) s.2,
      set_entry-Sound c es e f s.3,
    )
  ]

  -- A key that has no entry afterwards had none, and is another one.
  pub search_of_set_entry :
      (l : Key) (c : Chain) (es : List (Key × Chain))
      → search_entry l (set_entry k c es) ≡ none
      → (search_entry l es ≡ none) × (same_key k l ≡ false)
  unfolding search_entry set_entry
  search_of_set_entry l c [] h = ground (arith, same_key_comm k l)
  search_of_set_entry l c ((i, d) ∷ es) h = elim (Bool-cases (same_key k i)) [
    | inl e ↦
        let apart : same_key l i ≡ false = ground (arith, h, e) in
        let other : same_key k l ≡ false =
          ap (λ j. same_key j l) (same_key-eq k i e) ∙ same_key_comm i l ∙ apart in
        (ground (arith, h, e, apart), other)
    | inr e ↦ ground (arith, h, e, search_of_set_entry l c es)
  ]

-- Unlinking.
module _ (cs : Clauses) (blocks : ℕ → Block) (time : ℕ) where
  pub search-gc_entries :
      (k : Key) (es : List (Key × Chain))
      → search_entry k (gc_entries blocks time es) ≡ none ↔ (search_entry k es ≡ none)
  unfolding search_entry gc_entries
  search-gc_entries k [] = (λ h. h, λ h. h)
  search-gc_entries k ((i, c) ∷ es) =
      let (there, back) = search-gc_entries k es in
      (λ h. ground (arith, there), λ h. ground (arith, back))

  pub gc_entries-Sound :
      (es : List (Key × Chain))
      → Sound cs es
      → Sound (remaining blocks time cs) (gc_entries blocks time es)
  unfolding Sound gc_entries
  gc_entries-Sound [] s = tt
  gc_entries-Sound ((k, c) ∷ es) s = (
    s.0,
    ap (gc_chain blocks time) s.1 ∙ sym (blocks_of-remaining (fits k) blocks time cs),
    (search-gc_entries k es).1 s.2,
    gc_entries-Sound es s.3,
  )
