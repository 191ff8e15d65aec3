-- ===== src/Dynamic/Upkeep.antt =====
-- What adding a clause and collecting do to the chains of a predicate (src/dynamic_code.cc).
use qu_prolog.Base.{
  ℕ, ◌≡◌, refl, sym, ap, ◌∙◌, Bool, true, false, [], ◌∷◌, Option, none, some, arith, inl, inr,
  Bool-cases, Option-cases, ◌==◌, ◌||◌,
}
use mathlib.Core.Path.{fun_ext}
use qu_prolog.Dynamic.Key.{Index, Key, make_entry, is_empty}
use qu_prolog.Dynamic.Chain.{Block, Chain, add_to_chain, gc_chain}
use qu_prolog.Dynamic.Predicate.{
  DynamicPredicate, search_entry, copy_var_clauses, add_clause, gc_predicate, look_up_clause_chain,
  new_predicate,
}
use qu_prolog.Dynamic.Represents.{
  Clauses, fits, everything, blocks_of, add, remaining, blocks_of-add, blocks_of-add_yes,
  blocks_of-add_no, blocks_of-remaining, Sound, Represents,
}
use qu_prolog.Dynamic.Entries.{
  same_key_refl, Sound-search, search_of_hashed_chains, add_to_hashed_chains-Sound, set_entry-Sound,
  search_of_set_entry, blocks_of-other, gc_entries-Sound, search-gc_entries,
}

-- Where no clause fits a key, no clause has the empty key.
no_vars : (k : Key) (cs : Clauses) → blocks_of (fits k) cs ≡ [] → blocks_of is_empty cs ≡ []
unfolding blocks_of
no_vars k [] h = refl
no_vars k ((l, b) ∷ cs) h = ground (arith, no_vars k cs)

copied :
    (k : Key) (cs : Clauses) (p : DynamicPredicate)
    → (p.clause_arity == 0) ≡ false
    → Represents cs p
    → copy_var_clauses p.var_chain (search_entry k p.indexed_clauses) ≡ blocks_of (fits k) cs
unfolding copy_var_clauses
copied k cs p a r = go (search_entry k p.indexed_clauses) refl
  where
    go :
        (o : Option Chain)
        → search_entry k p.indexed_clauses ≡ o
        → copy_var_clauses p.var_chain o ≡ blocks_of (fits k) cs
    go none e = r.vars a ∙ sym (r.missing a k e)
    go (some []) e =
        let h = Sound-search cs p.indexed_clauses k [] (r.entries a) e in
        r.vars a ∙ no_vars k cs (sym h) ∙ h
    go (some (b ∷ c)) e = Sound-search cs p.indexed_clauses k (b ∷ c) (r.entries a) e

module _ (k : Key) (asserta : Bool) (b : ℕ) (cs : Clauses) (p : DynamicPredicate) where
  pub add_clause-Represents :
      Represents cs p → Represents (add asserta (k, b) cs) (add_clause k asserta b p)
  unfolding add_clause
  add_clause-Represents r =
      let all = ap (add_to_chain asserta b) r.all ∙ sym (blocks_of-add everything asserta k b cs) in
      elim (Bool-cases (p.clause_arity == 0)) [
        | inl a ↦ rw a (record { all = all; vars = λ h. cc; entries = λ h. cc; missing = λ h. cc })
        | inr a ↦ elim (Bool-cases (is_empty k)) [
          | inl e ↦
              rw (a, e)
                (record {
                  all = all;
                  vars = λ h.
                      ap (add_to_chain asserta b) (r.vars h)
                      ∙ sym (blocks_of-add_yes is_empty asserta k b cs e);
                  entries = λ h.
                      add_to_hashed_chains-Sound cs asserta k b p.indexed_clauses e (r.entries h);
                  missing = λ h l s.
                      let fit : fits l k ≡ true = ground (arith, e) in
                      blocks_of-add_yes (fits l) asserta k b cs fit
                      ∙ ap (add_to_chain asserta b)
                          (r.missing h l (search_of_hashed_chains cs asserta k b l _ s))
                      ∙ sym (blocks_of-add_yes is_empty asserta k b cs e);
                })
          | inr e ↦
              rw (a, e)
                (record {
                  all = all;
                  vars = λ h. r.vars h ∙ sym (blocks_of-add_no is_empty asserta k b cs e);
                  entries = λ h.
                      set_entry-Sound cs asserta k b _ p.indexed_clauses e
                        (ap (add_to_chain asserta b) (copied k cs p h r)
                          ∙ sym (
                              blocks_of-add_yes (fits k) asserta k b cs
                                (ground (arith, same_key_refl k))))
                        (r.entries h);
                  missing = λ h l s.
                      let (old, apart) =
                        search_of_set_entry cs asserta k b l _ p.indexed_clauses s in
                      blocks_of-other cs asserta k b l e apart
                      ∙ r.missing h l old
                      ∙ sym (blocks_of-add_no is_empty asserta k b cs e);
                })
        ]
      ]

pub new_predicate-Represents :
    (blocks : ℕ → Block) (next arity index : ℕ)
    → Represents [] (new_predicate blocks next arity index)
unfolding new_predicate blocks_of Sound
new_predicate-Represents blocks next arity index = record {
  all = refl;
  vars = λ h. refl;
  entries = λ h. tt;
  missing = λ h k s. refl;
}

pub gc_predicate-Represents :
    (time : ℕ) (cs : Clauses) (p : DynamicPredicate)
    → Represents cs p
    → Represents (remaining p.blocks time cs) (gc_predicate time p)
unfolding gc_predicate
gc_predicate-Represents time cs p r = record {
  all = ap (gc_chain p.blocks time) r.all ∙ sym (blocks_of-remaining everything p.blocks time cs);
  vars = λ h.
      ap (gc_chain p.blocks time) (r.vars h) ∙ sym (blocks_of-remaining is_empty p.blocks time cs);
  entries = λ h. gc_entries-Sound cs p.blocks time p.indexed_clauses (r.entries h);
  missing = λ h k s.
      blocks_of-remaining (fits k) p.blocks time cs
      ∙ ap (gc_chain p.blocks time)
          (r.missing h k ((search-gc_entries cs p.blocks time k p.indexed_clauses).0 s))
      ∙ sym (blocks_of-remaining is_empty p.blocks time cs);
}

-- The keys of the clauses that may match a call: all, if there are no arguments or the key of the
-- call is empty, and else the empty key and that of the call.
abbrev pub accepts : ℕ → Key → Key → Bool
accepts arity k l = arity == 0 || is_empty k || fits k l

blocks_of-ext :
    (f g : Key → Bool) (cs : Clauses) → ((l : Key) → f l ≡ g l) → blocks_of f cs ≡ blocks_of g cs
blocks_of-ext f g cs h = ap (λ (a : Key → Bool). blocks_of a cs) (fun_ext h)

pub look_up_clause_chain_lem :
    (arg : Index) (cs : Clauses) (p : DynamicPredicate)
    → Represents cs p
    → look_up_clause_chain arg p ≡ blocks_of (accepts p.clause_arity (make_entry arg)) cs
unfolding look_up_clause_chain
look_up_clause_chain_lem arg cs p r =
    let k = make_entry arg in
    let fitting : (p.clause_arity == 0) ≡ false
        → is_empty k ≡ false
        → blocks_of (fits k) cs ≡ blocks_of (accepts p.clause_arity k) cs =
      λ a e. blocks_of-ext (fits k) (accepts p.clause_arity k) cs (λ l. ground (arith, a, e)) in
    elim (Bool-cases (p.clause_arity == 0)) [
      | inl a ↦ rw a (r.all ∙ blocks_of-ext everything _ cs (λ l. ground (arith, a)))
      | inr a ↦ elim (Bool-cases (is_empty k)) [
        | inl e ↦ rw (a, e) (r.all ∙ blocks_of-ext everything _ cs (λ l. ground (arith, a, e)))
        | inr e ↦ elim (Option-cases (search_entry k p.indexed_clauses)) [
          | inl s ↦ rw (a, e, s) (r.vars a ∙ sym (r.missing a k s) ∙ fitting a e)
          | inr (c, s) ↦
              rw (a, e, s) (Sound-search cs p.indexed_clauses k c (r.entries a) s ∙ fitting a e)
        ]
      ]
    ]
