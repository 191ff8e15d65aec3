-- ===== src/Dynamic/Live.antt =====
-- The clauses of a dynamic predicate that are alive (src/dynamic_code.h), and what asserting a
-- clause and releasing the predicate leave as it is (src/dyn_code.cc).
use qu_prolog.Base.{
  ℕ, ◌+◌, ◌-◌, ◌≤◌, ◌<◌, ◌≡◌, refl, ap, ◌∙◌, Bool, true, false, [], ◌∷◌, ◌++◌, arith, inl, inr,
  Bool-cases, if◌then◌else◌, ◌==◌, update, ◌&&◌,
}
use mathlib.Core.List.{append-nil}
use qu_prolog.Base.Int.{word32}
use qu_prolog.Dynamic.Key.{Index, Key, make_entry, is_empty}
use qu_prolog.Dynamic.Chain.{Block, Chain, never, set_delete, is_alive}
use qu_prolog.Dynamic.Predicate.{DynamicPredicate, add_clause, assert_clause, psi_assert, release}
use qu_prolog.Dynamic.Represents.{Clauses, blocks_of, add, Represents, same_chains}
use qu_prolog.Dynamic.Upkeep.{add_clause-Represents, look_up_clause_chain_lem, accepts}
use qu_prolog.Dynamic.Views.{alive_in, view}

-- The blocks of the clauses have been made.
abbrev pub Made : ℕ → Clauses → Type 0
Made n [] = Unit
Made n ((k, b) ∷ cs) = (b < n) × Made n cs

pub Made-append : (n : ℕ) (cs ds : Clauses) → Made n cs → Made n ds → Made n (cs ++ ds)
Made-append n [] ds h k = k
Made-append n ((l, b) ∷ cs) ds h k = (h.0, Made-append n cs ds h.1 k)

pub Made-le : (n m : ℕ) (cs : Clauses) → n ≤ m → Made n cs → Made m cs
Made-le n m [] h k = tt
Made-le n m ((l, b) ∷ cs) h k = (omega arith, Made-le n m cs h k.1)

pub Made-add :
    (n : ℕ) (asserta : Bool) (k : Key) (cs : Clauses)
    → Made n cs
    → Made (n + 1) (add asserta (k, n) cs)
unfolding add
Made-add n true k cs h = (omega arith, Made-le n (n + 1) cs (omega arith) h)
Made-add n false k cs h =
    Made-append (n + 1) cs ((k, n) ∷ []) (Made-le n (n + 1) cs (omega arith) h) (omega arith, tt)

-- The clauses that are alive, of those that `accept` takes.
unfoldable pub live : (ℕ → Block) → ℕ → (Key → Bool) → Clauses → Chain
live blocks time accept [] = []
live blocks time accept ((k, b) ∷ cs) =
    let rest = live blocks time accept cs in
    if accept k && is_alive time (blocks b) then b ∷ rest else rest

pub alive_in-blocks_of :
    (blocks : ℕ → Block) (time : ℕ) (accept : Key → Bool) (cs : Clauses)
    → alive_in blocks time (blocks_of accept cs) ≡ live blocks time accept cs
unfolding alive_in blocks_of live
alive_in-blocks_of blocks time accept [] = refl
alive_in-blocks_of blocks time accept ((k, b) ∷ cs) =
    ground (arith, alive_in-blocks_of blocks time accept cs)

pub live-append :
    (blocks : ℕ → Block) (time : ℕ) (accept : Key → Bool) (cs ds : Clauses)
    → live blocks time accept (cs ++ ds) ≡ live blocks time accept cs ++ live blocks time accept ds
unfolding live
live-append blocks time accept [] ds = refl
live-append blocks time accept ((k, b) ∷ cs) ds =
    ground (arith, live-append blocks time accept cs ds)

pub live-same :
    (before after : ℕ → Block) (time n : ℕ) (accept : Key → Bool) (cs : Clauses)
    → ((b : ℕ) → b < n → is_alive time (after b) ≡ is_alive time (before b))
    → Made n cs
    → live after time accept cs ≡ live before time accept cs
unfolding live
live-same before after time n accept [] h m = refl
live-same before after time n accept ((k, b) ∷ cs) h m =
    ground (arith, h b m.0, live-same before after time n accept cs h m.1)

pub live-add :
    (blocks : ℕ → Block) (time : ℕ) (accept : Key → Bool) (asserta : Bool) (k : Key) (b : ℕ)
    (cs : Clauses)
    → is_alive time (blocks b) ≡ false
    → live blocks time accept (add asserta (k, b) cs) ≡ live blocks time accept cs
unfolding add live
live-add blocks time accept true k b cs h = ground arith
live-add blocks time accept false k b cs h =
    live-append blocks time accept cs ((k, b) ∷ [])
    ∙ ground (arith, append-nil (live blocks time accept cs))

pub view-live :
    (arg : Index) (time : ℕ) (p : DynamicPredicate) (cs : Clauses)
    → Represents cs p
    → view arg time p ≡ live p.blocks time (accepts p.clause_arity (make_entry arg)) cs
unfolding view
view-live arg time p cs r =
    ap (alive_in p.blocks time) (look_up_clause_chain_lem arg cs p r)
    ∙ alive_in-blocks_of p.blocks time (accepts p.clause_arity (make_entry arg)) cs

module _ (k : Key) (asserta : Bool) (b : ℕ) (p : DynamicPredicate) where
  add_clause_frame :
      ((add_clause k asserta b p).blocks ≡ p.blocks)
      × ((add_clause k asserta b p).next_block ≡ p.next_block)
      × ((add_clause k asserta b p).clause_arity ≡ p.clause_arity)
      × ((add_clause k asserta b p).stamp ≡ p.stamp)
  unfolding add_clause
  add_clause_frame = elim (Bool-cases (p.clause_arity == 0)) [
    | inl a ↦ rw a (refl, refl, refl, refl)
    | inr a ↦ elim (Bool-cases (is_empty k)) [
      | inl e ↦ rw (a, e) (refl, refl, refl, refl)
      | inr e ↦ rw (a, e) (refl, refl, refl, refl)
    ]
  ]

pub word32-small : (n : ℕ) → n < never → word32 n ≡ n
word32-small n h = omega arith

pub alive_of_asserted :
    (blocks : ℕ → Block) (n time b : ℕ) (new : Block)
    → b < n
    → is_alive time (update blocks n new b) ≡ is_alive time (blocks b)
alive_of_asserted blocks n time b new h = ground arith

pub not_yet :
    (time stamp code : ℕ)
    → time ≤ stamp
    → stamp + 1 < never
    → is_alive time (record { created = word32 (stamp + 1); deleted = never; code = code }) ≡ false
unfolding is_alive
not_yet time stamp code h k = ground (arith, word32-small (stamp + 1) (omega arith))

pub alive_of_retracted :
    (blocks : ℕ → Block) (time stamp b c : ℕ)
    → (blocks b).deleted ≡ never
    → time ≤ stamp
    → stamp + 1 < never
    → is_alive time (update blocks b (set_delete (word32 (stamp + 1)) (blocks b)) c)
      ≡ is_alive time (blocks c)
unfolding is_alive set_delete
alive_of_retracted blocks time stamp b c d h k =
    rw (word32-small (stamp + 1) (omega arith)) (ground (arith, d))

module _ (arg : Index) (code : ℕ) (asserta : Bool) (p : DynamicPredicate) where
  pub psi_assert-Represents :
      (cs : Clauses)
      → Represents cs p
      → Represents (add asserta (make_entry arg, p.next_block) cs) (psi_assert arg code asserta p)
  unfolding psi_assert assert_clause
  psi_assert-Represents cs r =
      let s =
        add_clause-Represents (make_entry arg) asserta p.next_block cs _
          (same_chains _ _ _ _ _ _ _ r) in
      same_chains _ _ _ _ _ _ _ s

  pub psi_assert_frame :
      let b : Block = record { created = word32 (p.stamp + 1); deleted = never; code = code } in
      ((psi_assert arg code asserta p).blocks ≡ update p.blocks p.next_block b)
      × ((psi_assert arg code asserta p).next_block ≡ p.next_block + 1)
      × ((psi_assert arg code asserta p).clause_arity ≡ p.clause_arity)
      × ((psi_assert arg code asserta p).stamp ≡ word32 (p.stamp + 1))
  unfolding psi_assert assert_clause
  psi_assert_frame =
      let f = add_clause_frame (make_entry arg) asserta p.next_block _ in
      (f.0, f.1, f.2, ap (λ s. word32 (s + 1)) f.3)

pub alive_in-same :
    (before after : ℕ → Block) (time : ℕ) (c : Chain)
    → ((b : ℕ) → is_alive time (after b) ≡ is_alive time (before b))
    → alive_in after time c ≡ alive_in before time c
unfolding alive_in
alive_in-same before after time [] h = refl
alive_in-same before after time (b ∷ c) h = ground (arith, h b, alive_in-same before after time c h)

pub release-held :
    (p : DynamicPredicate) → 1 < p.refcount → release p ≡ record p { refcount = p.refcount - 1 }
unfolding release
release-held p h = let shared : (p.refcount - 1 == 0) ≡ false = ground arith in rw shared refl
