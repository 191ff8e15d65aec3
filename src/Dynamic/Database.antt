-- ===== src/Dynamic/Database.antt =====
-- A dynamic predicate (src/dynamic_code.cc, src/dyn_code.cc) as a list of clauses: what its chains,
-- stamps, holders and collections come to.
use qu_prolog.Base.{
  ℕ, ◌+◌, ◌-◌, ◌%◌, ◌^◌, ◌≤◌, ◌<◌, ◌≡◌, refl, sym, ap, ◌∙◌, subst, Bool, true, false, List, [], ◌∷◌,
  arith, inl, inr, Bool-cases, if◌then◌else◌, ◌==◌, update, ◌&&◌, length,
}
use mathlib.Core.List.{append-nil}
use qu_prolog.Base.Int.{word32}
use qu_prolog.Dynamic.Key.{Index, Key, make_entry}
use qu_prolog.Dynamic.Chain.{
  Block, Chain, never, set_delete, is_alive, to_delete, add_to_chain, add_to_chain_start,
  add_to_chain_end,
}
use qu_prolog.Dynamic.Predicate.{
  DynamicPredicate, psi_assert, psi_retract, acquire, release, gc_predicate, new_predicate,
}
use qu_prolog.Dynamic.Represents.{
  Clauses, blocks_of, blocks_of-add, add, remaining, Represents, same_chains,
}
use qu_prolog.Dynamic.Upkeep.{gc_predicate-Represents, new_predicate-Represents, accepts}
use qu_prolog.Dynamic.Views.{view}
use qu_prolog.Dynamic.Live.{
  Made, Made-add, live, live-append, live-same, view-live, word32-small, alive_of_asserted,
  psi_assert-Represents, psi_assert_frame,
}

pub data Operation : Type 0 where
  assert : (arg : Index) (code : ℕ) (asserta : Bool) → Operation
  retract : (b : ℕ) → Operation
  hold let_go : Operation

unfoldable pub perform : List Operation → DynamicPredicate → DynamicPredicate
perform [] p = p
perform (assert arg code asserta ∷ os) p = perform os (psi_assert arg code asserta p)
perform (retract b ∷ os) p = perform os (psi_retract b p)
perform (hold ∷ os) p = perform os (acquire p)
perform (let_go ∷ os) p = perform os (release p)

-- The clauses without a block.
unfoldable pub remove : ℕ → Clauses → Clauses
remove b [] = []
remove b ((k, a) ∷ cs) = let rest = remove b cs in if a == b then rest else (k, a) ∷ rest

-- What the operations mean: the database is the list of clauses, and `next` numbers the next one.
unfoldable pub meaning : List Operation → ℕ → Clauses → Clauses
meaning [] next db = db
meaning (assert arg code asserta ∷ os) next db =
    meaning os (next + 1) (add asserta (make_entry arg, next) db)
meaning (retract b ∷ os) next db = meaning os next (remove b db)
meaning (hold ∷ os) next db = meaning os next db
meaning (let_go ∷ os) next db = meaning os next db

drop : ℕ → Chain → Chain
drop b [] = []
drop b (a ∷ c) = let rest = drop b c in if a == b then rest else a ∷ rest

drop-blocks_of :
    (accept : Key → Bool) (b : ℕ) (cs : Clauses)
    → drop b (blocks_of accept cs) ≡ blocks_of accept (remove b cs)
unfolding drop blocks_of remove
drop-blocks_of accept b [] = refl
drop-blocks_of accept b ((k, a) ∷ cs) = ground (arith, drop-blocks_of accept b cs)

drop-live :
    (accept : Key → Bool) (blocks : ℕ → Block) (now time b : ℕ) (cs : Clauses)
    → now ≤ time
    → live (update blocks b (set_delete now (blocks b))) time accept cs
      ≡ drop b (live blocks time accept cs)
unfolding drop live is_alive set_delete
drop-live accept blocks now time b [] h = refl
drop-live accept blocks now time b ((k, a) ∷ cs) h =
    ground (arith, drop-live accept blocks now time b cs h)

live-remaining :
    (accept : Key → Bool) (blocks : ℕ → Block) (now time : ℕ) (cs : Clauses)
    → now ≤ time
    → live blocks time accept (remaining blocks now cs) ≡ live blocks time accept cs
unfolding live remaining is_alive to_delete
live-remaining accept blocks now time [] h = refl
live-remaining accept blocks now time ((k, a) ∷ cs) h =
    ground (arith, live-remaining accept blocks now time cs h)

live-add_alive :
    (blocks : ℕ → Block) (time : ℕ) (accept : Key → Bool) (asserta : Bool) (k : Key) (b : ℕ)
    (cs : Clauses)
    → is_alive time (blocks b) ≡ true
    → live blocks time accept (add asserta (k, b) cs) ≡ (
        if accept k
        then add_to_chain asserta b (live blocks time accept cs)
        else live blocks time accept cs)
unfolding add live add_to_chain add_to_chain_start add_to_chain_end
live-add_alive blocks time accept true k b cs h = ground arith
live-add_alive blocks time accept false k b cs h =
    live-append blocks time accept cs ((k, b) ∷ [])
    ∙ ground (arith, append-nil (live blocks time accept cs))

Made-remaining :
    (n : ℕ) (blocks : ℕ → Block) (time : ℕ) (cs : Clauses)
    → Made n cs
    → Made n (remaining blocks time cs)
unfolding remaining
Made-remaining n blocks time [] h = tt
Made-remaining n blocks time ((k, b) ∷ cs) h =
    let rest = Made-remaining n blocks time cs h.1 in
    elim (Bool-cases (to_delete time (blocks b))) [ inl e ↦ rw e rest | inr e ↦ rw e (h.0, rest) ]

-- The chains stand for some clauses, of which those alive from now on are the database.
record Holds (arity next : ℕ) (db : Clauses) (p : DynamicPredicate) : Type 0 where
  clauses : Clauses
  represents : Represents clauses p
  made : Made next clauses
  number : p.next_block ≡ next
  arguments : p.clause_arity ≡ arity
  sees :
      (accept : Key → Bool) (time : ℕ)
      → p.stamp ≤ time
      → time < never
      → live p.blocks time accept clauses ≡ blocks_of accept db

asserted-alive :
    (time stamp code : ℕ)
    → word32 (stamp + 1) ≤ time
    → time < never
    → is_alive time (record { created = word32 (stamp + 1); deleted = never; code = code }) ≡ true
unfolding is_alive
asserted-alive time stamp code h k = ground (arith, h, k)

module _ (arity next : ℕ) (db : Clauses) (p : DynamicPredicate) where
  psi_assert-Holds :
      (arg : Index) (code : ℕ) (asserta : Bool)
      → p.stamp + 1 < never
      → Holds arity next db p
      → Holds arity
          (next + 1)
          (add asserta (make_entry arg, next) db)
          (psi_assert arg code asserta p)
  psi_assert-Holds arg code asserta l h =
      let k = make_entry arg in
      let b : Block = record { created = word32 (p.stamp + 1); deleted = never; code = code } in
      let f = psi_assert_frame arg code asserta p in
      record {
        clauses = add asserta (k, next) h.clauses;
        represents =
            subst (λ n. Represents (add asserta (k, n) h.clauses) (psi_assert arg code asserta p))
              h.number (psi_assert-Represents arg code asserta p h.clauses h.represents);
        made = Made-add next asserta k h.clauses h.made;
        number = omega (arith, f.1, h.number);
        arguments = f.2 ∙ h.arguments;
        sees = λ accept time g u.
            let after : (psi_assert arg code asserta p).blocks ≡ update p.blocks next b =
              f.0 ∙ ap (λ n. update p.blocks n b) h.number in
            let alive : is_alive time (update p.blocks next b next) ≡ true =
              ground (arith, asserted-alive time p.stamp code (omega (arith, f.3)) u) in
            let same : live (update p.blocks next b) time accept h.clauses ≡ blocks_of accept db =
              live-same p.blocks _ time next accept h.clauses
                (λ a s. alive_of_asserted p.blocks next time a b s) h.made
              ∙ h.sees accept time (omega (arith, f.3, word32-small (p.stamp + 1) l)) u in
            rw after (live-add_alive _ time accept asserta k next h.clauses alive)
            ∙ ap (λ c. if accept k then add_to_chain asserta next c else c) same
            ∙ sym (blocks_of-add accept asserta k next db);
      }

  psi_retract-Holds :
      (b : ℕ)
      → p.stamp + 1 < never
      → Holds arity next db p
      → Holds arity next (remove b db) (psi_retract b p)
  unfolding psi_retract
  psi_retract-Holds b l h = record {
    clauses = h.clauses;
    represents = same_chains _ _ _ _ _ _ _ h.represents;
    made = h.made;
    number = h.number;
    arguments = h.arguments;
    sees = λ accept time g u.
        drop-live accept p.blocks (word32 (p.stamp + 1)) time b h.clauses g
        ∙ ap (drop b) (h.sees accept time (omega (arith, word32-small (p.stamp + 1) l)) u)
        ∙ drop-blocks_of accept b db;
  }

  acquire-Holds : Holds arity next db p → Holds arity next db (acquire p)
  unfolding acquire
  acquire-Holds h = record {
    clauses = h.clauses;
    represents = same_chains _ _ _ _ _ _ _ h.represents;
    made = h.made;
    number = h.number;
    arguments = h.arguments;
    sees = h.sees;
  }

  gc_predicate-Holds : Holds arity next db p → Holds arity next db (gc_predicate p.stamp p)
  unfolding gc_predicate
  gc_predicate-Holds h = record {
    clauses = remaining p.blocks p.stamp h.clauses;
    represents = gc_predicate-Represents p.stamp h.clauses p h.represents;
    made = Made-remaining next p.blocks p.stamp h.clauses h.made;
    number = h.number;
    arguments = h.arguments;
    sees = λ accept time g u.
        live-remaining accept p.blocks p.stamp time h.clauses g ∙ h.sees accept time g u;
  }

release-Holds :
    (arity next : ℕ) (db : Clauses) (p : DynamicPredicate)
    → Holds arity next db p
    → Holds arity next db (release p)
unfolding release
release-Holds arity next db p h =
    let q = record p { refcount = p.refcount - 1 } in
    let held : Holds arity next db q = record {
      clauses = h.clauses;
      represents = same_chains _ _ _ _ _ _ _ h.represents;
      made = h.made;
      number = h.number;
      arguments = h.arguments;
      sees = h.sees;
    } in
    elim (Bool-cases (q.refcount == 0 && q.dirty)) [
      | inl e ↦ rw e (gc_predicate-Holds arity next db q held)
      | inr e ↦ rw e held
    ]

release_stamp : (p : DynamicPredicate) → (release p).stamp ≡ p.stamp
unfolding release gc_predicate
release_stamp p = elim (Bool-cases (p.refcount - 1 == 0 && p.dirty)) [
  | inl e ↦ rw e refl
  | inr e ↦ rw e refl
]

view-Holds :
    (arg : Index) (arity next : ℕ) (db : Clauses) (p : DynamicPredicate)
    → p.stamp < never
    → Holds arity next db p
    → view arg p.stamp p ≡ blocks_of (accepts arity (make_entry arg)) db
view-Holds arg arity next db p l h =
    view-live arg p.stamp p h.clauses h.represents
    ∙ h.sees (accepts p.clause_arity (make_entry arg)) p.stamp (omega arith) l
    ∙ ap (λ n. blocks_of (accepts n (make_entry arg)) db) h.arguments

view-perform-Holds :
    (os : List Operation) (arg : Index) (arity next : ℕ) (db : Clauses) (p : DynamicPredicate)
    → Holds arity next db p
    → p.stamp + length os < never
    → view arg (perform os p).stamp (perform os p)
      ≡ blocks_of (accepts arity (make_entry arg)) (meaning os next db)
unfolding perform meaning
view-perform-Holds [] arg arity next db p h l = view-Holds arg arity next db p (omega arith) h
view-perform-Holds (assert other code asserta ∷ os) arg arity next db p h l =
    let f = psi_assert_frame other code asserta p in
    view-perform-Holds os arg arity _ _ _
      (psi_assert-Holds arity next db p other code asserta (omega arith) h)
      (omega (arith, f.3, word32-small (p.stamp + 1) (omega arith)))
view-perform-Holds (retract b ∷ os) arg arity next db p h l =
    view-perform-Holds os arg arity _ _ _ (psi_retract-Holds arity next db p b (omega arith) h)
      (unfold psi_retract in omega (arith, word32-small (p.stamp + 1) (omega arith)))
view-perform-Holds (hold ∷ os) arg arity next db p h l =
    view-perform-Holds os arg arity _ _ _ (acquire-Holds arity next db p h)
      (unfold acquire in omega arith)
view-perform-Holds (let_go ∷ os) arg arity next db p h l =
    view-perform-Holds os arg arity _ _ _ (release-Holds arity next db p h)
      (omega (arith, release_stamp p))

-- A dynamic predicate is a list of clauses: after any operations on a new predicate, a call at the
-- predicate's stamp sees those clauses of the list whose key is empty or the call's (all of them,
-- where the call's key is empty or the predicate has no arguments, whose number is kept in a byte), in their order, where
-- asserting adds a clause at the start or at the end, retracting removes one, and taking hold and
-- letting go, with the collections that this starts, leave the list as it is. The stamps have to
-- stay below the greatest 32-bit number.
pub view-perform :
    (os : List Operation) (arg : Index) (blocks : ℕ → Block) (next arity index : ℕ)
    → length os + 1 < never
    → let p = perform os (new_predicate blocks next arity index) in
      view arg p.stamp p ≡ blocks_of (accepts (arity % 2 ^ 8) (make_entry arg)) (meaning os next [])
unfolding new_predicate
view-perform os arg blocks next arity index l =
    view-perform-Holds os arg (arity % 2 ^ 8) next [] (new_predicate blocks next arity index)
      (record {
        clauses = [];
        represents = new_predicate-Represents blocks next arity index;
        made = tt;
        number = refl;
        arguments = refl;
        sees = λ accept time g u. unfold live blocks_of in refl;
      })
      (omega arith)
