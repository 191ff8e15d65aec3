-- ===== src/Dynamic/Runs.antt =====
-- Sequences of assertions, retractions and calls on a dynamic predicate (src/dyn_code.cc).
use qu_prolog.Base.{ℕ, ◌+◌, ◌≤◌, ◌<◌, ◌≡◌, refl, sym, ◌∙◌, subst, Bool, false, [], arith, update}
use qu_prolog.Base.Int.{word32}
use qu_prolog.Dynamic.Key.{Index, make_entry}
use qu_prolog.Dynamic.Chain.{Block, never, is_alive}
use qu_prolog.Dynamic.Predicate.{
  DynamicPredicate, psi_assert, psi_retract, acquire, release, look_up_clause_chain, new_predicate,
}
use qu_prolog.Dynamic.Represents.{Clauses, add, Represents, same_chains}
use qu_prolog.Dynamic.Upkeep.{new_predicate-Represents, accepts}
use qu_prolog.Dynamic.Views.{view}
use qu_prolog.Dynamic.Live.{
  Made, Made-add, live-same, live-add, view-live, word32-small, alive_of_asserted, not_yet,
  alive_of_retracted, alive_in-same, release-held, psi_assert-Represents, psi_assert_frame,
}

-- What may happen while a call is under way. The stamps stay below 32 bits; a clause is retracted
-- once; other calls hold the predicate and let it go again.
pub data Step : DynamicPredicate → DynamicPredicate → Type 0 where
  assert :
      {p : DynamicPredicate} (arg : Index) (code : ℕ) (asserta : Bool)
      → p.stamp + 1 < never
      → Step p (psi_assert arg code asserta p)
  retract :
      {p : DynamicPredicate} (b : ℕ)
      → (p.blocks b).deleted ≡ never
      → p.stamp + 1 < never
      → Step p (psi_retract b p)
  hold : {p : DynamicPredicate} → Step p (acquire p)
  let_go : {p : DynamicPredicate} → 1 < p.refcount → Step p (release p)

pub data Run (p : DynamicPredicate) : DynamicPredicate → Type 0 where
  here : Run p p
  next : {q r : DynamicPredicate} → Run p q → Step q r → Run p r

-- A predicate whose chains stand for some clauses.
pub record Consistent (p : DynamicPredicate) : Type 0 where
  pub clauses : Clauses
  pub represents : Represents clauses p
  pub made : Made p.next_block clauses

module _ (arg : Index) (time : ℕ) (p : DynamicPredicate) where
  view-psi_assert :
      (other : Index) (code : ℕ) (asserta : Bool) (c : Consistent p)
      → time ≤ p.stamp
      → p.stamp + 1 < never
      → view arg time (psi_assert other code asserta p) ≡ view arg time p
  view-psi_assert other code asserta c h k =
      let n = p.next_block in
      let cs = add asserta (make_entry other, n) c.clauses in
      let b : Block = record { created = word32 (p.stamp + 1); deleted = never; code = code } in
      let fresh : is_alive time (update p.blocks n b n) ≡ false =
        ground (arith, not_yet time p.stamp code h k) in
      let accept = accepts p.clause_arity (make_entry arg) in
      let f = psi_assert_frame other code asserta p in
      view-live arg time _ cs (psi_assert-Represents other code asserta p c.clauses c.represents)
      ∙ rw (f.0, f.2)
          (live-add (update p.blocks n b) time accept asserta (make_entry other) n c.clauses fresh
            ∙ live-same p.blocks (update p.blocks n b) time n accept c.clauses
                (λ a l. alive_of_asserted p.blocks n time a b l) c.made)
      ∙ sym (view-live arg time p c.clauses c.represents)

  view-psi_retract :
      (b : ℕ)
      → (p.blocks b).deleted ≡ never
      → time ≤ p.stamp
      → p.stamp + 1 < never
      → view arg time (psi_retract b p) ≡ view arg time p
  unfolding view psi_retract look_up_clause_chain
  view-psi_retract b d h k =
      alive_in-same p.blocks _ time (look_up_clause_chain arg p)
        (λ a. alive_of_retracted p.blocks time p.stamp b a d h k)

Step-Consistent : {p q : DynamicPredicate} → Step p q → Consistent p → Consistent q
unfolding psi_retract acquire
Step-Consistent {p} (assert arg code asserta k) c =
    let cs = add asserta (make_entry arg, p.next_block) c.clauses in
    record {
      clauses = cs;
      represents = psi_assert-Represents arg code asserta p c.clauses c.represents;
      made =
          subst (λ m. Made m cs) (sym (psi_assert_frame arg code asserta p).1)
            (Made-add p.next_block asserta (make_entry arg) c.clauses c.made);
    }
Step-Consistent (retract b d k) c = record {
  clauses = c.clauses;
  represents = same_chains _ _ _ _ _ _ _ c.represents;
  made = c.made;
}
Step-Consistent hold c = record {
  clauses = c.clauses;
  represents = same_chains _ _ _ _ _ _ _ c.represents;
  made = c.made;
}
Step-Consistent {p} (let_go h) c = rw (release-held p h) (record {
  clauses = c.clauses;
  represents = same_chains _ _ _ _ _ _ _ c.represents;
  made = c.made;
})

Step-view :
    (arg : Index) (time : ℕ) {p q : DynamicPredicate}
    → Step p q
    → Consistent p
    → time ≤ p.stamp
    → (p.stamp ≤ q.stamp) × (view arg time q ≡ view arg time p)
Step-view arg time {p} (assert other code asserta k) c h = (
  omega
      (arith, (psi_assert_frame other code asserta p).3, word32-small (p.stamp + 1) (omega arith)),
  view-psi_assert arg time p other code asserta c h k,
)
Step-view arg time {p} (retract b d k) c h = (
  unfold psi_retract in omega (arith, word32-small (p.stamp + 1) (omega arith)),
  view-psi_retract arg time p b d h k,
)
Step-view arg time hold c h = unfold acquire view look_up_clause_chain in (omega arith, refl)
Step-view arg time {p} (let_go k) c h =
    rw (release-held p k) (unfold view look_up_clause_chain in (omega arith, refl))

pub Run-Consistent : {p q : DynamicPredicate} → Run p q → Consistent p → Consistent q
Run-Consistent here c = c
Run-Consistent (next r s) c = Step-Consistent s (Run-Consistent r c)

Run-stamp :
    (arg : Index) (time : ℕ) {p q : DynamicPredicate}
    → Run p q
    → Consistent p
    → time ≤ p.stamp
    → time ≤ q.stamp
Run-stamp arg time here c h = h
Run-stamp arg time (next r s) c h =
    let before = Run-stamp arg time r c h in
    omega (arith, (Step-view arg time s (Run-Consistent r c) before).0)

-- The logical update view: whatever clauses are asserted and retracted while a call is under way,
-- those that the call sees stay the same, in the same order. The predicate's chains stand for a
-- list of clauses made before, the time of the call is not after the predicate's stamp, and of the
-- run: stamps stay below the greatest 32-bit number, no clause is retracted twice, and the
-- predicate stays held.
pub view-Run :
    (arg : Index) (time : ℕ) {p q : DynamicPredicate}
    → Run p q
    → Consistent p
    → time ≤ p.stamp
    → view arg time q ≡ view arg time p
view-Run arg time here c h = refl
view-Run arg time (next r s) c h =
    (Step-view arg time s (Run-Consistent r c) (Run-stamp arg time r c h)).1
    ∙ view-Run arg time r c h

pub new_predicate-Consistent :
    (blocks : ℕ → Block) (next arity index : ℕ) → Consistent (new_predicate blocks next arity index)
new_predicate-Consistent blocks n arity index = record {
  clauses = [];
  represents = new_predicate-Represents blocks n arity index;
  made = tt;
}
