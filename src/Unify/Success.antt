-- ===== src/Unify/Success.antt =====
-- What `Thread::unify` of src/unify.cc guarantees as a whole: it makes equal what can be made
-- equal, keeps memory well laid out, and is undone by backtracking.
use qu_prolog.Base.{ℕ, ◌≤◌, ◌≡◌, Bool, true, false, arith}
use qu_prolog.Machine.{Machine, save_heap_and_trails, backtrack_to}
use qu_prolog.Machine.Steps.{new_choice, Run}
use qu_prolog.Machine.Backtrack.{Restores, backtrack_to-Restores}
use qu_prolog.Unify.{Outcome, done, beyond, overflow, no_fuel, unify}
use qu_prolog.Unify.Solution.{Tree, Layout, Solves, Foreign}
use qu_prolog.Unify.Correct.{Reached, Exhausts, Correct}
use qu_prolog.Unify.Unifier.{outcome-Correct, unify-Solves, unify-fails}
use qu_prolog.Unify.Inside.{size}
use qu_prolog.Unify.Settles.{Good, Chained}
use qu_prolog.Unify.Total.{unify-Settles}

-- A success that keeps the solution; or memory holds an object that is left to other functions; or
-- the exit because a machine is reached whose trail is full.
abbrev pub Succeeds : (ℕ → Bool) → (ℕ → Bool) → Machine → (ℕ → Tree) → Outcome → Type 0
Succeeds object is_cell m σ (done true m') = Solves object σ m'.store.word
Succeeds object is_cell m σ (done false m') = ⊥
Succeeds object is_cell m σ beyond = Foreign object m.store.word
Succeeds object is_cell m σ overflow = Exhausts object is_cell m
Succeeds object is_cell m σ no_fuel = ⊥

module _ (object is_cell : ℕ → Bool) (checks : Bool) (m : Machine) (a b : ℕ)
    (l : Layout object is_cell m) (oa : object a ≡ true) (ob : object b ≡ true) where
  -- In memory that is laid out as the classes of objects say and whose chains of references
  -- end, let two terms have a unifier: a solution of memory in finite trees that makes them equal.
  -- Then there is an amount of fuel from which on unification has one and the same outcome, and
  -- this is a success after which that unifier still solves memory, unless memory holds an object
  -- variable, a quantified term, a substitution or a variable with extra information, or a machine
  -- is reached whose trail is full.
  pub unify-Succeeds :
      Chained object is_cell m
      → (σ : ℕ → Tree) → Solves object σ m.store.word
      → σ a ≡ σ b
      → (o : Outcome) × (enough : ℕ) × ((f : ℕ) → enough ≤ f → unify checks f m a b ≡ o)
        × Succeeds object is_cell m σ o
  unify-Succeeds cs σ s e =
      let r =
        unify-Settles object is_cell checks σ (size (σ a)) m a b l cs s oa ob e (omega arith) in
      (
        r.outcome,
        r.enough,
        r.reached,
        judge r.outcome r.enough (r.reached r.enough (omega arith)) r.good,
      )
    where
      judge :
          (o : Outcome) (f : ℕ)
          → unify checks f m a b ≡ o
          → Good (Chained object is_cell) o
          → Succeeds object is_cell m σ o
      judge (done true m') f h g =
          (unify-Solves object is_cell checks f m m' a b l oa ob h σ).1 (s, e)
      judge (done false m') f h g = unify-fails object is_cell checks f m m' a b l oa ob h σ s e
      judge beyond f h g = outcome-Correct object is_cell checks f m a b l oa ob beyond h
      judge overflow f h g = outcome-Correct object is_cell checks f m a b l oa ob overflow h
      judge no_fuel f h g = g

module _ (object is_cell : ℕ → Bool) (checks : Bool) (fuel : ℕ) (m : Machine) (r : Bool)
    (m' : Machine) (a b : ℕ) (l : Layout object is_cell m) (oa : object a ≡ true)
    (ob : object b ≡ true) (h : unify checks fuel m a b ≡ done r m') where
  reached : Reached object is_cell m m'
  reached = go r (outcome-Correct object is_cell checks fuel m a b l oa ob (done r m') h)
    where
      go :
          (r : Bool)
          → Correct object is_cell m (λ σ. σ a ≡ σ b) (done r m')
          → Reached object is_cell m m'
      go true c = c.0
      go false c = c.0

  -- Whether it succeeds or fails, unification leaves memory laid out as the classes of objects say,
  -- and changes no word but references of variables and object variables.
  pub unify-Layout :
      Layout object is_cell m' × ((x : ℕ) → is_cell x ≡ false → m'.store.word x ≡ m.store.word x)
  unify-Layout = (reached.layout, reached.frame)

  pub unify-Run : Run is_cell m m'
  unify-Run = reached.run

module _ (object is_cell : ℕ → Bool) (checks : Bool) (fuel : ℕ) (m : Machine) (r : Bool)
    (m' : Machine) (a b : ℕ) where
  -- After a choice point is made on the machine `m`, whose saved top is not above its top, and
  -- unification has then run on two objects of memory that is well laid out, with a success or a
  -- failure, backtracking gives back every word below the heap's top, the reference counts, both
  -- trails and the heap's tops.
  pub backtrack_to-unify :
      m.saved_top ≤ m.next
      → Layout object is_cell (new_choice m)
      → object a ≡ true
      → object b ≡ true
      → unify checks fuel (new_choice m) a b ≡ done r m'
      → Restores m (backtrack_to (save_heap_and_trails m).0 m')
  backtrack_to-unify saved l oa ob h =
      backtrack_to-Restores is_cell m m' saved
        (unify-Run object is_cell checks fuel (new_choice m) r m' a b l oa ob h)
