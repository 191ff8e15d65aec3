-- ===== src/Unify/Decide.antt =====
-- The cases of `Thread::unify` of src/unify.cc end, also those that fail, if every variable has
-- its occurs check on.
use qu_prolog.Base.{
  ℕ, suc, ◌≤◌, ◌<◌, ◌≡◌, ◌≢◌, ◌⊎◌, refl, sym, ap, ◌∙◌, subst, Bool, true, false, ◌&&◌, arith, inl,
  inr, List,
}
use qu_prolog.Machine.{Machine, bind_and_trail}
use qu_prolog.Unify.{
  Outcome, done, beyond, no_fuel, Action, answer, bind, bind_both, bind_checked, compare_constants,
  leave, action, bound, bind_with_check, carry_out, unify,
}
use qu_prolog.Unify.Check.{Occurrence, occurs_check}
use qu_prolog.Unify.Object.{
  Kind, UnifyClass, var, var_oc, number, structure, cons, other, kind, unify_class,
  is_occurs_checked, equal_uninterp,
}
use qu_prolog.Unify.Solution.{Tree}
use qu_prolog.Unify.Reads.{Ends}
use qu_prolog.Unify.Inside.{size}
use qu_prolog.Unify.Shape.{
  Variable, unbound-Free, unbound-kind, structure-kind, list-kind, atom-kind, class-Constant,
}
use qu_prolog.Unify.Correct.{Free}
use qu_prolog.Unify.Settles.{Settles, Settles-const, Good}
use qu_prolog.Unify.Checked.{Checked, occurs_check-Checked}
use qu_prolog.Unify.Generic.{Misses}
use qu_prolog.Unify.Outside.{occurs_check-Misses}
use qu_prolog.Unify.Progress.{State, Next, Next-self, bind-Settles, bind_both-Settles}
use qu_prolog.Unify.Descent.{unbound, Decided, lists-Settles, structures-Settles}

module _ (object is_cell : ℕ → Bool) (vars : List ℕ) where
  module _ (m : Machine) (σ : ℕ → Tree) (s : State object is_cell vars σ m) (v t : ℕ)
      (f : Free object is_cell m v) (kv : kind (m.store.word v) ≡ Kind.variable)
      (e : Ends object m.store.word t t) (d : v ≢ t) where
    checks : is_occurs_checked (m.store.word v) && true ≡ true
    checks = ground (arith, s.occurs_checked v f.is_object kv)

    c : Checked (λ n. occurs_check n m.store.word v t)
    c =
        occurs_check-Checked object is_cell m s.layout s.chains σ s.generic.solves v (size (σ t)) t
          e.is_object (omega arith)

    answered : Occurrence → Outcome
    answered Occurrence.absent = bound (bind_and_trail v t m)
    answered Occurrence.present = done false m
    answered Occurrence.beyond = beyond
    answered Occurrence.exhausted = no_fuel

    answered-Good :
        (o : Occurrence) → c.outcome ≡ o → Good (Next object is_cell vars m) (answered o)
    unfolding answered
    answered-Good Occurrence.absent q =
        let misses =
          occurs_check-Misses object is_cell m s.layout σ s.generic v kv c.enough t e.is_object
            (c.reached c.enough (omega arith) ∙ q) in
        let b = bind-Settles object is_cell vars σ m s v t f e d misses in
        subst (Good (Next object is_cell vars m)) (sym (b.reached b.enough (omega arith))) b.good
    answered-Good Occurrence.present q = tt
    answered-Good Occurrence.beyond q = tt
    answered-Good Occurrence.exhausted q = absurd (c.good q)

    bind_with_check-Settles :
        Settles (Next object is_cell vars m) (λ n. bind_with_check true n m v t)
    unfolding bind_with_check answered
    bind_with_check-Settles = rw checks (record {
      outcome = answered c.outcome;
      enough = c.enough;
      reached = λ n h. ap answered (c.reached n h);
      good = answered-Good c.outcome refl;
    })

  module _ (k n : ℕ) (ih : Decided object is_cell vars k n) (m : Machine) (σ : ℕ → Tree)
      (s : State object is_cell vars σ m) (t1 t2 : ℕ) (e1 : Ends object m.store.word t1 t1)
      (e2 : Ends object m.store.word t2 t2)
      (h : (unbound object is_cell vars k n m < k)
        ⊎ ((unbound object is_cell vars k n m ≤ k) × (size (σ t1) ≤ suc n)))
      (apart : t1 ≢ t2) where
    abbrev At : ℕ → UnifyClass → Type 0
    At t c = unify_class (m.store.word t) ≡ c

    abbrev Does : Action → Type 0
    Does a = Settles (Next object is_cell vars m) (λ f. carry_out true f (unify true f) m t1 t2 a)

    free1 : At t1 var_oc → Free object is_cell m t1
    free1 c = unbound-Free object is_cell m s.layout t1 e1.is_object var_oc c tt e1.unbound

    free2 : At t2 var_oc → Free object is_cell m t2
    free2 c = unbound-Free object is_cell m s.layout t2 e2.is_object var_oc c tt e2.unbound

    kind1 : (c : UnifyClass) → At t1 c → Variable c → kind (m.store.word t1) ≡ Kind.variable
    kind1 c q v = unbound-kind object is_cell m s.layout t1 e1.is_object c q v

    kind2 : (c : UnifyClass) → At t2 c → Variable c → kind (m.store.word t2) ≡ Kind.variable
    kind2 c q v = unbound-kind object is_cell m s.layout t2 e2.is_object c q v

    plain1 : (a : Action) → At t1 var → Does a
    plain1 a c = absurd ((s.occurs_checked t1 e1.is_object (kind1 var c tt)).0 c)

    plain2 : (a : Action) → At t2 var → Does a
    plain2 a c = absurd ((s.occurs_checked t2 e2.is_object (kind2 var c tt)).0 c)

    -- Constants and atoms hold no variable.
    Simple : UnifyClass → Type 0
    Simple number = Unit
    Simple UnifyClass.atom = Unit
    Simple UnifyClass.string = Unit
    Simple _ = ⊥

    Simple-Misses :
        (v t : ℕ) → object t ≡ true → (c : UnifyClass) → At t c → Simple c → Misses v (σ t)
    unfolding Misses Simple
    Simple-Misses v t o number c q =
        rw (s.generic.solves.constants t o (class-Constant object is_cell m s.layout t o (inl c)))
          tt
    Simple-Misses v t o UnifyClass.string c q =
        rw (s.generic.solves.constants t o (class-Constant object is_cell m s.layout t o (inr c)))
          tt
    Simple-Misses v t o UnifyClass.atom c q =
        rw (s.generic.solves.atoms t o (atom-kind object is_cell m s.layout t o c)) tt
    Simple-Misses v t o structure c q = absurd q
    Simple-Misses v t o cons c q = absurd q
    Simple-Misses v t o var c q = absurd q
    Simple-Misses v t o var_oc c q = absurd q
    Simple-Misses v t o other c q = absurd q

    bind_first : (c : UnifyClass) → At t1 var_oc → At t2 c → Simple c → Does (bind t1 t2)
    unfolding carry_out
    bind_first c k1 k2 q =
        bind-Settles object is_cell vars σ m s t1 t2 (free1 k1) e2 apart
          (Simple-Misses t1 t2 e2.is_object c k2 q)

    bind_second : (c : UnifyClass) → At t1 c → At t2 var_oc → Simple c → Does (bind t2 t1)
    unfolding carry_out
    bind_second c k1 k2 q =
        bind-Settles object is_cell vars σ m s t2 t1 (free2 k2) e1 (λ x. apart (sym x))
          (Simple-Misses t2 t1 e1.is_object c k1 q)

    bind_variables : At t1 var_oc → At t2 var_oc → Does (bind_both t1 t2)
    unfolding carry_out
    bind_variables k1 k2 =
        bind_both-Settles object is_cell vars σ m s t1 t2 (free1 k1) (free2 k2) e1 e2 apart

    check_first : At t1 var_oc → Does (bind_checked t1 t2)
    unfolding carry_out
    check_first k1 = bind_with_check-Settles m σ s t1 t2 (free1 k1) (kind1 var_oc k1 tt) e2 apart

    check_second : At t2 var_oc → Does (bind_checked t2 t1)
    unfolding carry_out
    check_second k2 =
        bind_with_check-Settles m σ s t2 t1 (free2 k2) (kind2 var_oc k2 tt) e1 (λ x. apart (sym x))

    answer-Good : (b : Bool) → Good (Next object is_cell vars m) (done b m)
    answer-Good true = Next-self object is_cell vars m σ s
    answer-Good false = tt

    no : Does (answer false)
    unfolding carry_out
    no = Settles-const (Next object is_cell vars m) (done false m) tt

    constants : Does compare_constants
    unfolding carry_out
    constants =
        Settles-const (Next object is_cell vars m) (done (equal_uninterp m.store.word t1 t2) m)
          (answer-Good (equal_uninterp m.store.word t1 t2))

    leaves : Does leave
    unfolding carry_out
    leaves = Settles-const (Next object is_cell vars m) beyond tt

    pub action-Settles : (c d : UnifyClass) → At t1 c → At t2 d → Does (action c d t1 t2)
    unfolding action Simple
    action-Settles var d k1 k2 = plain1 (action var d t1 t2) k1
    action-Settles var_oc var_oc k1 k2 = bind_variables k1 k2
    action-Settles c var k1 k2 = plain2 (action c var t1 t2) k2
    action-Settles var_oc structure k1 k2 = check_first k1
    action-Settles var_oc cons k1 k2 = check_first k1
    action-Settles var_oc other k1 k2 = leaves
    action-Settles var_oc d k1 k2 = bind_first d k1 k2 tt
    action-Settles structure var_oc k1 k2 = check_second k2
    action-Settles cons var_oc k1 k2 = check_second k2
    action-Settles other _ k1 k2 = leaves
    action-Settles _ other k1 k2 = leaves
    action-Settles c var_oc k1 k2 = bind_second c k1 k2 tt
    action-Settles number number k1 k2 = constants
    action-Settles UnifyClass.string UnifyClass.string k1 k2 = constants
    action-Settles structure structure k1 k2 =
        structures-Settles object is_cell vars k n ih m σ s t1 t2 e1.is_object e2.is_object h
          (structure-kind object is_cell m s.layout t1 e1.is_object k1)
          (structure-kind object is_cell m s.layout t2 e2.is_object k2)
    action-Settles cons cons k1 k2 =
        lists-Settles object is_cell vars k n ih m σ s t1 t2 e1.is_object e2.is_object h
          (list-kind object is_cell m s.layout t1 e1.is_object k1)
          (list-kind object is_cell m s.layout t2 e2.is_object k2)
    action-Settles _ _ k1 k2 = no
