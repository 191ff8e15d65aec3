-- ===== src/Unify/Total.antt =====
-- `Thread::unify` of src/unify.cc ends on terms that can be made equal.
use qu_prolog.Base.{
  ℕ, zero, suc, ◌+◌, ◌≤◌, ◌≡◌, ◌≢◌, refl, sym, ap, ◌∙◌, subst, Bool, true, false, ◌&&◌, some, inl,
  inr, arith, Bool-cases, ◌==◌,
}
use qu_prolog.Machine.{Machine, bind_and_trail}
use qu_prolog.Unify.{
  Outcome, done, beyond, no_fuel, Action, answer, bind, bind_both, bind_checked, compare_constants,
  leave, action, bound, bind_with_check, carry_out, unify_objects, unify,
}
use qu_prolog.Unify.Check.{Occurrence, occurs_check}
use qu_prolog.Unify.Object.{
  UnifyClass, var, var_oc, number, structure, cons, other, unify_class, is_substitution,
  is_occurs_checked, equal_uninterp, variable_dereference,
}
use qu_prolog.Unify.Solution.{Tree, Layout, Solves}
use qu_prolog.Unify.Reads.{Ends, variable_dereference-Ends}
use qu_prolog.Unify.Inside.{size}
use qu_prolog.Unify.Shape.{Variable, unbound-Free, structure-kind, list-kind}
use qu_prolog.Unify.Correct.{Free}
use qu_prolog.Unify.Unifier.{unify_deep}
use qu_prolog.Unify.Chains.{variable_dereference-Links}
use qu_prolog.Unify.Settles.{Settles, Settles-const, Chained, bind-Settles, bind_both-Settles, Good}
use qu_prolog.Unify.Checked.{Checked, occurs_check-Checked, size_pos}
use qu_prolog.Unify.Parts.{Ending, lists-Settles, structures-Settles}

module _ (object is_cell : ℕ → Bool) (checks : Bool) (σ : ℕ → Tree) where
  module _ (m : Machine) (l : Layout object is_cell m) (cs : Chained object is_cell m)
      (s : Solves object σ m.store.word) where
    bind_with_check-Settles :
        (v t : ℕ)
        → Free object is_cell m v
        → Ends object m.store.word t t
        → v ≢ t
        → Settles (Chained object is_cell) (λ f. bind_with_check checks f m v t)
    unfolding bind_with_check
    bind_with_check-Settles v t f e d =
        elim (Bool-cases (is_occurs_checked (m.store.word v) && checks)) [
          | inr no_check ↦ rw no_check (bind-Settles object is_cell m l cs v t f e d)
          | inl check ↦ rw check (after c.outcome refl)
        ]
      where
        c : Checked (λ f. occurs_check f m.store.word v t)
        c =
            occurs_check-Checked object is_cell m l cs σ s v (size (σ t)) t e.is_object
              (omega arith)

        b : Settles (Chained object is_cell) (λ _. bound (bind_and_trail v t m))
        b = bind-Settles object is_cell m l cs v t f e d

        answered : Occurrence → Outcome
        answered Occurrence.absent = bound (bind_and_trail v t m)
        answered Occurrence.present = done false m
        answered Occurrence.beyond = beyond
        answered Occurrence.exhausted = no_fuel

        settled :
            (o : Occurrence)
            → c.outcome ≡ o
            → Good (Chained object is_cell) (answered o)
            → Settles (Chained object is_cell) (λ f. elim (occurs_check f m.store.word v t) [
              | Occurrence.absent ↦ bound (bind_and_trail v t m)
              | Occurrence.present ↦ done false m
              | Occurrence.beyond ↦ beyond
              | Occurrence.exhausted ↦ no_fuel
            ])
        settled o q g = record {
          outcome = answered o;
          enough = c.enough;
          reached = λ f h. ap answered (c.reached f h ∙ q);
          good = g;
        }

        after :
            (o : Occurrence)
            → c.outcome ≡ o
            → Settles (Chained object is_cell) (λ f. elim (occurs_check f m.store.word v t) [
              | Occurrence.absent ↦ bound (bind_and_trail v t m)
              | Occurrence.present ↦ done false m
              | Occurrence.beyond ↦ beyond
              | Occurrence.exhausted ↦ no_fuel
            ])
        after Occurrence.absent q =
            settled Occurrence.absent q (
              subst (Good (Chained object is_cell)) (sym (b.reached b.enough (omega arith))) b.good)
        after Occurrence.present q = settled Occurrence.present q tt
        after Occurrence.beyond q = settled Occurrence.beyond q tt
        after Occurrence.exhausted q = absurd (c.good q)

  Answered : Machine → Bool → Type 0
  Answered m b = Settles (Chained object is_cell) (λ _. done b m)

  answer-Settles : (m : Machine) → Chained object is_cell m → (b : Bool) → Answered m b
  unfolding Answered
  answer-Settles m cs true = Settles-const (Chained object is_cell) (done true m) cs
  answer-Settles m cs false = Settles-const (Chained object is_cell) (done false m) tt

  module _ (n : ℕ) (ih : Ending object is_cell checks σ n) (m : Machine)
      (l : Layout object is_cell m) (cs : Chained object is_cell m)
      (s : Solves object σ m.store.word) (t1 t2 : ℕ) (e1 : Ends object m.store.word t1 t1)
      (e2 : Ends object m.store.word t2 t2) (same : σ t1 ≡ σ t2) (h : size (σ t1) ≤ suc n)
      (apart : t1 ≢ t2) where
    abbrev ClassAt : ℕ → UnifyClass → Type 0
    ClassAt t c = unify_class (m.store.word t) ≡ c

    abbrev Does : Action → Type 0
    Does a = Settles (Chained object is_cell) (λ f. carry_out checks f (unify checks f) m t1 t2 a)

    free1 : (c : UnifyClass) → ClassAt t1 c → Variable c → Free object is_cell m t1
    free1 c k v = unbound-Free object is_cell m l t1 e1.is_object c k v e1.unbound

    free2 : (c : UnifyClass) → ClassAt t2 c → Variable c → Free object is_cell m t2
    free2 c k v = unbound-Free object is_cell m l t2 e2.is_object c k v e2.unbound

    bind_first : (c : UnifyClass) → ClassAt t1 c → Variable c → Does (bind t1 t2)
    unfolding carry_out
    bind_first c k v = bind-Settles object is_cell m l cs t1 t2 (free1 c k v) e2 apart

    bind_second : (c : UnifyClass) → ClassAt t2 c → Variable c → Does (bind t2 t1)
    unfolding carry_out
    bind_second c k v =
        bind-Settles object is_cell m l cs t2 t1 (free2 c k v) e1 (λ q. apart (sym q))

    bind_variables :
        (c d : UnifyClass)
        → ClassAt t1 c
        → ClassAt t2 d
        → Variable c
        → Variable d
        → Does (bind_both t1 t2)
    unfolding carry_out
    bind_variables c d k1 k2 v1 v2 =
        bind_both-Settles object is_cell m l cs t1 t2 (free1 c k1 v1) (free2 d k2 v2) e1 e2 apart

    check_first : ClassAt t1 var_oc → Does (bind_checked t1 t2)
    unfolding carry_out
    check_first k = bind_with_check-Settles m l cs s t1 t2 (free1 var_oc k tt) e2 apart

    check_second : ClassAt t2 var_oc → Does (bind_checked t2 t1)
    unfolding carry_out
    check_second k =
        bind_with_check-Settles m l cs s t2 t1 (free2 var_oc k tt) e1 (λ q. apart (sym q))

    no : Does (answer false)
    unfolding carry_out Answered
    no = answer-Settles m cs false

    constants : Does compare_constants
    unfolding carry_out Answered
    constants = answer-Settles m cs (equal_uninterp m.store.word t1 t2)

    leaves : Does leave
    unfolding carry_out
    leaves = Settles-const (Chained object is_cell) beyond tt

    action-Settles : (c d : UnifyClass) → ClassAt t1 c → ClassAt t2 d → Does (action c d t1 t2)
    unfolding action
    action-Settles var var k1 k2 = bind_variables var var k1 k2 tt tt
    action-Settles var _ k1 k2 = bind_first var k1 tt
    action-Settles var_oc var_oc k1 k2 = bind_variables var_oc var_oc k1 k2 tt tt
    action-Settles _ var k1 k2 = bind_second var k2 tt
    action-Settles var_oc structure k1 k2 = check_first k1
    action-Settles var_oc cons k1 k2 = check_first k1
    action-Settles var_oc other k1 k2 = leaves
    action-Settles var_oc _ k1 k2 = bind_first var_oc k1 tt
    action-Settles structure var_oc k1 k2 = check_second k2
    action-Settles cons var_oc k1 k2 = check_second k2
    action-Settles other _ k1 k2 = leaves
    action-Settles _ other k1 k2 = leaves
    action-Settles _ var_oc k1 k2 = bind_second var_oc k2 tt
    action-Settles number number k1 k2 = constants
    action-Settles UnifyClass.string UnifyClass.string k1 k2 = constants
    action-Settles structure structure k1 k2 =
        structures-Settles object is_cell checks σ n ih m l cs s t1 t2 e1.is_object e2.is_object
          same h (structure-kind object is_cell m l t1 e1.is_object k1)
          (structure-kind object is_cell m l t2 e2.is_object k2)
    action-Settles cons cons k1 k2 =
        lists-Settles object is_cell checks σ n ih m l cs s t1 t2 e1.is_object e2.is_object same h
          (list-kind object is_cell m l t1 e1.is_object k1)
          (list-kind object is_cell m l t2 e2.is_object k2)
    action-Settles _ _ k1 k2 = no

  objects-Settles :
      (n : ℕ)
      → Ending object is_cell checks σ n
      → (m : Machine) → Layout object is_cell m
      → Chained object is_cell m
      → Solves object σ m.store.word
      → (t1 t2 : ℕ) → Ends object m.store.word t1 t1
      → Ends object m.store.word t2 t2
      → σ t1 ≡ σ t2
      → size (σ t1) ≤ suc n
      → Settles (Chained object is_cell) (λ f. unify_objects checks f (unify checks f) m t1 t2)
  unfolding unify_objects Answered
  objects-Settles n ih m l cs s t1 t2 e1 e2 same h =
      let w = m.store.word in
      let out = Settles-const (Chained object is_cell) beyond tt in
      elim (Bool-cases (is_substitution (w t1))) [
        | inl q ↦ rw q out
        | inr n1 ↦ elim (Bool-cases (is_substitution (w t2))) [
          | inl q ↦ rw (n1, q) out
          | inr n2 ↦ elim (Bool-cases (t1 == t2)) [
            | inl q ↦ rw (n1, n2, q) (answer-Settles m cs true)
            | inr q ↦
                let apart : t1 ≢ t2 = λ e. absurd (ground arith) in
                rw (n1, n2, q)
                  (action-Settles n ih m l cs s t1 t2 e1 e2 same h apart (unify_class (w t1))
                    (unify_class (w t2)) refl refl)
          ]
        ]
      ]

  deeper :
      (m : Machine) (a b t1 t2 d1 d2 : ℕ)
      → ((f : ℕ) → d1 ≤ f → variable_dereference f m.store.word a ≡ some t1)
      → ((f : ℕ) → d2 ≤ f → variable_dereference f m.store.word b ≡ some t2)
      → Settles (Chained object is_cell) (λ f. unify_objects checks f (unify checks f) m t1 t2)
      → Settles (Chained object is_cell) (λ f. unify checks f m a b)
  deeper m a b t1 t2 d1 d2 g1 g2 r = record {
    outcome = r.outcome;
    enough = suc (d1 + d2 + r.enough);
    reached = below;
    good = r.good;
  }
    where
      below : (f : ℕ) → suc (d1 + d2 + r.enough) ≤ f → unify checks f m a b ≡ r.outcome
      below zero h = absurd (omega arith)
      below (suc f) h =
          unify_deep object is_cell checks f m a b t1 t2 (g1 f (omega arith)) (g2 f (omega arith))
          ∙ r.reached f (omega arith)

  pub unify-Settles : (n : ℕ) → Ending object is_cell checks σ n
  unify-Settles zero m a b l cs s oa ob e h = absurd (omega (arith, size_pos (σ a)))
  unify-Settles (suc n) m a b l cs s oa ob e h =
      let (t1, c1) = cs a oa in
      let (t2, c2) = cs b ob in
      let (d1, g1) = variable_dereference-Links c1 in
      let (d2, g2) = variable_dereference-Links c2 in
      let e1 = variable_dereference-Ends object is_cell m l d1 a t1 oa (g1 d1 (omega arith)) in
      let e2 = variable_dereference-Ends object is_cell m l d2 b t2 ob (g2 d2 (omega arith)) in
      deeper m a b t1 t2 d1 d2 g1 g2 (
        objects-Settles n (unify-Settles n) m l cs s t1 t2 (at_end e1) (at_end e2)
          (sym (e1.same σ s) ∙ e ∙ e2.same σ s) (omega (arith, ap size (e1.same σ s), h)))
    where
      at_end : {o t : ℕ} → Ends object m.store.word o t → Ends object m.store.word t t
      at_end x = record { is_object = x.is_object; unbound = x.unbound; same = λ τ q. refl }
