-- ===== src/Unify/Settles.antt =====
-- Computations on fuel that come to an outcome once the fuel is enough (src/unify.cc).
use qu_prolog.Base.{
  ℕ, ◌+◌, ◌≤◌, ◌≡◌, ◌≢◌, refl, sym, ap, ◌∙◌, subst, Bool, true, false, inl, inr, arith,
  Option-cases,
}
use qu_prolog.Machine.{Machine, bind_and_trail, bind_var_var}
use qu_prolog.Unify.{Outcome, done, beyond, overflow, no_fuel, bound, then_unify}
use qu_prolog.Unify.Solution.{Layout}
use qu_prolog.Unify.Reads.{Ends}
use qu_prolog.Unify.Correct.{Free, bind_and_trail_lem, bind_var_var_lem}
use qu_prolog.Unify.Chains.{Chains, write-Chains}

-- The outcome is not for lack of fuel, and after a success the machine is as `G` says.
abbrev pub Good : (Machine → Type 0) → Outcome → Type 0
Good G (done true m) = G m
Good G (done false m) = Unit
Good G beyond = Unit
Good G overflow = Unit
Good G no_fuel = ⊥

pub record Settles (G : Machine → Type 0) (r : ℕ → Outcome) : Type 0 where
  pub outcome : Outcome
  pub enough : ℕ
  pub reached : (f : ℕ) → enough ≤ f → r f ≡ outcome
  pub good : Good G outcome

pub Settles-const : (G : Machine → Type 0) (o : Outcome) → Good G o → Settles G (λ _. o)
Settles-const G o g = record { outcome = o; enough = 0; reached = λ f h. refl; good = g }

-- More may be known of the machine once the outcome is known.
pub Settles-with :
    (G H : Machine → Type 0) (r : ℕ → Outcome)
    → Settles G r
    → ((m : Machine) (f : ℕ) → r f ≡ done true m → G m → H m)
    → Settles H r
Settles-with G H r s k = with s.outcome refl
  where
    with : (o : Outcome) → s.outcome ≡ o → Settles H r
    with (done true m) e = record {
      outcome = done true m;
      enough = s.enough;
      reached = λ f h. s.reached f h ∙ e;
      good = k m s.enough (s.reached s.enough (omega arith) ∙ e) (subst (Good G) e s.good);
    }
    with (done false m) e = record {
      outcome = done false m;
      enough = s.enough;
      reached = λ f h. s.reached f h ∙ e;
      good = tt;
    }
    with beyond e = record {
      outcome = beyond;
      enough = s.enough;
      reached = λ f h. s.reached f h ∙ e;
      good = tt;
    }
    with overflow e = record {
      outcome = overflow;
      enough = s.enough;
      reached = λ f h. s.reached f h ∙ e;
      good = tt;
    }
    with no_fuel e = absurd (subst (Good G) e s.good)

pub Settles-then :
    (G H : Machine → Type 0) (r : ℕ → Outcome) (k : ℕ → Machine → Outcome)
    → Settles G r
    → ((m : Machine) → G m → Settles H (λ f. k f m))
    → Settles H (λ f. then_unify (r f) (k f))
unfolding then_unify
Settles-then G H r k s after = go s.outcome refl
  where
    go : (o : Outcome) → s.outcome ≡ o → Settles H (λ f. then_unify (r f) (k f))
    go (done true m) e =
        let t = after m (subst (Good G) e s.good) in
        record {
          outcome = t.outcome;
          enough = s.enough + t.enough;
          reached = λ f h.
              ap (λ o. then_unify o (k f)) (s.reached f (omega arith) ∙ e)
              ∙ t.reached f (omega arith);
          good = t.good;
        }
    go (done false m) e = record {
      outcome = done false m;
      enough = s.enough;
      reached = λ f h. ap (λ o. then_unify o (k f)) (s.reached f h ∙ e);
      good = tt;
    }
    go beyond e = record {
      outcome = beyond;
      enough = s.enough;
      reached = λ f h. ap (λ o. then_unify o (k f)) (s.reached f h ∙ e);
      good = tt;
    }
    go overflow e = record {
      outcome = overflow;
      enough = s.enough;
      reached = λ f h. ap (λ o. then_unify o (k f)) (s.reached f h ∙ e);
      good = tt;
    }
    go no_fuel e = absurd (subst (Good G) e s.good)

module _ (object is_cell : ℕ → Bool) where
  abbrev pub Chained : Machine → Type 0
  Chained m = Chains object m.store.word

  module _ (m : Machine) (l : Layout object is_cell m) (cs : Chained m) where
    pub bind-Settles :
        (v t : ℕ)
        → Free object is_cell m v
        → Ends object m.store.word t t
        → v ≢ t
        → Settles Chained (λ _. bound (bind_and_trail v t m))
    unfolding bound
    bind-Settles v t f e d = Settles-const Chained _ (elim (Option-cases (bind_and_trail v t m)) [
      | inl full ↦ rw full tt
      | inr (m', h) ↦
          let (written, b) = bind_and_trail_lem object is_cell v t m m' h in
          rw h (write-Chains object is_cell m m' v t l f e d written b cs)
    ])

    pub bind_both-Settles :
        (v1 v2 : ℕ)
        → Free object is_cell m v1
        → Free object is_cell m v2
        → Ends object m.store.word v1 v1
        → Ends object m.store.word v2 v2
        → v1 ≢ v2
        → Settles Chained (λ _. bound (bind_var_var v1 v2 m))
    unfolding bound
    bind_both-Settles v1 v2 f1 f2 e1 e2 d =
        Settles-const Chained _ (elim (Option-cases (bind_var_var v1 v2 m)) [
          | inl full ↦ rw full tt
          | inr (m', h) ↦
              let (written, b) = bind_var_var_lem object is_cell v1 v2 m m' h in
              rw h (elim written [
                | inl w ↦ write-Chains object is_cell m m' v1 v2 l f1 e2 d w b cs
                | inr w ↦ write-Chains object is_cell m m' v2 v1 l f2 e1 (λ q. d (sym q)) w b cs
              ])
        ])
