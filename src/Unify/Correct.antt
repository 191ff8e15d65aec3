-- ===== src/Unify/Correct.antt =====
-- What an outcome of unification has to be, and that binding a variable is right (src/bind.h).
use qu_prolog.Base.{
  ℕ, ◌+◌, ◌≤◌, ◌≡◌, ◌≢◌, ◌↔◌, ◌⊎◌, refl, sym, ap, ◌∙◌, Bool, true, false, none, some, arith,
  Bool-cases, Option-cases, inl, inr, update, ◌==◌,
}
use qu_prolog.Trail.Binding
use qu_prolog.Machine.{Machine, push_binding, then_write, bind_and_trail, bind_var_var}
use qu_prolog.Machine.Steps.{Step, Run, here, next, bind, bind_vars}
use qu_prolog.Unify.{Outcome, done, beyond, overflow, no_fuel, bound}
use qu_prolog.Unify.Object.{is_reference}
use qu_prolog.Unify.Solution.{Tree, Layout, Solves, Foreign}
use qu_prolog.Unify.Frame.{Layout-frame, Solves-frame}

module _ (is_cell : ℕ → Bool) where
  pub Run-trans : {a b c : Machine} → Run is_cell a b → Run is_cell b c → Run is_cell a c
  Run-trans r here = r
  Run-trans r (next s t) = next (Run-trans r s) t

module _ (object is_cell : ℕ → Bool) where
  -- The machine after some bindings.
  pub record Reached (m m' : Machine) : Type 0 where
    pub run : Run is_cell m m'
    pub frame : (x : ℕ) → is_cell x ≡ false → m'.store.word x ≡ m.store.word x
    pub layout : Layout object is_cell m'

  -- A machine is reached whose binding trail is full.
  abbrev pub Exhausts : Machine → Type 0
  Exhausts m = (m' : Machine) × Reached m m' × (m'.binding_trail.top ≤ m'.binding_trail.low + 1)

  -- `E` is the equation that is unified.
  abbrev pub Correct : Machine → ((ℕ → Tree) → Type 0) → Outcome → Type 0
  Correct m E (done true m') =
      Reached m m'
      × ((σ : ℕ → Tree) → Solves object σ m'.store.word ↔ (Solves object σ m.store.word × E σ))
  Correct m E (done false m') =
      Reached m m' × ((σ : ℕ → Tree) → Solves object σ m.store.word → ¬ E σ)
  Correct m E beyond = Foreign object m.store.word
  Correct m E overflow = Exhausts m
  Correct m E no_fuel = Unit

  pub Reached-self : {m : Machine} → Layout object is_cell m → Reached m m
  Reached-self l = record { run = here; frame = λ x c. refl; layout = l }

  pub Reached-trans : {a b c : Machine} → Reached a b → Reached b c → Reached a c
  Reached-trans r s = record {
    run = Run-trans is_cell r.run s.run;
    frame = λ x c. s.frame x c ∙ r.frame x c;
    layout = s.layout;
  }

  -- An unbound variable at `v`.
  pub record Free (m : Machine) (v : ℕ) : Type 0 where
    pub is_object : object v ≡ true
    pub referring : is_reference (m.store.word v) ≡ true
    pub unbound : m.store.word (v + 1) ≡ v

  module _ (m m' : Machine) (v t : ℕ) (l : Layout object is_cell m) (f : Free m v)
      (o : object t ≡ true) (written : m'.store.word ≡ update m.store.word (v + 1) t)
      (b : m'.base ≡ m.base) where
    pub write-frame : (x : ℕ) → is_cell x ≡ false → m'.store.word x ≡ m.store.word x
    write-frame x c =
        let cell = (l.references v f.is_object f.referring).1 in
        let apart : v + 1 ≢ x = λ same. cc (ap is_cell same) in rw written (ground arith)

    -- The reference of `x` is the new one or the old one.
    pub reference-at :
        (x : ℕ)
        → ((x ≡ v) × (m'.store.word (x + 1) ≡ t)) ⊎ (m'.store.word (x + 1) ≡ m.store.word (x + 1))
    reference-at x = elim (Bool-cases (v + 1 == x + 1)) [
      | inl same ↦ inl (ground arith, rw written (ground arith))
      | inr apart ↦ inr (rw written (ground arith))
    ]

    pub write-Layout : Layout object is_cell m'
    write-Layout = Layout-frame m m' l write-frame b λ x ox r. elim (reference-at x) [
      | inl (e, h) ↦ rw h o
      | inr h ↦ rw h (l.references x ox r).2
    ]

    write-Reached : Step is_cell m m' → Reached m m'
    write-Reached s = record { run = next here s; frame = write-frame; layout = write-Layout }

    pub write-Solves :
        (σ : ℕ → Tree)
        → Solves object σ m'.store.word ↔ (Solves object σ m.store.word × (σ v ≡ σ t))
    write-Solves σ = (
      (λ s. (
        Solves-frame m' m write-Layout (λ x c. sym (write-frame x c)) σ s
            (λ x ox r. elim (reference-at x) [
              | inl (e, h) ↦ rw (e, f.unbound) refl
              | inr h ↦ rw (sym h) (s.references x ox r)
            ]),
        s.references v f.is_object (rw (write-frame v (l.tags v f.is_object)) f.referring)
            ∙ ap σ (rw written (ground arith)),
      )),
      (λ (s, e). Solves-frame m m' l write-frame σ s (λ x ox r. elim (reference-at x) [
        | inl (same, h) ↦ rw (h, same) e
        | inr h ↦ rw h (s.references x ox r)
      ])),
    )

  iff-sym : {A B : Type 0} {x y : Tree} → A ↔ (B × (x ≡ y)) → A ↔ (B × (y ≡ x))
  iff-sym (f, g) = (λ a. let r = f a in (r.0, sym r.1), λ (b, e). g (b, sym e))

  pub bind_and_trail_lem :
      (v t : ℕ) (m m' : Machine)
      → bind_and_trail v t m ≡ some m'
      → (m'.store.word ≡ update m.store.word (v + 1) t) × (m'.base ≡ m.base)
  unfolding bind_and_trail
  bind_and_trail_lem v t m m' h = ground arith

  pub bind_var_var_lem :
      (v1 v2 : ℕ) (m m' : Machine)
      → bind_var_var v1 v2 m ≡ some m'
      → ((m'.store.word ≡ update m.store.word (v1 + 1) v2)
          ⊎ (m'.store.word ≡ update m.store.word (v2 + 1) v1))
        × (m'.base ≡ m.base)
  unfolding bind_var_var
  bind_var_var_lem v1 v2 m m' h = ground arith

  bind_and_trail_full :
      (v t : ℕ) (m : Machine)
      → bind_and_trail v t m ≡ none
      → m.binding_trail.top ≤ m.binding_trail.low + 1
  unfolding bind_and_trail push_binding then_write Binding.push
  bind_and_trail_full v t m h = ground arith

  bind_var_var_full :
      (v1 v2 : ℕ) (m : Machine)
      → bind_var_var v1 v2 m ≡ none
      → m.binding_trail.top ≤ m.binding_trail.low + 1
  unfolding bind_var_var push_binding then_write Binding.push
  bind_var_var_full v1 v2 m h = ground arith

  pub bind-Correct :
      (m : Machine) (v t : ℕ)
      → Layout object is_cell m
      → Free m v
      → object t ≡ true
      → Correct m (λ σ. σ v ≡ σ t) (bound (bind_and_trail v t m))
  unfolding bound
  bind-Correct m v t l f o = elim (Option-cases (bind_and_trail v t m)) [
    | inl full ↦ rw full (m, Reached-self l, bind_and_trail_full v t m full)
    | inr (m', e) ↦
        let (written, b) = bind_and_trail_lem v t m m' e in
        let place = l.references v f.is_object f.referring in
        rw e (
          write-Reached m m' v t l f o written b (bind v t place.0 f.unbound place.1 e),
          write-Solves m m' v t l f o written b,
        )
  ]

  pub bind_both-Correct :
      (m : Machine) (v1 v2 : ℕ)
      → Layout object is_cell m
      → Free m v1
      → Free m v2
      → Correct m (λ σ. σ v1 ≡ σ v2) (bound (bind_var_var v1 v2 m))
  unfolding bound
  bind_both-Correct m v1 v2 l f1 f2 = elim (Option-cases (bind_var_var v1 v2 m)) [
    | inl full ↦ rw full (m, Reached-self l, bind_var_var_full v1 v2 m full)
    | inr (m', e) ↦
        let (written, b) = bind_var_var_lem v1 v2 m m' e in
        let cell = (l.references v1 f1.is_object f1.referring).1 in
        let step : Step is_cell m m' = bind_vars v1 v2 f1.unbound cell e in
        rw e (elim written [
          | inl w ↦ (
            write-Reached m m' v1 v2 l f1 f2.is_object w b step,
            write-Solves m m' v1 v2 l f1 f2.is_object w b,
          )
          | inr w ↦ (
            write-Reached m m' v2 v1 l f2 f1.is_object w b step,
            λ σ. iff-sym (write-Solves m m' v2 v1 l f2 f1.is_object w b σ),
          )
        ])
  ]
