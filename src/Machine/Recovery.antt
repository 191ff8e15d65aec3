-- ===== src/Machine/Recovery.antt =====
-- Backtracking gives back the memory of the choice point (src/thread_qp.h, src/bind.h).
use qu_prolog.Base.{
  ℕ, ◌+◌, ◌≤◌, ◌≡◌, ◌≢◌, refl, ap, subst, Bool, true, false, List, some, arith, if◌then◌else◌,
  Bool-cases, Option-cases, ◌⊎◌, inl, inr, leb,
}
use qu_prolog.Trail.Entry.{Entry, updatable_object, updatable_tag, pred_ref, tidy, is_redundant}
use qu_prolog.Trail.Other.{OtherTrail, total_size, entries_until}
use qu_prolog.Trail.Other
use qu_prolog.Trail.Binding
use qu_prolog.Trail.Binding.{BindingTrail}
use qu_prolog.Machine.{
  Machine, HeapAndTrails, write, allocate_heap_space, bind_and_trail, bind_var_var,
  update_and_trail_object, update_and_trail_ip, trail_tag, hold_predicate, save_heap_and_trails,
  push_other, push_binding, then_write, must_trail, is_old,
}
use qu_prolog.Machine.Invariant.{Recovers, occurs-entries_until}
use qu_prolog.Machine.Writes.{
  write_high, push_bind, push_object, push_tag, covered_object, covered_tag, push_hold,
}
use qu_prolog.Machine.Steps.{Step, Run, new_choice}

-- A write of `x` at `a` that first pushes `e` if `b` holds.
trailed_write :
    (e : Entry) (a x : ℕ) (b : Bool) (m m' : Machine)
    → then_write a x (if b then push_other e m else some m) ≡ some m'
    → ((b ≡ false) × (write a x m ≡ m'))
      ⊎ ((t : OtherTrail) × (Other.push e m.other_trail ≡ some t)
          × (write a x (record m { other_trail = t }) ≡ m'))
unfolding then_write push_other
trailed_write e a x false m m' h = inl (refl, ground arith)
trailed_write e a x true m m' h = elim (Option-cases (Other.push e m.other_trail)) [
  | inl full ↦ absurd (ground (arith, full))
  | inr (t, room) ↦ inr (t, room, ground (arith, room))
]

bound_write :
    (v a x : ℕ) (b : Bool) (m m' : Machine)
    → then_write a x (if b then push_binding v m else some m) ≡ some m'
    → ((b ≡ false) × (write a x m ≡ m'))
      ⊎ ((t : BindingTrail) × (Binding.push v m.binding_trail ≡ some t)
          × (write a x (record m { binding_trail = t }) ≡ m'))
unfolding then_write push_binding
bound_write v a x false m m' h = inl (refl, ground arith)
bound_write v a x true m m' h = elim (Option-cases (Binding.push v m.binding_trail)) [
  | inl full ↦ absurd (ground (arith, full))
  | inr (t, room) ↦ inr (t, room, ground (arith, room))
]

module _ (is_cell : ℕ → Bool) (c : HeapAndTrails) (w r : ℕ → ℕ) (us : List ℕ)
    (ds : List Entry) where
  -- Some variables and entries on the trails recover the memory.
  unfoldable pub Recoverable : Machine → Type 0
  Recoverable m = (vs : List ℕ) × (es : List Entry) × Recovers is_cell c w r us ds vs es m

  -- Without `must_trail` the write goes above the saved top or is covered by an entry.
  object_untrailed :
      (vs : List ℕ) (es : List Entry) (m : Machine) (ptr x offset : ℕ)
      → Recovers is_cell c w r us ds vs es m
      → ptr ≢ 0
      → must_trail (updatable_object ptr x offset) ptr m ≡ false
      → Recovers is_cell c w r us ds vs es (write (ptr + offset) x m)
  unfolding must_trail is_old tidy is_redundant
  object_untrailed vs es m ptr x offset i nonzero h = elim (Bool-cases (leb c.heap_top ptr)) [
    | inl high ↦ write_high i (ptr + offset) x (ground arith)
    | inr low ↦ covered_object i ptr x x offset nonzero (
        occurs-entries_until _ m.other_trail.top m.current.other_trail_top es ds
          (omega (arith, i.other_top, i.current_other)) (ground (arith, i.other_entries)))
  ]

  tag_untrailed :
      (vs : List ℕ) (es : List Entry) (m : Machine) (o old x : ℕ)
      → Recovers is_cell c w r us ds vs es m
      → o ≢ 0
      → must_trail (updatable_tag o old) o m ≡ false
      → Recovers is_cell c w r us ds vs es (write o x m)
  unfolding must_trail is_old tidy is_redundant
  tag_untrailed vs es m o old x i nonzero h = elim (Bool-cases (leb c.heap_top o)) [
    | inl high ↦ write_high i o x (ground arith)
    | inr low ↦ covered_tag i o old x nonzero (
        occurs-entries_until _ m.other_trail.top m.current.other_trail_top es ds
          (omega (arith, i.other_top, i.current_other)) (ground (arith, i.other_entries)))
  ]

  update_object-Recoverable :
      (m m' : Machine) (ptr x offset : ℕ)
      → ptr ≢ 0
      → is_cell (ptr + offset) ≡ false
      → update_and_trail_object ptr x offset m ≡ some m'
      → Recoverable m
      → Recoverable m'
  unfolding update_and_trail_object Recoverable
  update_object-Recoverable m m' ptr x offset nonzero cell e (vs, es, i) =
      elim (trailed_write _ (ptr + offset) x _ m m' e) [
        | inl (quiet, same) ↦
            subst Recoverable same (vs, es, object_untrailed vs es m ptr x offset i nonzero quiet)
        | inr (t, room, same) ↦
            subst Recoverable same (vs, _, push_object i ptr x offset t nonzero cell room)
      ]

  tag-Recoverable :
      (m m' : Machine) (o x : ℕ)
      → o ≢ 0
      → is_cell o ≡ false
      → trail_tag o m ≡ some m'
      → Recoverable m
      → Recoverable (write o x m')
  unfolding trail_tag Recoverable then_write
  tag-Recoverable m m' o x nonzero cell e (vs, es, i) =
      let b = must_trail (updatable_tag o (m.store.word o)) o m in
      elim (trailed_write (updatable_tag o (m.store.word o)) o x b m (write o x m')
        (ap (then_write o x) e)) [
          | inl (quiet, same) ↦
              subst Recoverable same (vs, es, tag_untrailed vs es m o _ x i nonzero quiet)
          | inr (t, room, same) ↦ subst Recoverable same (vs, _, push_tag i o x t nonzero cell room)
        ]

  bind-Recoverable :
      (m m' : Machine) (v x : ℕ)
      → m.base ≤ v
      → m.store.word (v + 1) ≡ v
      → is_cell (v + 1) ≡ true
      → bind_and_trail v x m ≡ some m'
      → Recoverable m
      → Recoverable m'
  unfolding bind_and_trail Recoverable
  bind-Recoverable m m' v x heap unbound cell e (vs, es, i) =
      elim (bound_write v (v + 1) x _ m m' e) [
        | inl (quiet, same) ↦
            subst Recoverable same (vs, es, write_high i (v + 1) x (ground (arith, i.saved)))
        | inr (t, room, same) ↦ subst Recoverable same (_, es, push_bind i v x t room unbound cell)
      ]

  bind_vars-Recoverable :
      (m m' : Machine) (u v : ℕ)
      → m.store.word (u + 1) ≡ u
      → is_cell (u + 1) ≡ true
      → bind_var_var u v m ≡ some m'
      → Recoverable m
      → Recoverable m'
  unfolding bind_var_var Recoverable
  bind_vars-Recoverable m m' u v unbound cell e (vs, es, i) =
      elim (Bool-cases (leb m.saved_top u)) [
        | inl new ↦
            subst Recoverable (ground (arith, new))
              (vs, es, write_high i (u + 1) v (ground (arith, i.saved)))
        | inr old ↦ elim (Bool-cases (leb m.saved_top v)) [
          | inl new ↦
              subst Recoverable (ground (arith, old, new))
                (vs, es, write_high i (v + 1) u (ground (arith, i.saved)))
          | inr both ↦ elim (bound_write u (u + 1) v true m m' (ground (arith, old, both))) [
            | inl (quiet, same) ↦ absurd (cc quiet)
            | inr (t, room, same) ↦
                subst Recoverable same (_, es, push_bind i u v t room unbound cell)
          ]
        ]
      ]

  hold-Recoverable :
      (m m' : Machine) (p : ℕ) → hold_predicate p m ≡ some m' → Recoverable m → Recoverable m'
  unfolding hold_predicate Recoverable
  hold-Recoverable m m' p e (vs, es, i) =
      elim (Option-cases (Other.push (pred_ref p) m.other_trail)) [
        | inl full ↦ absurd (ground (arith, full))
        | inr (t, room) ↦ subst Recoverable (ground (arith, room)) (vs, _, push_hold i p t room)
      ]

  allocate-Recoverable :
      (m m' : Machine) (a n : ℕ)
      → allocate_heap_space n m ≡ some (a, m')
      → Recoverable m
      → Recoverable m'
  unfolding allocate_heap_space Recoverable
  allocate-Recoverable m m' a n e (vs, es, i) = (
    vs,
    es,
    record {
      binding_entries = ground (arith, i.binding_entries);
      binding_top = ground (arith, i.binding_top);
      other_entries = ground (arith, i.other_entries);
      other_top = ground (arith, i.other_top);
      saved = ground (arith, i.saved);
      allocated = ground (arith, i.allocated);
      current_saved = ground (arith, i.current_saved);
      current_other = ground (arith, i.current_other);
      cells = i.cells;
      words = λ y hy. ground (arith, i.words y hy);
      refcounts = λ p. ground (arith, i.refcounts p);
    },
  )

  choose-Recoverable : (m : Machine) → Recoverable m → Recoverable (new_choice m)
  unfolding save_heap_and_trails Recoverable
  choose-Recoverable m (vs, es, i) = (
    vs,
    es,
    record {
      binding_entries = i.binding_entries;
      binding_top = i.binding_top;
      other_entries = i.other_entries;
      other_top = i.other_top;
      saved = omega (arith, i.saved, i.allocated);
      allocated = omega arith;
      current_saved = omega (arith, i.saved, i.allocated);
      current_other = omega (arith, i.other_top);
      cells = i.cells;
      words = i.words;
      refcounts = i.refcounts;
    },
  )

  Step-Recoverable : {m m' : Machine} → Step is_cell m m' → Recoverable m → Recoverable m'
  unfolding Recoverable
  Step-Recoverable {m} {m'} (Step.allocate {a} n e) i = allocate-Recoverable m m' a n e i
  Step-Recoverable {m} (Step.initialise a x h) (vs, es, i) =
      (vs, es, write_high i a x (omega (arith, i.saved)))
  Step-Recoverable {m} {m'} (Step.bind v x h u k e) i = bind-Recoverable m m' v x h u k e i
  Step-Recoverable {m} {m'} (Step.bind_vars u v h k e) i = bind_vars-Recoverable m m' u v h k e i
  Step-Recoverable {m} {m'} (Step.update_object p x o z k e) i =
      update_object-Recoverable m m' p x o z k e i
  Step-Recoverable {m} {m'} (Step.update_ip p x o z k e) i =
      update_object-Recoverable m m' p x o z k
        (unfold update_and_trail_ip update_and_trail_object in e) i
  Step-Recoverable {m} (Step.update_tag {m' = n} o x z k e) i = tag-Recoverable m n o x z k e i
  Step-Recoverable {m} {m'} (Step.hold p e) i = hold-Recoverable m m' p e i
  Step-Recoverable {m} Step.choose i = choose-Recoverable m i

  pub Run-Recoverable : {m m' : Machine} → Run is_cell m m' → Recoverable m → Recoverable m'
  Run-Recoverable Run.here i = i
  Run-Recoverable (Run.next s t) i = Step-Recoverable t (Run-Recoverable s i)
