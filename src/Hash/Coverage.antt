-- ===== src/Hash/Coverage.antt =====
-- Which slots the loop of `insert` in src/dynamic_hash_table.h visits.
use qu_prolog.Base.{
  ℕ, zero, suc, ◌+◌, ◌-◌, ◌%◌, ◌^◌, ◌<◌, ◌≡◌, ◌≢◌, sym, ap, ◌∙◌, arith, inl, inr, Bool, subst,
}
use native.Mathlib.Nat.{mod-add-mod, mod-lt}
use qu_prolog.Hash.Table.{Table, full, cycled, probe_loop, probe, step}
use qu_prolog.Hash.Probe.{slot_cases}
use qu_prolog.Hash.Surjective.{reaches}
use qu_prolog.Hash.Triangular.{triangle, steps_apart}

module _ {A : Type 0} (hash : A → ℕ) (same : A → A → Bool) where
  -- The slot that the loop looks at after `i` steps.
  visited : A → Table A → ℕ → ℕ
  visited item t i = (hash item + triangle i) % t.size

  visited-suc :
      (item : A) (t : Table A) (i : ℕ)
      → (visited item t i + suc i) % t.size ≡ visited item t (suc i)
  unfolding visited triangle
  visited-suc item t i =
      mod-add-mod (hash item + triangle i) t.size (suc i) ∙ ap (λ x. x % t.size) (omega arith)

  full_here :
      (item : A) (t : Table A) (left pos : ℕ)
      → probe_loop hash same left pos item t ≡ cycled
      → (x : A) × (t.slots pos ≡ full x)
  unfolding probe_loop
  full_here item t zero pos e = elim (slot_cases (t.slots pos)) [
    | inl s ↦ absurd (ground (arith, s, e))
    | inr (inl s) ↦ absurd (ground (arith, s, e))
    | inr (inr f) ↦ f
  ]
  full_here item t (suc left) pos e = elim (slot_cases (t.slots pos)) [
    | inl s ↦ absurd (ground (arith, s, e))
    | inr (inl s) ↦ absurd (ground (arith, s, e))
    | inr (inr f) ↦ f
  ]

  -- Where the loop runs to its end, all slots that it looks at are full.
  all_full :
      (item : A) (t : Table A) (left i j : ℕ)
      → t.size ≡ suc left + i
      → probe_loop hash same left (visited item t i) item t ≡ cycled
      → j < suc left
      → (x : A) × (t.slots (visited item t (j + i)) ≡ full x)
  unfolding probe_loop
  all_full item t left i zero n e h =
      subst (λ p. (x : A) × (t.slots (visited item t p) ≡ full x)) (omega arith)
        (full_here item t left (visited item t i) e)
  all_full item t zero i (suc j) n e h = absurd (omega arith)
  all_full item t (suc left) i (suc j) n e h =
      let (x, s) = full_here item t (suc left) (visited item t i) e in
      let rest : probe_loop hash same left (step left (visited item t i) t) item t ≡ cycled =
        ground (arith, s, e) in
      let next : step left (visited item t i) t ≡ visited item t (suc i) =
        ap (λ d. (visited item t i + d) % t.size) (omega arith) ∙ visited-suc item t i in
      subst (λ p. (x : A) × (t.slots (visited item t p) ≡ full x)) (omega arith)
        (all_full item t left (suc i) j (omega arith)
          (subst (λ p. probe_loop hash same left p item t ≡ cycled) next rest) (omega arith))

  visited_apart :
      (item : A) (t : Table A) (k i j : ℕ)
      → t.size ≡ 2 ^ k
      → i < j
      → j < t.size
      → visited item t i ≢ visited item t j
  unfolding visited
  visited_apart item t k i j n less h e =
      let e' = subst (λ m. (hash item + triangle i) % m ≡ (hash item + triangle j) % m) n e in
      steps_apart k (hash item) i (j - i - 1) (omega arith)
        (e' ∙ ap (λ d. (hash item + triangle d) % 2 ^ k) (omega arith))

  visited_inj :
      (item : A) (t : Table A) (k i j : ℕ)
      → t.size ≡ 2 ^ k
      → i < t.size
      → j < t.size
      → visited item t i ≡ visited item t j
      → i ≡ j
  visited_inj item t k i j n hi hj e =
      let up : i < j → ⊥ = λ l. visited_apart item t k i j n l hj e in
      let down : j < i → ⊥ = λ l. visited_apart item t k j i n l hi (sym e) in
      ground (arith, up, down)

  -- A table whose size is a power of 2 and that has a slot with no item in it: the loop of `insert`
  -- ends at an equal item or at such a slot, whatever the hash function is.
  pub probe_ends :
      (item : A) (t : Table A) (k y : ℕ)
      → t.size ≡ 2 ^ k
      → y < t.size
      → ((x : A) → t.slots y ≢ full x)
      → probe hash same item t ≢ cycled
  unfolding probe visited triangle
  probe_ends item t k y n h vacant e =
      let (i, small, hit) =
        reaches t.size (visited item t) (λ i hi. mod-lt (hash item + triangle i) (omega arith))
          (λ i j hi hj same_slot. visited_inj item t k i j n hi hj same_slot) y h in
      let (x, s) =
        all_full item t (t.size - 1) 0 i (omega arith)
          (subst (λ p. probe_loop hash same (t.size - 1) (p % t.size) item t ≡ cycled) (omega arith)
            e)
          (omega arith) in
      vacant x (ap t.slots (sym hit ∙ ap (visited item t) (omega arith)) ∙ s)
