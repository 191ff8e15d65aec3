-- ===== src/Hash/Probe.antt =====
-- The loops of `search` and `insert` in src/dynamic_hash_table.h.
use qu_prolog.Base.{
  ℕ, zero, suc, ◌≡◌, ◌≢◌, refl, sym, ap, ◌∙◌, Bool, true, some, ◌⊎◌, inl, inr, arith,
}
use qu_prolog.Hash.Table.{
  Slot, empty, removed, full, Table, found, free, search_loop, probe_loop, put, step,
}

pub slot_cases : {A : Type 0} (s : Slot A) → (s ≡ empty) ⊎ (s ≡ removed) ⊎ ((x : A) × (s ≡ full x))
slot_cases empty = inl refl
slot_cases removed = inr (inl refl)
slot_cases (full x) = inr (inr (x, refl))

module _ {A : Type 0} (hash : A → ℕ) (same : A → A → Bool) where
  pub search_loop-found :
      (left pos : ℕ) (item : A) (t : Table A) (h : ℕ)
      → probe_loop hash same left pos item t ≡ found h
      → search_loop hash same left pos item t ≡ some h
  unfolding probe_loop search_loop
  search_loop-found zero pos item t h e = ground arith
  search_loop-found (suc left) pos item t h e =
      ground (arith, search_loop-found left (step left pos t) item t h)

  -- Where the loop of `insert` ends at a free slot, there is no item.
  pub probe_loop-free :
      (left pos : ℕ) (item : A) (t : Table A) (h : ℕ)
      → probe_loop hash same left pos item t ≡ free h
      → (x : A) → t.slots h ≢ full x
  unfolding probe_loop
  probe_loop-free zero pos item t h e x s = ground arith
  probe_loop-free (suc left) pos item t h e x s =
      let ih : probe_loop hash same left (step left pos t) item t ≡ free h → ⊥ =
        λ k. probe_loop-free left (step left pos t) item t h k x s in
      ground (arith, ih)

  pub search_loop-put :
      ((x : A) → same x x ≡ true)
      → (left pos : ℕ) (item : A) (t : Table A) (h : ℕ)
      → probe_loop hash same left pos item t ≡ free h
      → search_loop hash same left pos item (put h item t) ≡ some h
  unfolding probe_loop search_loop put
  search_loop-put same_refl zero pos item t h e = ground (arith, same_refl item)
  search_loop-put same_refl (suc left) pos item t h e =
      let ih = search_loop-put same_refl left (step left pos t) item t h in
      elim (slot_cases (t.slots pos)) [
        | inl s ↦ ground (arith, s, same_refl item)
        | inr (inl s) ↦ ground (arith, s, same_refl item)
        | inr (inr (x, s)) ↦
            let apart : pos ≢ h = λ same_place.
              probe_loop-free (suc left) pos item t h e x (ap t.slots (sym same_place) ∙ s) in
            ground (arith, s, ih, apart)
      ]
