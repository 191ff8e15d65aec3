-- ===== src/Hash/Total.antt =====
-- How the calls of `insert` and `resize` in src/dynamic_hash_table.h end.
use qu_prolog.Base.{
  ℕ, zero, suc, ◌+◌, ◌*◌, ◌^◌, ◌≤◌, ◌≡◌, refl, sym, ap, ◌∙◌, subst, Bool, true, Option, none, some,
  arith, inl, inr, Bool-cases,
}
use native.Mathlib.Nat.{pow-succ'}
use qu_prolog.Hash.Table.{
  Slot, empty, Table, next_2power, probe, search, insert, resize, reinsert, new_size, has_removed,
}
use qu_prolog.Hash.Probe.{slot_cases}
use qu_prolog.Hash.Insert.{search-insert}
use qu_prolog.Hash.Count.{count, WellFormed, count-empty, has_removed-empty}
use qu_prolog.Hash.Room.{
  next_2power-pow, Ends, Resized, Clean, Grown, then_insert-Ends, then_reinsert-Resized,
  finish-Ends, room,
}

-- The table that inserting at most `n` items again in `t` gives.
record Rebuilt {A : Type 0} (n : ℕ) (t u : Table A) : Type 0 where
  formed : WellFormed u
  clean : Clean u
  size : u.size ≡ t.size
  used : u.used ≤ t.used + n

Resized-map :
    {A : Type 0} (P Q : Table A → Type 0) (r : Option (Table A))
    → ((u : Table A) → P u → Q u)
    → Resized P r
    → Resized Q r
unfolding Resized
Resized-map P Q none f h = h
Resized-map P Q (some u) f h = f u h

Ends-map :
    {A : Type 0} (P Q : Table A → Type 0) (r : Option (Bool × ℕ × Table A))
    → ((u : Table A) → P u → Q u)
    → Ends P r
    → Ends Q r
unfolding Ends
Ends-map P Q none f h = h
Ends-map P Q (some (known, pos, u)) f h = f u h

-- The same, for a number and a result that are equal.
Resized-eq :
    {A : Type 0} (t : Table A) (n m : ℕ) {r q : Option (Table A)}
    → n ≡ m
    → r ≡ q
    → Resized (Rebuilt m t) q
    → Resized (Rebuilt n t) r
Resized-eq t n m {r = r} e f h =
    subst (λ k. Resized (Rebuilt k t) r) (sym e) (subst (λ q. Resized (Rebuilt m t) q) (sym f) h)

new_size_lem :
    {A : Type 0} (t : Table A)
    → WellFormed t
    → (k : ℕ) × (new_size t ≡ 2 ^ k) × (t.size ≤ new_size t) × (Clean t → new_size t ≡ 2 * t.size)
unfolding new_size Clean
new_size_lem t w =
    let l = w.large in
    let double : next_2power t.size ≡ 2 * t.size =
      ap next_2power w.power
      ∙ next_2power-pow w.log (omega (arith, w.power))
      ∙ ap (λ n. 2 * n) (sym w.power) in
    elim (Bool-cases (has_removed t.size t.slots)) [
      | inl e ↦ (w.log, ground (arith, e, w.power), ground (arith, e), λ c. ground (arith, e, c))
      | inr e ↦ (
        suc w.log,
        ground (arith, e, w.power, double, pow-succ' 2 w.log),
        ground (arith, e, double),
        λ c. ground (arith, e, double),
      )
    ]

module _ {A : Type 0} (hash : A → ℕ) (same : A → A → Bool) where
  reinsert-Resized :
      (fuel left j : ℕ) (old : ℕ → Slot A) (t : Table A)
      → WellFormed t
      → Clean t
      → (t.used + count left j old) * 2 ≤ t.size + 2
      → Resized (Rebuilt (count left j old) t) (reinsert (insert hash same (suc fuel)) left j old t)
  unfolding reinsert count Resized
  reinsert-Resized fuel zero j old t w c h = record {
    formed = w;
    clean = c;
    size = refl;
    used = omega arith;
  }
  reinsert-Resized fuel (suc left) j old t w c h = elim (slot_cases (old j)) [
    | inl s ↦
        Resized-eq t _ _ (rw (s, count) refl) (rw (s, reinsert) refl)
          (reinsert-Resized fuel left (suc j) old t w c (ground (arith, s, h)))
    | inr (inl s) ↦
        Resized-eq t _ _ (rw (s, count) refl) (rw (s, reinsert) refl)
          (reinsert-Resized fuel left (suc j) old t w c (ground (arith, s, h)))
    | inr (inr (x, s)) ↦
        let l = w.large in
        let n = count left (suc j) old in
        let bound : (t.used + (n + 1)) * 2 ≤ t.size + 2 = ground (arith, s, h) in
        Resized-eq t _ _ (rw (s, count) refl) (rw (s, reinsert) refl) (
          then_reinsert-Resized (Rebuilt (n + 1) t) (Grown t) _ _
            (room hash same fuel x t w (omega arith))
            (λ u g.
              Resized-map (Rebuilt n u) (Rebuilt (n + 1) t) _
                (λ v r. record {
                  formed = r.formed;
                  clean = r.clean;
                  size = r.size ∙ g.size;
                  used = omega (arith, r.used, g.used);
                })
                (reinsert-Resized fuel left (suc j) old u g.formed (g.cleanly c)
                  (omega (arith, g.used, g.size, bound)))))
  ]

  -- Resizing keeps the items, and leaves no removed slot.
  resize-Resized :
      (fuel size k : ℕ) (t : Table A)
      → WellFormed t
      → size ≡ 2 ^ k
      → t.size ≤ size
      → Resized
          (λ u. WellFormed u × Clean u × (u.size ≡ size) × (u.used ≤ t.used))
          (resize (insert hash same (suc fuel)) size t)
  unfolding resize Clean
  resize-Resized fuel size k t w p b =
      let l = w.large in
      let c = w.counted in
      let start : Table A = record t { size = size; used = 0; slots = λ i. empty } in
      let formed : WellFormed start = record {
        log = k;
        power = p;
        large = omega arith;
        counted = sym (count-empty A size 0);
        bounded = omega arith;
      } in
      Resized-map (Rebuilt (count t.size 0 t.slots) start) _ _
        (λ u r. (r.formed, r.clean, r.size, omega (arith, r.used)))
        (reinsert-Resized fuel t.size 0 t.slots start formed (has_removed-empty A size)
          (omega (arith, w.bounded)))

  -- With no removed slot, the table doubles if it is resized at all.
  insert-Clean :
      (fuel : ℕ) (item : A) (t : Table A)
      → WellFormed t
      → Clean t
      → Ends WellFormed (insert hash same (suc (suc fuel)) item t)
  unfolding insert
  insert-Clean fuel item t w c =
      let (k, power, large, double) = new_size_lem t w in
      finish-Ends hash same WellFormed _ item t (probe hash same item t) w refl w
        (λ u _ g. g.formed)
        (λ over.
          then_insert-Ends WellFormed _ (insert hash same (suc fuel)) item _
            (resize-Resized fuel (new_size t) k t w power large)
            (λ u (formed, clean, size, used).
              Ends-map (Grown u) WellFormed _ (λ v g. g.formed)
                (room hash same fuel item u formed
                  (omega (arith, w.bounded, w.large, size, used, double c)))))

  insert-Ends :
      (fuel : ℕ) (item : A) (t : Table A)
      → WellFormed t
      → Ends WellFormed (insert hash same (suc (suc (suc fuel))) item t)
  unfolding insert
  insert-Ends fuel item t w =
      let (k, power, large, double) = new_size_lem t w in
      finish-Ends hash same WellFormed _ item t (probe hash same item t) w refl w
        (λ u _ g. g.formed)
        (λ over.
          then_insert-Ends WellFormed _ (insert hash same (suc (suc fuel))) item _
            (resize-Resized (suc fuel) (new_size t) k t w power large)
            (λ u (formed, clean, size, used). insert-Clean fuel item u formed clean))

  ended :
      {P : Table A → Type 0} (r : Option (Bool × ℕ × Table A))
      → Ends P r
      → (known : Bool) × (h : ℕ) × (u : Table A) × (r ≡ some (known, h, u)) × P u
  unfolding Ends
  ended none e = absurd e
  ended (some (known, h, u)) e = (known, h, u, refl, e)

  -- On a well-formed table, whose size is a power of 2 and at least 4, whose `used` is the number
  -- of its items and at most one more than half of the size: a call of `insert` ends with no abort
  -- and at most three calls deep, the table that it leaves is well-formed, and `search` finds the
  -- item in it at the position that `insert` answers. The hash function may
  -- be any, and an item equals itself.
  pub search-insert_total :
      ((x : A) → same x x ≡ true)
      → (fuel : ℕ) (item : A) (t : Table A) → WellFormed t
      → (known : Bool) × (h : ℕ) × (u : Table A) × (insert hash same (3 + fuel) item t
          ≡ some (known, h, u))
        × WellFormed u
        × (search hash same item u ≡ some h)
  search-insert_total same_refl fuel item t w =
      let (known, h, u, e, formed) = ended _ (insert-Ends fuel item t w) in
      let e' : insert hash same (3 + fuel) item t ≡ some (known, h, u) =
        ap (λ n. insert hash same n item t) (omega arith) ∙ e in
      (known, h, u, e', formed, search-insert hash same same_refl (3 + fuel) item t known h u e')
