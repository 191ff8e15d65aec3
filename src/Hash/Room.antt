-- ===== src/Hash/Room.antt =====
-- A call of `insert` in src/dynamic_hash_table.h on a table with room.
use qu_prolog.Base.{
  ℕ, zero, suc, ◌+◌, ◌-◌, ◌*◌, ◌/◌, ◌^◌, ◌<◌, ◌≤◌, ◌≡◌, ◌≢◌, refl, sym, ap, ◌∙◌, Bool, false,
  Option, none, some, arith, inl, inr, Bool-cases, ltb,
}
use native.Mathlib.Nat.{pow-succ', mod-lt, mul_assoc}
use qu_prolog.Hash.Table.{
  full, Table, doubled, next_2power, found, free, cycled, Probe, probe, probe_loop, step, put,
  finish, insert, then_insert, answer_false, then_reinsert, has_removed,
}
use qu_prolog.Hash.Probe.{slot_cases, probe_loop-free}
use qu_prolog.Hash.Coverage.{probe_ends}
use qu_prolog.Hash.Count.{WellFormed, vacant, count-update, has_removed-update}

doubled_lem : (k fuel m power : ℕ) → m ≤ fuel → suc m ≡ 2 ^ k → doubled fuel m power ≡ power * 2 ^ k
unfolding doubled
doubled_lem zero zero m power h e = omega (arith, e)
doubled_lem zero (suc fuel) m power h e = ground (arith, e)
doubled_lem (suc k) zero m power h e = absurd (omega (arith, pow-succ' 2 k))
doubled_lem (suc k) (suc fuel) m power h e =
    let p = pow-succ' 2 k in
    let ih = doubled_lem k fuel (m / 2) (power * 2) (omega (arith, p)) (omega (arith, p)) in
    let q : power * 2 * 2 ^ k ≡ power * 2 ^ suc k =
      mul_assoc power 2 (2 ^ k) ∙ ap (λ x. power * x) (sym p) in
    ground (arith, ih, q, p)

pub next_2power-pow : (k : ℕ) → 0 < 2 ^ k → next_2power (2 ^ k) ≡ 2 * 2 ^ k
unfolding next_2power
next_2power-pow k h = doubled_lem k (2 ^ k) (2 ^ k - 1) 2 (omega arith) (omega arith)

-- A call ended, and `P` holds of the table that it leaves.
unfoldable pub Ends : {A : Type 0} → (Table A → Type 0) → Option (Bool × ℕ × Table A) → Type 0
Ends P none = ⊥
Ends P (some (known, h, t)) = P t

unfoldable pub Resized : {A : Type 0} → (Table A → Type 0) → Option (Table A) → Type 0
Resized P none = ⊥
Resized P (some t) = P t

unfoldable pub Clean : {A : Type 0} → Table A → Type 0
Clean t = has_removed t.size t.slots ≡ false

-- What inserting in a table with room gives.
pub record Grown {A : Type 0} (t u : Table A) : Type 0 where
  pub formed : WellFormed u
  pub size : u.size ≡ t.size
  pub used : u.used ≤ t.used + 1
  pub cleanly : Clean t → Clean u

module _ {A : Type 0} (P Q : Table A → Type 0) where
  answer_false-Ends : (r : Option (Bool × ℕ × Table A)) → Ends P r → Ends P (answer_false r)
  unfolding answer_false Ends
  answer_false-Ends none e = e
  answer_false-Ends (some (known, pos, u)) e = e

  pub then_insert-Ends :
      (put_in : A → Table A → Option (Bool × ℕ × Table A)) (item : A) (r : Option (Table A))
      → Resized Q r
      → ((t : Table A) → Q t → Ends P (put_in item t))
      → Ends P (then_insert put_in item r)
  unfolding then_insert Resized
  then_insert-Ends put_in item none q h = absurd q
  then_insert-Ends put_in item (some t) q h = answer_false-Ends (put_in item t) (h t q)

  pub then_reinsert-Resized :
      (rest : Table A → Option (Table A)) (r : Option (Bool × ℕ × Table A))
      → Ends Q r
      → ((t : Table A) → Q t → Resized P (rest t))
      → Resized P (then_reinsert rest r)
  unfolding then_reinsert Ends
  then_reinsert-Resized rest none q h = absurd q
  then_reinsert-Resized rest (some (known, pos, t)) q h = h t q

put-Grown :
    {A : Type 0} (item : A) (t : Table A) (pos : ℕ)
    → WellFormed t
    → t.used * 2 ≤ t.size
    → pos < t.size
    → ((x : A) → t.slots pos ≢ full x)
    → Grown t (put pos item t)
unfolding put Clean
put-Grown item t pos w room b v = record {
  formed = record {
    log = w.log;
    power = w.power;
    large = w.large;
    counted =
        omega
          (arith, count-update t.size 0 pos t.slots item (omega arith) (omega arith) v, w.counted);
    bounded = omega arith;
  };
  size = refl;
  used = omega arith;
  cleanly = has_removed-update t.size pos t.slots item;
}

module _ {A : Type 0} (hash : A → ℕ) (same : A → A → Bool) where
  probe_loop_below :
      (left pos : ℕ) (item : A) (t : Table A) (h : ℕ)
      → pos < t.size
      → probe_loop hash same left pos item t ≡ free h
      → h < t.size
  unfolding probe_loop
  probe_loop_below zero pos item t h b e = ground (arith, e)
  probe_loop_below (suc left) pos item t h b e =
      let ih = probe_loop_below left (step left pos t) item t h (mod-lt _ (omega arith)) in
      elim (slot_cases (t.slots pos)) [
        | inl s ↦ ground (arith, e, s)
        | inr (inl s) ↦ ground (arith, e, s)
        | inr (inr (x, s)) ↦ ground (arith, e, s, ih)
      ]

  not_cycled : (item : A) (t : Table A) → WellFormed t → probe hash same item t ≢ cycled
  not_cycled item t w =
      let (y, b, v) = vacant t.size 0 t.slots (omega (arith, w.large, w.bounded, w.counted)) in
      probe_ends hash same item t w.log y w.power (omega arith) v

  -- What follows the loop of `insert`, if `P` holds of the table as it is and after each way to go
  -- on.
  pub finish-Ends :
      (P : Table A → Type 0) (again : Option (Bool × ℕ × Table A)) (item : A) (t : Table A)
      (p : Probe)
      → WellFormed t
      → probe hash same item t ≡ p
      → P t
      → ((u : Table A) → t.used * 2 ≤ t.size → Grown t u → P u)
      → (t.size < t.used * 2 → Ends P again)
      → Ends P (finish again item t p)
  unfolding finish Ends probe
  finish-Ends P again item t (found pos) w e old grown h = old
  finish-Ends P again item t cycled w e old grown h = absurd (not_cycled item t w e)
  finish-Ends P again item t (free pos) w e old grown h =
      elim (Bool-cases (ltb t.size (t.used * 2))) [
        | inl b ↦ rw b (h (ground (arith, b)))
        | inr b ↦
            let l = w.large in
            let room : t.used * 2 ≤ t.size = ground (arith, b) in
            rw b (
              grown (put pos item t) room (
                put-Grown item t pos w room
                  (probe_loop_below _ _ item t pos (mod-lt (hash item) (omega arith)) e)
                  (probe_loop-free hash same _ _ item t pos e)))
      ]

  -- A call on a table with room inserts the item with no resizing.
  pub room :
      (fuel : ℕ) (item : A) (t : Table A)
      → WellFormed t
      → t.used * 2 ≤ t.size
      → Ends (Grown t) (insert hash same (suc fuel) item t)
  unfolding insert
  room fuel item t w r =
      finish-Ends (Grown t) _ item t (probe hash same item t) w refl
        (record { formed = w; size = refl; used = omega arith; cleanly = λ c. c }) (λ u _ g. g)
        (λ over. absurd (omega arith))
