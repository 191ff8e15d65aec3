-- ===== src/Hash/Invariant.antt =====
-- The constructor and `remove` of src/dynamic_hash_table.h.
use qu_prolog.Base.{
  ℕ, zero, suc, ◌+◌, ◌-◌, ◌*◌, ◌/◌, ◌^◌, ◌<◌, ◌≤◌, ◌≡◌, refl, sym, ap, ◌∙◌, arith, inl, inr, update,
  Bool-cases, leb, ◌==◌,
}
use native.Mathlib.Nat.{pow-succ', mul_assoc}
use qu_prolog.Hash.Table.{Slot, removed, full, Table, doubled, next_2power, new_table, remove}
use qu_prolog.Hash.Probe.{slot_cases}
use qu_prolog.Hash.Count.{count, count-update_before, WellFormed, count-empty}

-- The power of 2 above `m`.
doubled-pow :
    (fuel m power : ℕ)
    → m ≤ fuel
    → (k : ℕ) × (doubled fuel m power ≡ power * 2 ^ k)
      × (m < 2 ^ k)
      × (m ≡ 0 → 2 ^ k ≡ 1)
      × (1 ≤ m → 2 ^ k ≤ 2 * m)
unfolding doubled
doubled-pow zero m power h = (0, omega arith, omega arith, λ e. refl, λ l. omega arith)
doubled-pow (suc fuel) m power h = elim (Bool-cases (m == 0)) [
  | inl e ↦ (0, rw e (omega arith), ground (arith, e), λ _. refl, λ l. omega arith)
  | inr e ↦
      let (k, g, above, least, near) = doubled-pow fuel (m / 2) (power * 2) (ground (arith, e)) in
      let twice = pow-succ' 2 k in
      (
        suc k,
        rw e (g ∙ mul_assoc power 2 (2 ^ k) ∙ ap (λ x. power * x) (sym twice)),
        omega (arith, twice, above),
        λ z. absurd (ground (arith, e, z)),
        λ l. ground (arith, twice, least, near),
      )
]

pub count-update_removed :
    {A : Type 0} (left j y : ℕ) (slots : ℕ → Slot A) (x : A)
    → j ≤ y
    → y < left + j
    → slots y ≡ full x
    → count left j slots ≡ count left j (update slots y removed) + 1
unfolding count
count-update_removed zero j y slots x h k v = absurd (omega arith)
count-update_removed (suc left) j y slots x h k v = elim (Bool-cases (y == j)) [
  | inl e ↦
      let ih = count-update_before left (suc j) y slots removed (ground arith) in
      let s : slots j ≡ full x = ap slots (ground arith) ∙ v in ground (arith, e, ih, s)
  | inr e ↦
      let ih = count-update_removed left (suc j) y slots x (ground arith) (omega arith) v in
      ground (arith, ih, e)
]

two_pow_pos : (k : ℕ) → 1 ≤ 2 ^ k
two_pow_pos zero = omega arith
two_pow_pos (suc k) = omega (arith, two_pow_pos k, pow-succ' 2 k)

next_2power_lem :
    (n : ℕ) → 2 ≤ n → (k : ℕ) × (next_2power n ≡ 2 ^ suc k) × (n ≤ 2 ^ k) × (2 ^ k ≤ 2 * (n - 1))
unfolding next_2power
next_2power_lem n h =
    let (k, e, above, least, near) = doubled-pow n (n - 1) 2 (omega arith) in
    (k, e ∙ sym (pow-succ' 2 k), omega (arith, above), near (omega arith))

new_table-WellFormed :
    {A : Type 0} (unset n : ℕ)
    → 2 ≤ n
    → let t = new_table {A = A} unset n in WellFormed t × (2 * n ≤ t.size) × (t.size ≤ 4 * (n - 1))
unfolding new_table
new_table-WellFormed {A = A} unset n h =
    let (k, power, above, near) = next_2power_lem n h in
    let twice = pow-succ' 2 k in
    let formed : WellFormed (new_table {A = A} unset n) = record {
      log = suc k;
      power = power;
      large = omega (arith, power, twice, above);
      counted = sym (count-empty A (next_2power n) 0);
      bounded = omega arith;
    } in
    (formed, omega (arith, power, twice, above), omega (arith, power, twice, near))

-- Removing the item at a position leaves a well-formed table well-formed, and so does the removal
-- at a position that is free or out of range.
remove-WellFormed :
    {A : Type 0} (position : ℕ) (t : Table A) → WellFormed t → WellFormed (remove position t).1
unfolding remove
remove-WellFormed position t w = elim (Bool-cases (leb t.size position)) [
  | inl e ↦ rw e w
  | inr e ↦ elim (slot_cases (t.slots position)) [
    | inl s ↦ rw (e, s) w
    | inr (inl s) ↦ rw (e, s) w
    | inr (inr (x, s)) ↦
        let one_less =
          count-update_removed t.size 0 position t.slots x (omega arith) (ground (arith, e)) s in
        rw (e, s)
          (record {
            log = w.log;
            power = w.power;
            large = w.large;
            counted = omega (arith, one_less, w.counted);
            bounded = omega (arith, w.bounded);
          })
  ]
]

-- A table that is made for `n` items, where `n` is from 2 to 2 ^ 29, is well-formed, and its size is
-- at least 2 * n and below 2 ^ 31, so that the `int` does not overflow; and a well-formed table stays
-- so whatever `remove` does. The size of a well-formed table is a power of 2 and at least 4, and
-- `used` is the number of its items and at most one more than half of the size.
pub new_table-remove-WellFormed :
    {A : Type 0} (unset n position : ℕ) (t : Table A)
    → 2 ≤ n
    → n ≤ 2 ^ 29
    → WellFormed t
    → WellFormed (new_table {A = A} unset n)
      × (2 * n ≤ (new_table {A = A} unset n).size)
      × ((new_table {A = A} unset n).size < 2 ^ 31)
      × WellFormed (remove position t).1
new_table-remove-WellFormed {A = A} unset n position t low high w =
    let (formed, above, below) = new_table-WellFormed {A = A} unset n low in
    (formed, above, omega (arith, below), remove-WellFormed position t w)
