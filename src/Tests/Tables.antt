-- ===== src/Tests/Tables.antt =====
-- Hash tables of numbers (src/dynamic_hash_table.h).
use qu_prolog.Base.{
  ℕ, ◌+◌, ◌*◌, ◌<◌, ◌^◌, ◌≡◌, ◌≤◌, refl, Bool, true, false, Option, none, some, ◌==◌, if◌then◌else◌,
  arith,
}
use qu_prolog.Hash.Table.{
  Slot, removed, full, Table, insert, search, search_loop, probe, probe_loop, new_table, remove,
  new_size, has_removed, next_2power, doubled, put, finish, then_insert, answer_false, resize,
  reinsert, then_reinsert, iter_next, iter_loop, done,
}
use qu_prolog.Hash.Count.{count, WellFormed}
use qu_prolog.Hash.Invariant.{new_table-remove-WellFormed}
use qu_prolog.Hash.Total.{search-insert_total}

abbrev identity : ℕ → ℕ
identity x = x

abbrev same : ℕ → ℕ → Bool
same x y = x == y

abbrev three_items : ℕ → Slot ℕ
three_items n =
    if n == 0 then full 4 else if n == 1 then full 1 else if n == 2 then full 2 else removed

-- Three items and a slot that an item was removed from, in a table of four.
abbrev crowded : Table ℕ
crowded = record { size = 4; used = 3; slots = three_items; iter_pos = 0 }

crowded-WellFormed : WellFormed crowded
unfolding count
crowded-WellFormed = record {
  log = 2;
  power = refl;
  large = omega arith;
  counted = refl;
  bounded = omega arith;
}

tables : Unit {0}
unfolding insert search search_loop probe probe_loop new_size has_removed next_2power doubled put
    finish then_insert answer_false resize reinsert then_reinsert new_table remove iter_next
    iter_loop
tables = tt

-- The table is cleaned and then doubled; 7 goes to slot 7.
position_of_seven : search identity same 7 crowded ≡ none
unfolding tables
position_of_seven = refl

outcome : Option (Bool × ℕ × Table ℕ) → Bool × ℕ × ℕ
outcome none = (true, 0, 0)
outcome (some (known, h, t)) = (known, h, t.size)

size_after : outcome (insert identity same 3 7 crowded) ≡ (false, 7, 8)
unfolding tables outcome
size_after = refl

first_removed : (remove 2 crowded).0 ≡ done
unfolding tables
first_removed = refl

first_item : (iter_next crowded).0 ≡ some 0
unfolding tables
first_item = refl

search-insert_total_example :
    (known : Bool) × (h : ℕ) × (u : Table ℕ) × (insert identity same (3 + 0) 7 crowded
      ≡ some (known, h, u))
    × WellFormed u
    × (search identity same 7 u ≡ some h)
search-insert_total_example =
    search-insert_total identity same (λ x. ground arith) 0 7 crowded crowded-WellFormed

new_table-remove-WellFormed_example :
    WellFormed (new_table {A = ℕ} 9 3)
    × (2 * 3 ≤ (new_table {A = ℕ} 9 3).size)
    × ((new_table {A = ℕ} 9 3).size < 2 ^ 31)
    × WellFormed (remove 2 crowded).1
new_table-remove-WellFormed_example =
    new_table-remove-WellFormed 9 3 2 crowded (omega arith) (omega arith) crowded-WellFormed
