-- ===== src/Machine/Steps.antt =====
-- What runs between two choice points, as steps of the machine (src/bind.h, src/heap_qp.h).
-- `is_cell` tells the words that hold the reference of a variable from the other words.
use qu_prolog.Base.{ℕ, ◌+◌, ◌≤◌, ◌≡◌, ◌≢◌, Bool, true, false, some}
use qu_prolog.Machine.{
  Machine, allocate_heap_space, write, bind_and_trail, bind_var_var, update_and_trail_object,
  update_and_trail_ip, trail_tag, hold_predicate, save_heap_and_trails,
}

-- The new choice point saves the state and becomes the current one.
abbrev pub new_choice : Machine → Machine
new_choice m = let (c, m') = save_heap_and_trails m in record m' { current = c }

module _ (is_cell : ℕ → Bool) where
  pub data Step : Machine → Machine → Type 0 where
    -- a block of the heap is taken
    allocate : {m m' : Machine} {a : ℕ} (n : ℕ) → allocate_heap_space n m ≡ some (a, m') → Step m m'
    -- a word of a block taken since the last choice point gets a value
    initialise : {m : Machine} (a x : ℕ) → m.saved_top ≤ a → Step m (write a x m)
    -- an unbound variable of the heap is bound
    bind :
        {m m' : Machine} (v x : ℕ)
        → m.base ≤ v
        → m.store.word (v + 1) ≡ v
        → is_cell (v + 1) ≡ true
        → bind_and_trail v x m ≡ some m'
        → Step m m'
    bind_vars :
        {m m' : Machine} (u v : ℕ)
        → m.store.word (u + 1) ≡ u
        → is_cell (u + 1) ≡ true
        → bind_var_var u v m ≡ some m'
        → Step m m'
    -- a word that is not a variable's reference is changed
    update_object :
        {m m' : Machine} (ptr x offset : ℕ)
        → ptr ≢ 0
        → is_cell (ptr + offset) ≡ false
        → update_and_trail_object ptr x offset m ≡ some m'
        → Step m m'
    update_ip :
        {m m' : Machine} (ptr x offset : ℕ)
        → ptr ≢ 0
        → is_cell (ptr + offset) ≡ false
        → update_and_trail_ip ptr x offset m ≡ some m'
        → Step m m'
    update_tag :
        {m m' : Machine} (o x : ℕ)
        → o ≢ 0
        → is_cell o ≡ false
        → trail_tag o m ≡ some m'
        → Step m (write o x m')
    hold : {m m' : Machine} (p : ℕ) → hold_predicate p m ≡ some m' → Step m m'
    -- a newer choice point is made
    choose : {m : Machine} → Step m (new_choice m)

  pub data Run (m : Machine) : Machine → Type 0 where
    here : Run m m
    next : {k n : Machine} → Run m k → Step k n → Run m n
