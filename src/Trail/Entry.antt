-- ===== src/Trail/Entry.antt =====
-- The store that the trails restore, and the entries of the value trail (src/trail.h).
-- Addresses are word numbers; `NULL` is 0. `u_int` has four bytes, and the sizes of the entries
-- are those of an LP64 machine.
use qu_prolog.Base.{
  ℕ, ◌+◌, ◌-◌, Bool, true, false, ◌&&◌, List, [], ◌∷◌, ltb, leb, ◌==◌, if◌then◌else◌, update,
}

-- What `release` reads and writes of a `DynamicPredicate`. `collections` counts the calls of
-- `gcPredicate`, which clears the dirty flag.
pub record Predicate : Type 0 where
  pub refcount : ℕ
  pub dirty : Bool
  pub collections : ℕ

-- The words of memory, the dynamic predicates and the cleanup levels.
pub record Store : Type 0 where
  pub word : ℕ → ℕ
  pub predicate : ℕ → Predicate
  pub cleanup : ℕ → ℕ

pub data Entry : Type 0 where
  updatable_object : ℕ → ℕ → ℕ → Entry
  updatable_tag : ℕ → ℕ → Entry
  pred_ref : ℕ → Entry
  cleanup_entry : ℕ → ℕ → Entry

-- `sizeof(...) / sizeof(u_int)`
unfoldable pub size : Entry → ℕ
size (updatable_object addr old offset) = 8
size (updatable_tag addr old) = 6
size (pred_ref p) = 4
size (cleanup_entry c t) = 6

unfoldable pub acquire : Predicate → Predicate
acquire p = record p { refcount = p.refcount + 1 }

unfoldable pub release : Predicate → Predicate
release p =
    let n = p.refcount - 1 in
    if n == 0 && p.dirty
    then record { refcount = n; dirty = false; collections = p.collections + 1 }
    else record p { refcount = n }

-- `if (cloc < *cleanuploc) *cleanuploc = cloc`
unfoldable pub lower : ℕ → ℕ → ℕ
lower c old = if ltb c old then c else old

unfoldable pub backtrack : Entry → Store → Store
backtrack (updatable_object addr old offset) s =
    if addr == 0 then s else record s { word = update s.word (addr + offset) old }
backtrack (updatable_tag addr old) s =
    if addr == 0 then s else record s { word = update s.word addr old }
backtrack (pred_ref p) s = record s { predicate = update s.predicate p (release (s.predicate p)) }
backtrack (cleanup_entry c t) s = record s { cleanup = update s.cleanup t (lower c (s.cleanup t)) }

-- `operator==`, which the dynamic type of the left entry chooses
unfoldable pub same : Entry → Entry → Bool
same (updatable_object a o i) (updatable_object b p j) = a == b && i == j
same (updatable_tag a o) (updatable_tag b p) = a == b
same _ _ = false

unfoldable pub occurs : Entry → List Entry → Bool
occurs e [] = false
occurs e (d ∷ es) = if same d e then true else occurs e es

-- Whether an update at `addr` need not be kept: it is void, it is above the saved top, or an
-- older entry up to the choice point saves the same word.
unfoldable pub is_redundant : Entry → ℕ → List Entry → ℕ → ℕ → Bool
is_redundant e addr older saved_top heap_top =
    if addr == 0
    then true
    else if leb saved_top addr && ltb addr heap_top
    then true
    else occurs e older

-- The answer of `tidy` and the store that it leaves.
unfoldable pub tidy : Entry → List Entry → ℕ → ℕ → Store → Bool × Store
tidy (updatable_object addr old offset) older saved_top heap_top s =
    (is_redundant (updatable_object addr old offset) addr older saved_top heap_top, s)
tidy (updatable_tag addr old) older saved_top heap_top s =
    (is_redundant (updatable_tag addr old) addr older saved_top heap_top, s)
tidy (pred_ref p) older saved_top heap_top s = (true, backtrack (pred_ref p) s)
tidy (cleanup_entry c t) older saved_top heap_top s = (true, backtrack (cleanup_entry c t) s)
