-- ===== src/Trail/Other.antt =====
-- `OtherTrail` of src/trail.h: a stack of entries that grows down from `high` to `low`.
-- `entries` is what memory holds from `top` to `high`, the newest entry first.
use qu_prolog.Base.{
  ℕ, ◌+◌, ◌-◌, ◌*◌, List, [], ◌∷◌, ◌++◌, Option, none, some, ltb, leb, if◌then◌else◌,
}
use qu_prolog.Trail.Entry.{
  Store, Entry, updatable_object, updatable_tag, pred_ref, cleanup_entry, size, backtrack, tidy,
}

pub record OtherTrail : Type 0 where
  pub low : ℕ
  pub high : ℕ
  pub top : ℕ
  pub low_water : ℕ
  pub entries : List Entry

-- The constructor, for an area of `n` K words that begins at `stack`.
unfoldable pub new_trail : ℕ → ℕ → OtherTrail
new_trail stack n =
    let high = stack + n * 1024 in
    record { low = stack; high = high; top = high; low_water = high; entries = [] }

unfoldable pub max_usage : OtherTrail → ℕ
max_usage t = t.high - t.low_water

unfoldable pub used_trail : OtherTrail → ℕ
used_trail t = t.high - t.top

unfoldable pub allocated_size : OtherTrail → ℕ
allocated_size t = t.high - t.low

-- What the four `push` methods share; `none` is the fatal overflow.
unfoldable pub push : Entry → OtherTrail → Option OtherTrail
push e t =
    let top = t.top - size e in
    if leb top t.low
    then none
    else some (record t {
      top = top;
      low_water = if ltb top t.low_water then top else t.low_water;
      entries = e ∷ t.entries;
    })

unfoldable pub push_object : ℕ → ℕ → ℕ → OtherTrail → Option OtherTrail
push_object addr old offset = push (updatable_object addr old offset)

unfoldable pub push_tag : ℕ → ℕ → OtherTrail → Option OtherTrail
push_tag addr old = push (updatable_tag addr old)

unfoldable pub push_predicate : ℕ → OtherTrail → Option OtherTrail
push_predicate p = push (pred_ref p)

unfoldable pub push_cleanup : ℕ → ℕ → OtherTrail → Option OtherTrail
push_cleanup c t = push (cleanup_entry c t)

-- The entries from `current` up to `stop`, and those beyond.
unfoldable pub entries_until : ℕ → ℕ → List Entry → List Entry
entries_until current stop [] = []
entries_until current stop (e ∷ es) =
    if ltb current stop then e ∷ entries_until (current + size e) stop es else []

unfoldable pub backtrack_loop : ℕ → ℕ → List Entry → Store → List Entry × Store
backtrack_loop current loc [] s = ([], s)
backtrack_loop current loc (e ∷ es) s =
    let rest = backtrack_loop (current + size e) loc es (backtrack e s) in
    if ltb current loc then rest else (e ∷ es, s)

unfoldable pub backtrack_to : ℕ → OtherTrail → Store → OtherTrail × Store
backtrack_to loc t s =
    let (es, s') = backtrack_loop t.top loc t.entries s in
    (record t { top = loc; entries = es }, s')

unfoldable pub total_size : List Entry → ℕ
total_size [] = 0
total_size (e ∷ es) = size e + total_size es

-- The entries that stay, those beyond `loc`, and the store.
unfoldable pub tidy_loop : ℕ → ℕ → ℕ → ℕ → List Entry → Store → List Entry × List Entry × Store
tidy_loop current loc saved_top heap_top [] s = ([], [], s)
tidy_loop current loc saved_top heap_top (e ∷ es) s =
    let next = current + size e in
    let (drop, s') = tidy e (entries_until next loc es) saved_top heap_top s in
    let (keep, beyond, s'') = tidy_loop next loc saved_top heap_top es s' in
    if ltb current loc then ((if drop then keep else e ∷ keep), beyond, s'') else ([], e ∷ es, s)

unfoldable pub tidy_up_trail : ℕ → ℕ → ℕ → OtherTrail → Store → OtherTrail × Store
tidy_up_trail loc saved_top heap_top t s =
    let (keep, beyond, s') = tidy_loop t.top loc saved_top heap_top t.entries s in
    (record t { top = loc - total_size keep; entries = keep ++ beyond }, s')
