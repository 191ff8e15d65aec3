-- ===== src/Trail/Binding.antt =====
-- `BindingTrail` of src/trail.h: a stack of variables that grows down from `high` to `low`.
-- `entries` is what memory holds from `top` to `high`, the newest variable first.
use qu_prolog.Base.{
  ℕ, ◌+◌, ◌-◌, ◌*◌, List, [], ◌∷◌, ◌++◌, Option, none, some, ltb, leb, if◌then◌else◌, update,
  length,
}

pub record BindingTrail : Type 0 where
  pub low : ℕ
  pub high : ℕ
  pub top : ℕ
  pub low_water : ℕ
  pub entries : List ℕ

unfoldable pub new_trail : ℕ → ℕ → BindingTrail
new_trail stack n =
    let high = stack + n * 1024 in
    record { low = stack; high = high; top = high; low_water = high; entries = [] }

unfoldable pub max_usage : BindingTrail → ℕ
max_usage t = t.high - t.low_water

unfoldable pub used_trail : BindingTrail → ℕ
used_trail t = t.high - t.top

unfoldable pub allocated_size : BindingTrail → ℕ
allocated_size t = t.high - t.low

-- `none` is the fatal overflow.
unfoldable pub push : ℕ → BindingTrail → Option BindingTrail
push v t =
    let top = t.top - 1 in
    if leb top t.low
    then none
    else some (record t {
      top = top;
      low_water = if ltb top t.low_water then top else t.low_water;
      entries = v ∷ t.entries;
    })

-- A variable is unbound when the word after its tag is its own address.
unfoldable pub reset : ℕ → (ℕ → ℕ) → ℕ → ℕ
reset v w = update w (v + 1) v

unfoldable pub backtrack_loop : ℕ → ℕ → List ℕ → (ℕ → ℕ) → List ℕ × (ℕ → ℕ)
backtrack_loop current loc [] w = ([], w)
backtrack_loop current loc (v ∷ vs) w =
    let rest = backtrack_loop (current + 1) loc vs (reset v w) in
    if ltb current loc then rest else (v ∷ vs, w)

unfoldable pub backtrack_to : ℕ → BindingTrail → (ℕ → ℕ) → BindingTrail × (ℕ → ℕ)
backtrack_to loc t w =
    let (vs, w') = backtrack_loop t.top loc t.entries w in
    (record t { top = loc; entries = vs }, w')

-- The loop runs from `loc - 1` down to the top, so the recursion goes first to the older entries:
-- those that stay, and those from `loc` on.
unfoldable pub tidy_loop : ℕ → ℕ → ℕ → List ℕ → List ℕ × List ℕ
tidy_loop current loc saved_top [] = ([], [])
tidy_loop current loc saved_top (v ∷ vs) =
    let (keep, beyond) = tidy_loop (current + 1) loc saved_top vs in
    if ltb current loc then ((if ltb v saved_top then v ∷ keep else keep), beyond) else ([], v ∷ vs)

unfoldable pub tidy_up_trail : ℕ → ℕ → BindingTrail → BindingTrail
tidy_up_trail loc saved_top t =
    let (keep, beyond) = tidy_loop t.top loc saved_top t.entries in
    record t { top = loc - length keep; entries = keep ++ beyond }
