-- ===== src/Trail/Reset.antt =====
-- Backtracking of the binding trail (src/trail.h) as a fold over the variables that it passes.
use qu_prolog.Base.{
  ℕ, ◌+◌, ◌-◌, ◌≤◌, ◌≡◌, refl, sym, ◌∙◌, List, [], ◌∷◌, ◌++◌, arith, ltb, if◌then◌else◌, length,
  length-append, append_assoc,
}
use qu_prolog.Trail.Binding.{
  BindingTrail, reset, backtrack_loop, backtrack_to, tidy_loop, tidy_up_trail,
}

-- Reset the variables in order, the newest first.
unfoldable pub reset_all : List ℕ → (ℕ → ℕ) → ℕ → ℕ
reset_all [] w = w
reset_all (v ∷ vs) w = reset_all vs (reset v w)

pub reset_all_local :
    (vs : List ℕ) (u w : ℕ → ℕ) (x : ℕ) → u x ≡ w x → reset_all vs u x ≡ reset_all vs w x
unfolding reset_all reset
reset_all_local [] u w x h = h
reset_all_local (v ∷ vs) u w x h = reset_all_local vs (reset v u) (reset v w) x (ground arith)

backtrack_loop_lem :
    (c loc : ℕ) (vs us : List ℕ) (w : ℕ → ℕ)
    → loc ≡ c + length vs
    → backtrack_loop c loc (vs ++ us) w ≡ (us, reset_all vs w)
unfolding backtrack_loop reset_all
backtrack_loop_lem c loc [] [] w h = refl
backtrack_loop_lem c loc [] (u ∷ us) w h = ground arith
backtrack_loop_lem c loc (v ∷ vs) us w h =
    ground (arith, backtrack_loop_lem (c + 1) loc vs us (reset v w) (omega arith))

pub backtrack_to_lem :
    (t : BindingTrail) (loc : ℕ) (vs us : List ℕ) (w : ℕ → ℕ)
    → t.entries ≡ vs ++ us
    → loc ≡ t.top + length vs
    → backtrack_to loc t w ≡ (record t { top = loc; entries = us }, reset_all vs w)
unfolding backtrack_to
backtrack_to_lem t loc vs us w h e = rw (h, backtrack_loop_lem t.top loc vs us w e)

-- The variables below the saved top.
unfoldable pub below : ℕ → List ℕ → List ℕ
below st [] = []
below st (v ∷ vs) = let keep = below st vs in if ltb v st then v ∷ keep else keep

pub tidy_loop_lem :
    (c loc st : ℕ) (vs us : List ℕ)
    → loc ≡ c + length vs
    → tidy_loop c loc st (vs ++ us) ≡ (below st vs, us)
unfolding tidy_loop below
tidy_loop_lem c loc st [] [] h = refl
tidy_loop_lem c loc st [] (u ∷ us) h = ground arith
tidy_loop_lem c loc st (v ∷ vs) us h =
    ground (arith, tidy_loop_lem (c + 1) loc st vs us (omega arith))

length-below_le : (st : ℕ) (vs : List ℕ) → length (below st vs) ≤ length vs
unfolding below
length-below_le st [] = omega arith
length-below_le st (v ∷ vs) = ground (arith, length-below_le st vs)

reset_all-append :
    (vs us : List ℕ) (w : ℕ → ℕ) → reset_all (vs ++ us) w ≡ reset_all us (reset_all vs w)
unfolding reset_all
reset_all-append [] us w = refl
reset_all-append (v ∷ vs) us w = reset_all-append vs us (reset v w)

reset_all-below :
    (st : ℕ) (vs : List ℕ) (w : ℕ → ℕ) (x : ℕ)
    → x ≤ st
    → reset_all (below st vs) w x ≡ reset_all vs w x
unfolding reset_all below reset
reset_all-below st [] w x h = refl
reset_all-below st (v ∷ vs) w x h = ground (
  arith,
  reset_all-below st vs (reset v w) x h,
  reset_all-below st vs w x h,
  reset_all_local vs (reset v w) w x,
)

tidy_up_trail_lem :
    (t : BindingTrail) (st : ℕ) (vs us : List ℕ)
    → t.entries ≡ vs ++ us
    → tidy_up_trail (t.top + length vs) st t
      ≡ record t { top = t.top + length vs - length (below st vs); entries = below st vs ++ us }
unfolding tidy_up_trail
tidy_up_trail_lem t st vs us h = rw (h, tidy_loop_lem t.top (t.top + length vs) st vs us refl)

-- Let `vs` be the variables from the top of the binding trail to the location that a choice point
-- saved, and `us` those on to the location of a choice point that is at least as old. Tidying up
-- to the first and then backtracking to the second gives the same trail as backtracking to the
-- second alone, and the same words up to the saved heap top.
pub backtrack_to-tidy_up_trail :
    (t : BindingTrail) (st : ℕ) (vs us rest : List ℕ) (w : ℕ → ℕ)
    → t.entries ≡ vs ++ (us ++ rest)
    → let loc = t.top + length vs in
      let after = backtrack_to (loc + length us) (tidy_up_trail loc st t) w in
      let direct = backtrack_to (loc + length us) t w in
      (after.0 ≡ direct.0) × ((x : ℕ) → x ≤ st → after.1 x ≡ direct.1 x)
backtrack_to-tidy_up_trail t st vs us rest w h =
    let loc = t.top + length vs in
    let short = below st vs in
    let t' : BindingTrail = record t {
      top = loc - length short;
      entries = short ++ (us ++ rest);
    } in
    rw
      (
        tidy_up_trail_lem t st vs (us ++ rest) h,
        backtrack_to_lem t (loc + length us) (vs ++ us) rest w (h ∙ sym (append_assoc vs us rest))
            (omega (arith, length-append vs us)),
        backtrack_to_lem t' (loc + length us) (short ++ us) rest w
            (sym (append_assoc short us rest))
            (omega (arith, length-append short us, length-below_le st vs)),
        reset_all-append vs us w,
        reset_all-append short us w,
      )
      (refl, λ x hx. reset_all_local us _ _ x (reset_all-below st vs w x hx))
