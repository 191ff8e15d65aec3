-- ===== src/Hash/Insert.antt =====
-- What `insert` of src/dynamic_hash_table.h leaves in the table.
use qu_prolog.Base.{
  ℕ, zero, suc, ◌*◌, ◌≡◌, Bool, true, Option, none, some, ltb, refl, subst, inl, inr, Bool-cases,
}
use qu_prolog.Hash.Table.{
  Table, found, free, cycled, Probe, search, probe, finish, insert, then_insert, answer_false,
  resize, new_size,
}
use qu_prolog.Hash.Probe.{search_loop-found, search_loop-put}

module _ {A : Type 0} (hash : A → ℕ) (same : A → A → Bool)
    (same_refl : (x : A) → same x x ≡ true) where
  -- What a call answers points to the item in the table that it leaves.
  Points : A → Option (Bool × ℕ × Table A) → Type 0
  Points item none = Unit
  Points item (some (known, h, t)) = search hash same item t ≡ some h

  answer_false-Points :
      (item : A) (r : Option (Bool × ℕ × Table A)) → Points item r → Points item (answer_false r)
  unfolding Points answer_false
  answer_false-Points item none h = h
  answer_false-Points item (some (known, pos, t)) h = h

  then_insert-Points :
      (insert : A → Table A → Option (Bool × ℕ × Table A)) (item : A) (t : Option (Table A))
      → ((u : Table A) → Points item (insert item u))
      → Points item (then_insert insert item t)
  unfolding then_insert Points
  then_insert-Points insert item none h = tt
  then_insert-Points insert item (some u) h = answer_false-Points item (insert item u) (h u)

  finish-Points :
      (again : Option (Bool × ℕ × Table A)) (item : A) (t : Table A) (p : Probe)
      → Points item again
      → probe hash same item t ≡ p
      → Points item (finish again item t p)
  unfolding finish Points probe search
  finish-Points again item t (found pos) h e = search_loop-found hash same _ _ item t pos e
  finish-Points again item t cycled h e = tt
  finish-Points again item t (free pos) h e = elim (Bool-cases (ltb t.size (t.used * 2))) [
    | inl b ↦ rw b h
    | inr b ↦ rw b (search_loop-put hash same same_refl _ _ item t pos e)
  ]

  insert-Points : (fuel : ℕ) (item : A) (t : Table A) → Points item (insert hash same fuel item t)
  unfolding insert Points
  insert-Points zero item t = tt
  insert-Points (suc fuel) item t =
      finish-Points _ item t (probe hash same item t)
        (then_insert-Points (insert hash same fuel) item
          (resize (insert hash same fuel) (new_size t) t) (insert-Points fuel item))
        refl

  -- A call of `insert` that ends leaves the table so that `search` finds the item, at the position
  -- that `insert` answers.
  pub search-insert :
      (fuel : ℕ) (item : A) (t : Table A) (known : Bool) (h : ℕ) (t' : Table A)
      → insert hash same fuel item t ≡ some (known, h, t')
      → search hash same item t' ≡ some h
  unfolding Points
  search-insert fuel item t known h t' e = subst (Points item) e (insert-Points fuel item t)
