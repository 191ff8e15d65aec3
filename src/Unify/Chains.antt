-- ===== src/Unify/Chains.antt =====
-- The chains of references end, and binding an unbound variable keeps it so (src/bind.h,
-- src/objects.h).
use qu_prolog.Base.{
  ℕ, zero, suc, ◌+◌, ◌≤◌, ◌≡◌, ◌≢◌, refl, sym, ap, ◌∙◌, subst, Bool, true, false, some, inl, inr,
  arith, Bool-cases, ◌==◌, ==_iff, update,
}
use qu_prolog.Machine.{Machine}
use qu_prolog.Unify.Object.{is_reference, variable_dereference}
use qu_prolog.Unify.Solution.{Layout}
use qu_prolog.Unify.Reads.{Ends}
use qu_prolog.Unify.Correct.{Free, write-frame}

pub data Links (w : ℕ → ℕ) : ℕ → ℕ → Type 0 where
  end : {x t : ℕ} → x ≡ t → (is_reference (w x) ≡ true → w (x + 1) ≡ x) → Links w x t
  link :
      {x t : ℕ}
      → is_reference (w x) ≡ true
      → (w (x + 1) == x) ≡ false
      → Links w (w (x + 1)) t
      → Links w x t

-- The chain of references of each object ends.
abbrev pub Chains : (ℕ → Bool) → (ℕ → ℕ) → Type 0
Chains object w = (x : ℕ) → object x ≡ true → (t : ℕ) × Links w x t

variable_dereference-end :
    (w : ℕ → ℕ) (x : ℕ)
    → (is_reference (w x) ≡ true → w (x + 1) ≡ x)
    → (f : ℕ) → 1 ≤ f
    → variable_dereference f w x ≡ some x
unfolding variable_dereference
variable_dereference-end w x e zero h = absurd (omega arith)
variable_dereference-end w x e (suc f) h = elim (Bool-cases (is_reference (w x))) [
  | inl r ↦ let s = e r in ground arith
  | inr n ↦ ground arith
]

-- With enough fuel the dereferencing loop comes to the end of a chain.
pub variable_dereference-Links :
    {w : ℕ → ℕ} {x t : ℕ}
    → Links w x t
    → (d : ℕ) × ((f : ℕ) → d ≤ f → variable_dereference f w x ≡ some t)
unfolding variable_dereference
variable_dereference-Links {w} {x} (end same e) =
    (1, λ f h. variable_dereference-end w x e f h ∙ ap some same)
variable_dereference-Links {w} {x} {t} (link r n c) =
    let (d, go) = variable_dereference-Links c in (suc d, longer d go)
  where
    longer :
        (d : ℕ)
        → ((f : ℕ) → d ≤ f → variable_dereference f w (w (x + 1)) ≡ some t)
        → (f : ℕ) → suc d ≤ f
        → variable_dereference f w x ≡ some t
    longer d go zero h = absurd (omega arith)
    longer d go (suc f) h = let rest = go f (omega arith) in ground arith

module _ (object is_cell : ℕ → Bool) where
  module _ (m m' : Machine) (v t : ℕ) (l : Layout object is_cell m) (free : Free object is_cell m v)
      (e : Ends object m.store.word t t) (apart : v ≢ t)
      (written : m'.store.word ≡ update m.store.word (v + 1) t) (b : m'.base ≡ m.base) where
    pub tag-kept : (x : ℕ) → object x ≡ true → m'.store.word x ≡ m.store.word x
    tag-kept x o = write-frame object is_cell m m' v t l free e.is_object written b x (l.tags x o)

    elsewhere : (x : ℕ) → v ≢ x → m'.store.word (x + 1) ≡ m.store.word (x + 1)
    elsewhere x d = rw written (ground arith)

    new-end : Links m'.store.word t t
    new-end = end refl λ r.
        elsewhere t apart
        ∙ e.unbound (subst (λ a. is_reference a ≡ true) (tag-kept t e.is_object) r)

    relink :
        {x r : ℕ} → object x ≡ true → Links m.store.word x r → (r' : ℕ) × Links m'.store.word x r'
    relink {x} {r} o (end same u) = elim (Bool-cases (v == x)) [
      | inl here ↦
          let q : v ≡ x = (==_iff v x).0 here in
          let other : t ≢ x = λ h. apart (q ∙ sym h) in
          let new : m'.store.word (x + 1) ≡ t = rw written (ground arith) in
          (
            t,
            link
                (ap is_reference (tag-kept x o)
                  ∙ subst (λ y. is_reference (m.store.word y) ≡ true) q free.referring)
                (rw new (ground arith)) (subst (λ y. Links m'.store.word y t) (sym new) new-end),
          )
      | inr there ↦ (
        x,
        end refl λ k.
            elsewhere x (λ q. absurd (ground arith))
            ∙ u (subst (λ a. is_reference a ≡ true) (tag-kept x o) k),
      )
    ]
    relink {x} {r} o (link k n c) =
        let d : v ≢ x = λ q.
          let self : m.store.word (x + 1) ≡ x =
            subst (λ y. m.store.word (y + 1) ≡ y) q free.unbound in
          absurd (ground arith) in
        let (r', c') = relink (l.references x o k).2 c in
        (
          r',
          link (ap is_reference (tag-kept x o) ∙ k) (rw (elsewhere x d) n)
              (subst (λ y. Links m'.store.word y r') (sym (elsewhere x d)) c'),
        )

    pub write-Chains : Chains object m.store.word → Chains object m'.store.word
    write-Chains cs x o = relink o (cs x o).1
