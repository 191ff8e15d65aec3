-- ===== src/Encode/Growth.antt =====
-- What writing does to the map (src/encode.cc): it adds entries at the end, none twice, and what is
-- written never looks like the name of a variable before it.
use qu_prolog.Base.{
  ℕ, ◌*◌, ◌≤◌, ◌<◌, ◌≡◌, refl, sym, ap, ◌∙◌, subst, Bool, true, false, [], ◌∷◌, ◌++◌, append_assoc,
  Option, none, some, arith, ltb, ltb→lt, length, length-append, Bool-cases, Option-cases, inl, inr,
  ◌==◌,
}
use mathlib.Core.List.{append-nil}
use qu_prolog.Base.Int.{ℤ, pos}
use qu_prolog.Encode.Term.{
  Bytes, Term, Terms, Blocks, Pairs, var, obj_var, cons, struct, quant, integer, double, atom,
  string, subst_term, no_terms, then_term, no_blocks, then_block, no_pairs, then_pair, int64,
}
use qu_prolog.Encode.Map.{Key, var_key, obj_var_key, atom_key, Map, add, look_up}
use qu_prolog.Encode.Keys.{look_up-none}
use qu_prolog.Encode.Images.{Distinct, Distinct-append}
use qu_prolog.Encode.Number.{write_number, high_part, is_big}
use qu_prolog.Encode.Write.{
  Written, Writer, emit, then_write, write_name, write_reference, write_key, write_atom,
  write_integer, write_string, block_tag, write_term, write_terms, write_sub, write_pairs,
}

-- The first byte does not say that a name follows.
abbrev pub Quiet : Bytes → Type 0
Quiet [] = Unit
Quiet (b ∷ bs) = (b == 12) ≡ false

pub Quiet-append : (bs cs : Bytes) → Quiet bs → Quiet cs → Quiet (bs ++ cs)
Quiet-append [] cs p q = q
Quiet-append (b ∷ bs) cs p q = p

-- One map has the entries of another, and more.
pub record Grows (m n : Map) : Type 0 where
  pub more : Map
  pub is : n ≡ m ++ more
  pub distinct : Distinct m → Distinct n
  pub bounded : length m ≤ 256 * 256 → length n ≤ 256 * 256

pub Grows-refl : (m : Map) → Grows m m
Grows-refl m = record { more = []; is = sym (append-nil m); distinct = λ d. d; bounded = λ b. b }

pub Grows-trans : {m n o : Map} → Grows m n → Grows n o → Grows m o
Grows-trans {m} {n} {o} g h = record {
  more = g.more ++ h.more;
  is = h.is ∙ ap (λ x. x ++ h.more) g.is ∙ append_assoc m g.more h.more;
  distinct = λ d. h.distinct (g.distinct d);
  bounded = λ b. h.bounded (g.bounded b);
}

-- Whatever the writer writes.
abbrev pub Writes : Writer → Type 0
Writes p = (m : Map) (bs : Bytes) (n : Map) → p m ≡ some (bs, n) → Grows m n × Quiet bs

-- The two parts of what is written one after the other.
pub record Parts (p q : Writer) (m : Map) (bs : Bytes) (n : Map) : Type 0 where
  pub first : Bytes
  pub middle : Map
  pub second : Bytes
  pub wrote_first : p m ≡ some (first, middle)
  pub wrote_second : q middle ≡ some (second, n)
  pub whole : bs ≡ first ++ second

module _ (p q : Writer) (m : Map) where
  first_fails : p m ≡ none → then_write p q m ≡ none
  unfolding then_write
  first_fails e = rw (e, then_write) refl

  module _ (cs : Bytes) (o : Map) (e : p m ≡ some (cs, o)) where
    second_fails : q o ≡ none → then_write p q m ≡ none
    unfolding then_write
    second_fails f = rw (e, f, then_write) refl

    pub both_write :
        (ds : Bytes) (r : Map) → q o ≡ some (ds, r) → then_write p q m ≡ some (cs ++ ds, r)
    unfolding then_write
    both_write ds r f = rw (e, f, then_write) refl

  pub then_write-Parts : (bs : Bytes) (n : Map) → then_write p q m ≡ some (bs, n) → Parts p q m bs n
  then_write-Parts bs n h = elim (Option-cases (p m)) [
    | inl e ↦
        let never : none ≡ some (bs, n) = sym (first_fails e) ∙ h in absurd (ground (arith, never))
    | inr ((cs, o), e) ↦ elim (Option-cases (q o)) [
      | inl f ↦
          let never : none ≡ some (bs, n) = sym (second_fails cs o e f) ∙ h in
          absurd (ground (arith, never))
      | inr ((ds, r), f) ↦
          let same : some (cs ++ ds, r) ≡ some (bs, n) = sym (both_write cs o e ds r f) ∙ h in
          let map : r ≡ n = cc same in
          record {
            first = cs;
            middle = o;
            second = ds;
            wrote_first = e;
            wrote_second = f ∙ ap (λ x. some (ds, x)) map;
            whole = cc same;
          }
    ]
  ]

pub then_write_assoc :
    (p q r : Writer) (m : Map) → then_write (then_write p q) r m ≡ then_write p (then_write q r) m
then_write_assoc p q r m = elim (Option-cases (p m)) [
  | inl e ↦
      first_fails (then_write p q) r m (first_fails p q m e)
      ∙ sym (first_fails p (then_write q r) m e)
  | inr ((cs, o), e) ↦ elim (Option-cases (q o)) [
    | inl f ↦
        first_fails (then_write p q) r m (second_fails p q m cs o e f)
        ∙ sym (second_fails p (then_write q r) m cs o e (first_fails q r o f))
    | inr ((ds, l), f) ↦
        let both = both_write p q m cs o e ds l f in
        elim (Option-cases (r l)) [
          | inl g ↦
              second_fails (then_write p q) r m (cs ++ ds) l both g
              ∙ sym (second_fails p (then_write q r) m cs o e (second_fails q r o ds l f g))
          | inr ((es, k), g) ↦
              both_write (then_write p q) r m (cs ++ ds) l both es k g
              ∙ ap (λ x. some (x, k)) (append_assoc cs ds es)
              ∙ sym (
                  both_write p (then_write q r) m cs o e (ds ++ es) k
                    (both_write q r o ds l f es k g))
        ]
  ]
]

pub then_write-Writes : (p q : Writer) → Writes p → Writes q → Writes (then_write p q)
then_write-Writes p q w v m bs n h =
    let parts = then_write-Parts p q m bs n h in
    let (g, x) = w m parts.first parts.middle parts.wrote_first in
    let (k, y) = v parts.middle parts.second n parts.wrote_second in
    (Grows-trans g k, subst Quiet (sym parts.whole) (Quiet-append parts.first parts.second x y))

pub emit-Writes : (bs : Bytes) → Quiet bs → Writes (emit bs)
unfolding emit
emit-Writes bs q m cs n h =
    let map : m ≡ n = cc h in
    let same : bs ≡ cs = cc h in (subst (Grows m) map (Grows-refl m), subst Quiet same q)

write_reference-Quiet : (tag i : ℕ) → (tag == 12) ≡ false → Quiet (write_reference tag i)
unfolding write_reference
write_reference-Quiet tag i h = elim (Bool-cases (ltb i 256)) [ inl e ↦ rw e h | inr e ↦ rw e refl ]

-- What writing a variable or an atom comes to.
pub data KeyWritten (k : Key) (old new : ℕ) (name : Option Bytes) (m : Map)
    : Bytes → Map → Type 0 where
  again : (i : ℕ) → look_up k m ≡ some i → KeyWritten k old new name m (write_reference old i) m
  first_time :
      (bs : Bytes)
      → look_up k m ≡ none
      → length m < 256 * 256
      → name ≡ some bs
      → KeyWritten k old new name m (new ∷ bs) (m ++ k ∷ [])

module _ (k : Key) (old new : ℕ) (name : Option Bytes) (m : Map) where
  KeyWritten-same :
      (bs cs : Bytes) (n o : Map)
      → ◌≡◌ {A = Written} (some (bs, n)) (some (cs, o))
      → KeyWritten k old new name m bs n
      → KeyWritten k old new name m cs o
  KeyWritten-same bs cs n o h w =
      let bytes : bs ≡ cs = cc h in
      let map : n ≡ o = cc h in
      subst (λ x. KeyWritten k old new name m x o) bytes
        (subst (KeyWritten k old new name m bs) map w)

  pub write_key-KeyWritten :
      (bs : Bytes) (n : Map)
      → write_key k old new name m ≡ some (bs, n)
      → KeyWritten k old new name m bs n
  unfolding write_key add
  write_key-KeyWritten bs n h = go (look_up k m) refl name refl (ltb (length m) (256 * 256)) refl
    where
      go :
          (o : Option ℕ)
          → look_up k m ≡ o
          → (b : Option Bytes) → name ≡ b
          → (c : Bool) → ltb (length m) (256 * 256) ≡ c
          → KeyWritten k old new name m bs n
      go (some i) e b f c l =
          KeyWritten-same (write_reference old i) bs m n (sym (rw (e, write_key) refl) ∙ h)
            (again i e)
      go none e (some x) f true l =
          KeyWritten-same (new ∷ x) bs (m ++ k ∷ []) n (sym (rw (e, add, l, f, write_key) refl) ∙ h)
            (first_time x e (ltb→lt (length m) (256 * 256) l) f)
      go none e b f false l =
          let stuck : write_key k old new name m ≡ none = rw (e, add, l, write_key) refl in
          let never : none ≡ some (bs, n) = sym stuck ∙ h in absurd (ground (arith, never))
      go none e none f true l =
          let stuck : write_key k old new name m ≡ none = rw (e, add, l, f, write_key) refl in
          let never : none ≡ some (bs, n) = sym stuck ∙ h in absurd (ground (arith, never))

pub Grows-key :
    (m : Map) (k : Key) → look_up k m ≡ none → length m < 256 * 256 → Grows m (m ++ k ∷ [])
Grows-key m k e l = record {
  more = k ∷ [];
  is = refl;
  distinct = λ d. Distinct-append m k d (look_up-none k m e);
  bounded = λ b. omega (arith, length-append m (k ∷ []));
}

pub write_key-Writes :
    (k : Key) (old new : ℕ) (name : Option Bytes)
    → (old == 12) ≡ false
    → (new == 12) ≡ false
    → Writes (write_key k old new name)
write_key-Writes k old new name p q m bs n h =
    go bs n (write_key-KeyWritten k old new name m bs n h)
  where
    go : (cs : Bytes) (o : Map) → KeyWritten k old new name m cs o → Grows m o × Quiet cs
    go cs o (again i e) = (Grows-refl m, write_reference-Quiet old i p)
    go cs o (first_time x e l f) = (Grows-key m k e l, q)

pub write_atom-Writes : (n : Bytes) → Writes (write_atom n)
unfolding write_atom
write_atom-Writes n = write_key-Writes (atom_key n) 7 8 (write_name n) refl refl

pub tagged-Writes :
    (tag : ℕ) (bs : Bytes) (p : Writer)
    → (tag == 12) ≡ false
    → Writes p
    → Writes (then_write (emit (tag ∷ bs)) p)
tagged-Writes tag bs p h w = then_write-Writes (emit (tag ∷ bs)) p (emit-Writes (tag ∷ bs) h) w

pub write_parts-Writes :
    (i : ℤ) → Writes (emit (9 ∷ write_number (high_part i) ++ 9 ∷ write_number i))
write_parts-Writes i = emit-Writes (9 ∷ write_number (high_part i) ++ 9 ∷ write_number i) refl

write_integer-Writes : (i : ℤ) → Writes (write_integer i)
unfolding write_integer
write_integer-Writes i m bs n h = elim (Bool-cases (is_big i)) [
  | inl e ↦
      tagged-Writes 5 (write_number (pos 2)) _ refl
        (then_write-Writes (write_atom int64) _ (write_atom-Writes int64) (write_parts-Writes i)) m
        bs n (sym (rw (e, write_integer) refl) ∙ h)
  | inr e ↦ emit-Writes (9 ∷ write_number i) refl m bs n (sym (rw (e, write_integer) refl) ∙ h)
]

-- What writing a string comes to.
pub write_string-some :
    (s : Bytes) (m : Map) (bs : Bytes) (n : Map)
    → write_string s m ≡ some (bs, n)
    → (bs ≡ 15 ∷ length s ∷ s) × (m ≡ n)
unfolding write_string write_name
write_string-some s m bs n h = elim (Bool-cases (ltb 255 (length s))) [
  | inl e ↦
      let stuck : write_string s m ≡ none = rw (write_string, write_name, e) refl in
      let never : none ≡ some (bs, n) = sym stuck ∙ h in absurd (ground (arith, never))
  | inr e ↦
      let out : ◌≡◌ {A = Written} (some (15 ∷ length s ∷ s, m)) (some (bs, n)) =
        sym (rw (write_string, write_name, e) refl) ∙ h in
      (sym (cc out), cc out)
]

module _ (name : Key → Option Bytes) where
  mutual
    unfolding write_term write_terms write_sub write_pairs

    pub write_term-Writes : (t : Term) → Writes (write_term name t)
    write_term-Writes (var v) = write_key-Writes (var_key v) 0 1 _ refl refl
    write_term-Writes (obj_var v) = write_key-Writes (obj_var_key v) 2 3 _ refl refl
    write_term-Writes (cons h t) =
        tagged-Writes 4 [] _ refl
          (then_write-Writes _ _ (write_term-Writes h) (write_term-Writes t))
    write_term-Writes (struct f ts) =
        tagged-Writes 5 _ _ refl
          (then_write-Writes _ _ (write_term-Writes f) (write_terms-Writes ts))
    write_term-Writes (quant q v b) = tagged-Writes 6 [] _ refl (
        then_write-Writes _ _ (write_term-Writes q)
          (then_write-Writes _ _ (write_term-Writes v) (write_term-Writes b)))
    write_term-Writes (integer i) = write_integer-Writes i
    write_term-Writes (double d) = emit-Writes (14 ∷ d) refl
    write_term-Writes (atom n) = write_atom-Writes n
    write_term-Writes (string s) = λ m bs n h.
        let (out, same) = write_string-some s m bs n h in
        (subst (Grows m) same (Grows-refl m), subst Quiet (sym out) refl)
    write_term-Writes (subst_term s t) = tagged-Writes 10 [] _ refl (
        then_write-Writes _ _ (write_sub-Writes s)
          (tagged-Writes 11 [] _ refl (write_term-Writes t)))

    pub write_terms-Writes : (ts : Terms) → Writes (write_terms name ts)
    write_terms-Writes no_terms = emit-Writes [] tt
    write_terms-Writes (then_term t ts) =
        then_write-Writes _ _ (write_term-Writes t) (write_terms-Writes ts)

    pub write_sub-Writes : (s : Blocks) → Writes (write_sub name s)
    write_sub-Writes no_blocks = emit-Writes [] tt
    write_sub-Writes (then_block i ps s) =
        then_write-Writes _ _ (write_sub-Writes s)
          (tagged-Writes block_tag _ _ refl (write_pairs-Writes ps))

    pub write_pairs-Writes : (ps : Pairs) → Writes (write_pairs name ps)
    write_pairs-Writes no_pairs = emit-Writes [] tt
    write_pairs-Writes (then_pair d r ps) =
        then_write-Writes _ _ (then_write-Writes _ _ (write_term-Writes d) (write_term-Writes r))
          (write_pairs-Writes ps)
