-- ===== src/Encode/KeyReads.antt =====
-- Variables and atoms, written and read back (src/encode.cc).
use qu_prolog.Base.{
  ℕ, suc, ◌+◌, ◌*◌, ◌/◌, ◌%◌, ◌<◌, ◌≡◌, refl, sym, ap, ◌∙◌, true, [], ◌∷◌, ◌++◌, Option, none, some,
  arith, ltb, lt→ltb, length, get_elem?, ◌==◌, ◌||◌, Bool-cases, inl, inr,
}
use qu_prolog.Encode.Term.{Bytes, Term, var, obj_var, atom}
use qu_prolog.Encode.Map.{Key, var_key, obj_var_key, atom_key, Map, add}
use qu_prolog.Encode.Keys.{look_up-some}
use qu_prolog.Encode.Images.{
  image, count, images, total, state_of, Agrees, Agrees-last, images-append, total-append,
  length-images, elem_bound,
}
use qu_prolog.Encode.Growth.{Quiet, KeyWritten, again, first_time, write_key-KeyWritten}
use qu_prolog.Encode.Steps.{Reads}
use qu_prolog.Encode.Words.{then_read_lem, read_bytes_lem, NonZero, c_str_lem}
use qu_prolog.Encode.Write.{write_name, write_var_name, write_reference, write_key, write_atom}
use qu_prolog.Encode.Read.{
  State, Reader, then_read, give, read_char, read_bytes, c_str, read_name, skip_name, new_number,
  remember_term, read_variable, read_reference, read_offset, read_tagged, read_term,
}

read_reference_lem :
    (table j : ℕ) (x : Term) (s : State) (rest : Bytes)
    → get_elem? s.map (256 * table + j) ≡ some x
    → read_reference table s (j ∷ rest) ≡ some (x, s, rest)
unfolding read_reference then_read read_char
read_reference_lem table j x s rest h =
    let found : Option Term → Option (Term × State × Bytes) =
      λ o. elim o [ none ↦ none | some t ↦ some (t, s, rest) ] in
    ap found h

module _ (f old : ℕ) (x : Term) (s : State) (rest : Bytes) where
  write_reference-read :
      (i : ℕ)
      → read_tagged (read_term f) old ≡ read_reference 0
      → (old == 0 || old == 2 || old == 7) ≡ true
      → i < 256 * 256
      → get_elem? s.map i ≡ some x
      → read_term (suc f) s (write_reference old i ++ rest) ≡ some (x, s, rest)
  unfolding write_reference read_term then_read read_char read_tagged read_offset
  write_reference-read i plain tag small h = elim (Bool-cases (ltb i 256)) [
    | inl e ↦
        let at : i ≡ 256 * 0 + i % 256 = ground (arith, e) in
        rw (write_reference, e)
          (ap (λ (q : Reader Term). q s (i % 256 ∷ rest)) plain
            ∙ read_reference_lem 0 (i % 256) x s rest (sym (ap (get_elem? s.map) at) ∙ h))
    | inr e ↦
        let at : i ≡ 256 * (i / 256 % 256) + i % 256 = omega arith in
        rw (write_reference, e, tag)
          (read_reference_lem (i / 256 % 256) (i % 256) x s rest
            (sym (ap (get_elem? s.map) at) ∙ h))
  ]

-- A term is added to the reader's map as its key is to the writer's.
remember_image :
    (m : Map) (k : Key) (rest : Bytes)
    → length m < 256 * 256
    → remember_term (image k (total m)) (record { map = images 0 m; next = total m + count k }) rest
      ≡ some (image k (total m), state_of (m ++ k ∷ []), rest)
unfolding remember_term add images
remember_image m k rest h =
    let room : ltb (length (images 0 m)) (256 * 256) ≡ true =
      lt→ltb (length (images 0 m)) (256 * 256) (omega (arith, h, length-images m 0)) in
    let start : 0 + total m ≡ total m = omega arith in
    let map : images 0 m ++ image k (total m) ∷ [] ≡ images 0 (m ++ k ∷ []) =
      ap (λ n. images 0 m ++ image k n ∷ []) (sym start) ∙ sym (images-append m (k ∷ []) 0) in
    let next : total m + count k ≡ total (m ++ k ∷ []) =
      unfold total in omega (arith, total-append m (k ∷ [])) in
    rw (remember_term, add, room)
      (ap (λ ts. some (image k (total m), record { map = ts; next = total m + count k }, rest)) map
        ∙ ap
            (λ n. some (image k (total m), record { map = images 0 (m ++ k ∷ []); next = n }, rest))
            next)

write_name-some : (n bs : Bytes) → write_name n ≡ some bs → bs ≡ length n ∷ n
unfolding write_name
write_name-some n bs h = elim (Bool-cases (ltb 255 (length n))) [
  | inl e ↦
      let never : none ≡ some bs = sym (rw (write_name, e) refl) ∙ h in
      absurd (ground (arith, never))
  | inr e ↦
      let out : some (length n ∷ n) ≡ some bs = sym (rw (write_name, e) refl) ∙ h in sym (cc out)
]

write_var_name-some : (n bs : Bytes) → write_var_name (some n) ≡ some bs → bs ≡ 12 ∷ length n ∷ n
unfolding write_var_name
write_var_name-some n bs h = go (write_name n) refl
  where
    go : (o : Option Bytes) → write_name n ≡ o → bs ≡ 12 ∷ length n ∷ n
    go none e =
        let never : none ≡ some bs = sym (rw (write_var_name, e) refl) ∙ h in
        absurd (ground (arith, never))
    go (some cs) e =
        let out : some (12 ∷ cs) ≡ some bs = sym (rw (write_var_name, e) refl) ∙ h in
        let same : 12 ∷ cs ≡ bs = cc out in sym same ∙ ap (λ ds. 12 ∷ ds) (write_name-some n cs e)

skip_name-write_var_name :
    (name : Option Bytes) (bs : Bytes) (s : State) (rest : Bytes)
    → write_var_name name ≡ some bs
    → Quiet rest
    → skip_name s (bs ++ rest) ≡ some (tt, s, rest)
unfolding write_var_name skip_name then_read read_char give
skip_name-write_var_name none bs s rest h q =
    let same : [] ≡ bs = cc h in ap (λ cs. skip_name s (cs ++ rest)) (sym same) ∙ silent rest q
  where
    silent : (cs : Bytes) → Quiet cs → skip_name s cs ≡ some (tt, s, cs)
    silent [] q = refl
    silent (c ∷ cs) q = rw (skip_name, q) refl
skip_name-write_var_name (some n) bs s rest h q =
    ap (λ cs. skip_name s (cs ++ rest)) (write_var_name-some n bs h)
    ∙ then_read_lem (read_bytes (length n)) (λ cs. give tt) s (n ++ rest) n s rest
        (read_bytes_lem n rest s)

read_variable-write_var_name :
    (make : ℕ → Term) (k : Key) (m : Map) (name : Option Bytes) (bs rest : Bytes)
    → image k (total m) ≡ make (total m)
    → count k ≡ 1
    → write_var_name name ≡ some bs
    → length m < 256 * 256
    → Quiet rest
    → read_variable make (state_of m) (bs ++ rest)
      ≡ some (image k (total m), state_of (m ++ k ∷ []), rest)
unfolding read_variable then_read new_number
read_variable-write_var_name make k m name bs rest same one w l q =
    then_read_lem skip_name (λ u. then_read new_number λ n. remember_term (make n)) (state_of m)
      (bs ++ rest) tt (state_of m) rest (skip_name-write_var_name name bs (state_of m) rest w q)
    ∙ ap (λ t. remember_term t (record { map = images 0 m; next = total m + 1 }) rest) (sym same)
    ∙ ap
        (λ n.
          remember_term (image k (total m)) (record { map = images 0 m; next = total m + n }) rest)
        (sym one)
    ∙ remember_image m k rest l

pub read_name_lem :
    (n : Bytes) (s : State) (rest : Bytes)
    → NonZero n
    → read_name s (length n ∷ n ++ rest) ≡ some (n, s, rest)
unfolding read_name then_read read_char give
read_name_lem n s rest z =
    then_read_lem (read_bytes (length n)) (λ cs. give (c_str cs)) s (n ++ rest) n s rest
      (read_bytes_lem n rest s)
    ∙ ap (λ cs. some (cs, s, rest)) (c_str_lem n z)

-- A variable or an atom is read back as the new one that its key has, if the tag of a reference is
-- read as one and that of a new key with its name as the new variable or the atom.
key-Reads :
    (σ : Key → ℕ) (f : ℕ) (k : Key) (old new : ℕ) (name : Option Bytes)
    → read_tagged (read_term f) old ≡ read_reference 0
    → (old == 0 || old == 2 || old == 7) ≡ true
    → ((m : Map) (bs rest : Bytes)
        → name ≡ some bs
        → length m < 256 * 256
        → Quiet rest
        → read_tagged (read_term f) new (state_of m) (bs ++ rest)
          ≡ some (image k (total m), state_of (m ++ k ∷ []), rest))
    → Reads σ (suc f) (write_key k old new name) (read_term (suc f)) (image k (σ k))
unfolding read_term then_read read_char
key-Reads σ f k old new name plain tag fresh m bs n rest w l a q c =
    go bs n (write_key-KeyWritten k old new name m bs n w) a
  where
    go :
        (cs : Bytes) (o : Map)
        → KeyWritten k old new name m cs o
        → Agrees σ o
        → read_term (suc f) (state_of m) (cs ++ rest) ≡ some (image k (σ k), state_of o, rest)
    go cs o (again i e) a =
        let at = look_up-some k m i e in
        write_reference-read f old (image k (σ k)) (state_of m) rest i plain tag
          (omega (arith, l, elem_bound m i k at)) (a i k at)
    go cs o (first_time x e r y) a =
        fresh m x rest y r q
        ∙ ap (λ t. some (t, state_of (m ++ k ∷ []), rest)) (Agrees-last σ m k a)

module _ (σ : Key → ℕ) (f : ℕ) where
  pub var-Reads :
      (v : ℕ) (name : Option Bytes)
      → Reads σ
          (suc f)
          (write_key (var_key v) 0 1 (write_var_name name))
          (read_term (suc f))
          (var (σ (var_key v)))
  unfolding read_tagged image count
  var-Reads v name =
      key-Reads σ f (var_key v) 0 1 (write_var_name name) refl refl (λ m bs rest w l q.
        read_variable-write_var_name var (var_key v) m name bs rest refl refl w l q)

  pub obj_var-Reads :
      (v : ℕ) (name : Option Bytes)
      → Reads σ
          (suc f)
          (write_key (obj_var_key v) 2 3 (write_var_name name))
          (read_term (suc f))
          (obj_var (σ (obj_var_key v)))
  unfolding read_tagged image count
  obj_var-Reads v name =
      key-Reads σ f (obj_var_key v) 2 3 (write_var_name name) refl refl (λ m bs rest w l q.
        read_variable-write_var_name obj_var (obj_var_key v) m name bs rest refl refl w l q)

  pub atom-Reads :
      (n : Bytes) → NonZero n → Reads σ (suc f) (write_atom n) (read_term (suc f)) (atom n)
  unfolding read_tagged image count write_atom
  atom-Reads n z = key-Reads σ f (atom_key n) 7 8 (write_name n) refl refl (λ m bs rest w l q.
      then_read_lem read_name (λ x. remember_term (atom x)) (state_of m) (bs ++ rest) n (state_of m)
        rest
        (ap (λ cs. read_name (state_of m) (cs ++ rest)) (write_name-some n bs w)
          ∙ read_name_lem n (state_of m) rest z)
      ∙ (let same : total m ≡ total m + 0 = omega arith in
          ap (λ x. remember_term (atom n) (record { map = images 0 m; next = x }) rest) same
          ∙ remember_image m (atom_key n) rest l))
