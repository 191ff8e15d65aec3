-- ===== src/Encode/Steps.antt =====
-- Reading what was written, one part after the other (src/encode.cc).
use qu_prolog.Base.{
  ℕ, zero, suc, ◌+◌, ◌*◌, ◌≤◌, ◌<◌, ◌≡◌, sym, ap, ◌∙◌, subst, ◌∷◌, ◌++◌, append_assoc, some, arith,
  length, length-append,
}
use qu_prolog.Encode.Term.{Bytes, Term}
use qu_prolog.Encode.Map.{Key, Map}
use qu_prolog.Encode.Images.{state_of, Agrees, Agrees-prefix}
use qu_prolog.Encode.Growth.{Quiet, Quiet-append, Writes, then_write-Parts}
use qu_prolog.Encode.Write.{Writer, emit, then_write}
use qu_prolog.Encode.Words.{then_read_lem}
use qu_prolog.Encode.Read.{State, Reader, then_read, give, read_char, read_tagged, read_term}

-- The reader `q` gives `x` for what `p` writes, if that has fewer bytes than `f`.
abbrev pub Reads : {A : Type 0} → (Key → ℕ) → ℕ → Writer → Reader A → A → Type 0
Reads σ f p q x =
    (m : Map) (bs : Bytes) (n : Map) (rest : Bytes)
    → p m ≡ some (bs, n)
    → length m ≤ 256 * 256
    → Agrees σ n
    → Quiet rest
    → length bs < f
    → q (state_of m) (bs ++ rest) ≡ some (x, state_of n, rest)

module _ (σ : Key → ℕ) where
  pub then-Reads :
      {A B : Type 0} (f : ℕ) (p r : Writer) (q : Reader A) (k : A → Reader B) (x : A) (y : B)
      → Writes p
      → Writes r
      → Reads σ f p q x
      → Reads σ f r (k x) y
      → Reads σ f (then_write p r) (then_read q k) y
  then-Reads f p r q k x y wp wr hq hk m bs n rest w l a e c =
      let parts = then_write-Parts p r m bs n w in
      let first = parts.first in
      let o = parts.middle in
      let second = parts.second in
      let grown = (wp m first o parts.wrote_first).0 in
      let (more, quiet) = wr o second n parts.wrote_second in
      let before : Agrees σ o = Agrees-prefix σ o more.more (subst (Agrees σ) more.is a) in
      let long : length bs ≡ length first + length second =
        ap length parts.whole ∙ length-append first second in
      ap (λ cs. then_read q k (state_of m) (cs ++ rest)) parts.whole
      ∙ ap (then_read q k (state_of m)) (append_assoc first second rest)
      ∙ then_read_lem q k (state_of m) (first ++ (second ++ rest)) x (state_of o) (second ++ rest) (
          hq m first o (second ++ rest) parts.wrote_first l before
            (Quiet-append second rest quiet e) (omega (arith, long, c)))
      ∙ hk o second n rest parts.wrote_second (grown.bounded l) a e (omega (arith, long, c))

  pub give-Reads :
      {A B : Type 0} (f : ℕ) (p : Writer) (q : Reader A) (g : A → B) (x : A)
      → Reads σ f p q x
      → Reads σ f p (then_read q λ y. give (g y)) (g x)
  unfolding give
  give-Reads f p q g x h m bs n rest w l a e c =
      then_read_lem q (λ y. give (g y)) (state_of m) (bs ++ rest) x (state_of n) rest
        (h m bs n rest w l a e c)

  pub emit-Reads :
      {A : Type 0} (f : ℕ) (bs : Bytes) (q : Reader A) (x : A)
      → ((s : State) (rest : Bytes) → q s (bs ++ rest) ≡ some (x, s, rest))
      → Reads σ f (emit bs) q x
  unfolding emit
  emit-Reads f bs q x h m cs n rest w l a e c =
      let map : m ≡ n = cc w in
      let same : bs ≡ cs = cc w in
      ap (λ ds. q (state_of m) (ds ++ rest)) (sym same)
      ∙ h (state_of m) rest
      ∙ ap (λ o. some (x, state_of o, rest)) map

  -- Bytes that are always the same, and then what another writer writes: the reader `q` comes to
  -- the reader `k` after the bytes.
  pub headed-Reads :
      {A : Type 0} (g f : ℕ) (head : Bytes) (p : Writer) (q k : Reader A) (x : A)
      → g ≤ length head + f
      → Writes p
      → ((s : State) (rest : Bytes) → q s (head ++ rest) ≡ k s rest)
      → Reads σ f p k x
      → Reads σ g (then_write (emit head) p) q x
  unfolding emit
  headed-Reads g f head p q k x fuel wp start h m bs n rest w l a e c =
      let parts = then_write-Parts (emit head) p m bs n w in
      let map : m ≡ parts.middle = cc parts.wrote_first in
      let same : head ≡ parts.first = cc parts.wrote_first in
      let whole : bs ≡ head ++ parts.second =
        parts.whole ∙ ap (λ ds. ds ++ parts.second) (sym same) in
      let long : length bs ≡ length head + length parts.second =
        ap length whole ∙ length-append head parts.second in
      let wrote : p m ≡ some (parts.second, n) = ap p map ∙ parts.wrote_second in
      ap (λ ds. q (state_of m) (ds ++ rest)) whole
      ∙ ap (q (state_of m)) (append_assoc head parts.second rest)
      ∙ start (state_of m) (parts.second ++ rest)
      ∙ h m parts.second n rest wrote l a e (omega (arith, fuel, long, c))

  -- A tag, and what follows it at once.
  pub tagged-Reads :
      (f tag : ℕ) (head : Bytes) (p : Writer) (k : Reader Term) (x : Term)
      → Writes p
      → ((s : State) (rest : Bytes) → read_tagged (read_term f) tag s (head ++ rest) ≡ k s rest)
      → Reads σ f p k x
      → Reads σ (suc f) (then_write (emit (tag ∷ head)) p) (read_term (suc f)) x
  unfolding read_term then_read read_char
  tagged-Reads f tag head p k x wp start h =
      headed-Reads (suc f) f (tag ∷ head) p (read_term (suc f)) k x (omega arith) wp start h

  pub leaf-Reads :
      (f tag : ℕ) (bs : Bytes) (x : Term)
      → ((s : State) (rest : Bytes)
          → read_tagged (read_term f) tag s (bs ++ rest) ≡ some (x, s, rest))
      → Reads σ (suc f) (emit (tag ∷ bs)) (read_term (suc f)) x
  unfolding read_term then_read read_char
  leaf-Reads f tag bs x h = emit-Reads (suc f) (tag ∷ bs) (read_term (suc f)) x h

  -- Nothing is shorter than no bytes.
  pub any-Reads :
      (p : Writer) (x : Term)
      → ((f : ℕ) → Reads σ (suc f) p (read_term (suc f)) x)
      → (f : ℕ) → Reads σ f p (read_term f) x
  any-Reads p x h zero m bs n rest w l a e c = absurd (omega arith)
  any-Reads p x h (suc f) m bs n rest w l a e c = h f m bs n rest w l a e c

  pub other-Reads :
      {A : Type 0} (f : ℕ) (p r : Writer) (q : Reader A) (x : A)
      → ((m : Map) → p m ≡ r m)
      → Reads σ f r q x
      → Reads σ f p q x
  other-Reads f p r q x same h m bs n rest w = h m bs n rest (sym (same m) ∙ w)
