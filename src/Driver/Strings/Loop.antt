-- ===== src/Driver/Strings/Loop.antt =====
-- user/lib/driver.c: the loop of strsplit, and the strings in a buffer.
use nfp_udp_echo.Base.{
  ℕ, zero, suc, ◌+◌, ◌<◌, ◌≤◌, ◌≡◌, refl, ap, ◌∙◌, Bool, true, false, ◌||◌, ◌≢◌, ◌⊎◌, List, [], ◌∷◌,
  leb, ◌==◌, if◌then◌else◌, inl, inr, ℕ_discrete, dec_lt, arith,
}
use nfp_udp_echo.Base.Memory.{Mem}

abbrev pub map : (ℕ → List ℕ) → List ℕ → List (List ℕ)
map f [] = []
map f (a ∷ rest) = f a ∷ map f rest

-- The string at `a`: the bytes up to the first zero, `n` at most.
unfoldable pub read_string : ℕ → Mem → ℕ → List ℕ
read_string zero m a = []
read_string (suc n) m a = let rest = read_string n m (a + 1) in if m a == 0 then [] else m a ∷ rest

abbrev pub clear : Mem → ℕ → Mem
clear m a i = if i == a then 0 else m i

-- The loop from byte `i` on, for `rounds` bytes: the tokens' offsets and the string then. `tok` are
-- found already, and `tokstart` says whether a token starts here.
unfoldable pub strsplit_loop : (maxtokens delim : ℕ) → ℕ → ℕ → ℕ → Bool → Mem → List ℕ × Mem
strsplit_loop maxtokens delim zero i tok tokstart string = ([], string)
strsplit_loop maxtokens delim (suc rounds) i tok tokstart string =
    let ends = string i == delim in
    let rest =
      strsplit_loop maxtokens delim rounds (i + 1) (if tokstart then tok + 1 else tok) ends
        (if ends then clear string i else string) in
    if string i == 0 || leb maxtokens tok
    then ([], string)
    else (if tokstart then i ∷ rest.0 else rest.0, rest.1)

unfoldable pub strsplit : Mem → ℕ → (maxtokens delim : ℕ) → List ℕ × Mem
unfolding strsplit_loop
strsplit string stringlen maxtokens delim = strsplit_loop maxtokens delim stringlen 0 0 true string

-- What a split should give: the parts between the delimiters, the last of `n` with all the rest,
-- and none for an empty rest.
abbrev pub before : ℕ → List ℕ → List ℕ
before d [] = []
before d (c ∷ s) = if c == d then [] else c ∷ before d s

abbrev pub after : ℕ → List ℕ → List ℕ
after d [] = []
after d (c ∷ s) = if c == d then s else after d s

unfoldable pub fields : ℕ → ℕ → List ℕ → List (List ℕ)
fields d zero s = []
fields d (suc n) [] = []
fields d (suc zero) (c ∷ s) = (if c == d then [] else c ∷ s) ∷ []
fields d (suc (suc n)) (c ∷ s) = before d (c ∷ s) ∷ fields d (suc n) (after d (c ∷ s))

pub read_string_ext :
    (n : ℕ) (m m' : Mem) (a : ℕ)
    → ((b : ℕ) → a ≤ b → m b ≡ m' b)
    → read_string n m a ≡ read_string n m' a
unfolding read_string
read_string_ext zero m m' a h = refl
read_string_ext (suc n) m m' a h =
    let e = h a (omega arith) in
    let rest = read_string_ext n m m' (a + 1) (λ b q. h b (omega arith)) in cc (e, rest)

pub read_string_end : (n : ℕ) (m : Mem) (a : ℕ) → m a ≡ 0 → read_string (suc n) m a ≡ []
unfolding read_string
read_string_end n m a h = ground arith

pub read_string_more :
    (n : ℕ) (m : Mem) (a : ℕ) → m a ≢ 0 → read_string (suc n) m a ≡ m a ∷ read_string n m (a + 1)
unfolding read_string
read_string_more n m a h = ground arith

pub fields_nil : (d k : ℕ) → fields d k [] ≡ []
unfolding fields
fields_nil d zero = refl
fields_nil d (suc k) = refl

pub fields_at : (d k c : ℕ) (s : List ℕ) → c ≡ d → fields d (suc k) (c ∷ s) ≡ [] ∷ fields d k s
unfolding fields
fields_at d zero c s e = ground arith
fields_at d (suc k) c s e = ground arith

pub fields_past :
    (d k c : ℕ) (s : List ℕ)
    → c ≢ d
    → fields d (suc k) (c ∷ s) ≡ (c ∷ (if k == 0 then s else before d s)) ∷ fields d k (after d s)
unfolding fields
fields_past d zero c s e = ground arith
fields_past d (suc k) c s e = ground arith

module _ (mx d : ℕ) where
  pub loop_stop :
      (n i tok : ℕ) (b : Bool) (m : Mem)
      → (m i ≡ 0) ⊎ (mx ≤ tok)
      → strsplit_loop mx d (suc n) i tok b m ≡ ([], m)
  unfolding strsplit_loop
  loop_stop n i tok b m h = ground arith

  pub loop_hit :
      (n i tok : ℕ) (b : Bool) (m : Mem)
      → m i ≢ 0
      → tok < mx
      → m i ≡ d
      → strsplit_loop mx d (suc n) i tok b m ≡ (
          let rest = strsplit_loop mx d n (i + 1) (if b then tok + 1 else tok) true (clear m i) in
          (if b then i ∷ rest.0 else rest.0, rest.1))
  unfolding strsplit_loop
  loop_hit n i tok b m h q e = ground arith

  pub loop_miss :
      (n i tok : ℕ) (b : Bool) (m : Mem)
      → m i ≢ 0
      → tok < mx
      → m i ≢ d
      → strsplit_loop mx d (suc n) i tok b m ≡ (
          let rest = strsplit_loop mx d n (i + 1) (if b then tok + 1 else tok) false m in
          (if b then i ∷ rest.0 else rest.0, rest.1))
  unfolding strsplit_loop
  loop_miss n i tok b m h q e = ground arith

  pub stable :
      (n i tok : ℕ) (b : Bool) (m : Mem) (j : ℕ)
      → j < i
      → (strsplit_loop mx d n i tok b m).1 j ≡ m j
  unfolding strsplit_loop
  stable zero i tok b m j h = refl
  stable (suc n) i tok b m j h = elim (ℕ_discrete (m i) 0) [
    | yes e ↦ ap (λ r. r.1 j) (loop_stop n i tok b m (inl e))
    | no ne ↦ elim (dec_lt tok mx) [
      | no q ↦ ap (λ r. r.1 j) (loop_stop n i tok b m (inr (omega arith)))
      | yes q ↦ elim (ℕ_discrete (m i) d) [
        | yes e ↦
            ap (λ r. r.1 j) (loop_hit n i tok b m ne q e)
            ∙ stable n (i + 1) (if b then tok + 1 else tok) true (clear m i) j (omega arith)
            ∙ ground arith
        | no e ↦
            ap (λ r. r.1 j) (loop_miss n i tok b m ne q e)
            ∙ stable n (i + 1) (if b then tok + 1 else tok) false m j (omega arith)
      ]
    ]
  ]
