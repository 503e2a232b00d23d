-- ===== src/Driver/Strings.antt =====
-- user/lib/driver.c: strsplit, which cuts a string into tokens in place.
mod Loop
pub mod Apart
use nfp_udp_echo.Base.{
  ℕ, zero, suc, ◌+◌, ◌-◌, ◌<◌, ◌≤◌, ◌≡◌, refl, sym, ap, ap₂, ◌∙◌, subst, Bool, true, false, ◌||◌,
  ◌≢◌, ◌⊎◌, List, [], ◌∷◌, length, get_elem?, some, leb, ◌==◌, if◌then◌else◌, Bool-cases, inl, inr,
  ℕ_discrete, dec_lt, arith,
}
use nfp_udp_echo.Base.Memory.{Mem}
unfoldable pub use Loop.*

module _ (mx d : ℕ) where
  texts : ℕ → List ℕ × Mem → List (List ℕ)
  texts stop r = map (λ a. read_string (stop - a) r.1 a) r.0

  -- The loop where a token starts, and inside a token, with `k` more tokens to go.
  Start : (stop n i tok k : ℕ) → Mem → Type 0
  unfolding texts
  Start stop n i tok k m =
      texts stop (strsplit_loop mx d n i tok true m) ≡ fields d k (read_string n m i)

  Inside : (stop n i tok k : ℕ) → Mem → Type 0
  unfolding texts
  Inside stop n i tok k m =
      let r = strsplit_loop mx d n i tok false m in
      let s = read_string n m i in
      (read_string n r.1 i ≡ (if k == 0 then s else before d s))
      × (texts stop r ≡ fields d k (after d s))

  -- A loop that ends at once.
  loop_over :
      (stop n i tok k : ℕ) (m : Mem)
      → ((b : Bool) → strsplit_loop mx d n i tok b m ≡ ([], m))
      → (k ≡ 0) ⊎ (read_string n m i ≡ [])
      → Start stop n i tok k m × Inside stop n i tok k m
  unfolding Start Inside texts fields
  loop_over stop n i tok zero m h (inl e) = rw (h true, h false) (refl, (refl, refl))
  loop_over stop n i tok (suc k) m h (inl e) = absurd (omega arith)
  loop_over stop n i tok zero m h (inr e) = rw (h true, h false) (refl, (refl, refl))
  loop_over stop n i tok (suc k) m h (inr e) = rw (h true, h false, e) (refl, (ground arith, refl))

  -- The recursive runs at a delimiter, and past another character, give those of this round.
  loop_at :
      (stop n i tok k : ℕ) (m : Mem)
      → i + suc n ≡ stop
      → tok < mx
      → m i ≢ 0
      → m i ≡ d
      → Start stop n (i + 1) (tok + 1) k (clear m i)
      → Start stop n (i + 1) tok (suc k) (clear m i)
      → Start stop (suc n) i tok (suc k) m × Inside stop (suc n) i tok (suc k) m
  unfolding Start Inside texts
  loop_at stop n i tok k m h q nz e started inside =
      let t = read_string n m (i + 1) in
      let started_run = strsplit_loop mx d n (i + 1) (tok + 1) true (clear m i) in
      let inside_run = strsplit_loop mx d n (i + 1) tok true (clear m i) in
      let clear_t : read_string n (clear m i) (i + 1) ≡ t =
        read_string_ext n (clear m i) m (i + 1) (λ b l. ground arith) in
      let s_eq = read_string_more n m i nz in
      (
        ap (texts stop) (loop_hit mx d n i tok true m nz q e)
            ∙ ap₂ ◌∷◌
                (ap (λ l. read_string l started_run.1 i) (omega arith)
                  ∙ read_string_end n started_run.1 i (cleared (tok + 1)))
                (started ∙ ap (fields d k) clear_t)
            ∙ sym (fields_at d k (m i) t e)
            ∙ ap (fields d (suc k)) (sym s_eq),
        (
          ap (λ r. read_string (suc n) r.1 i) (loop_hit mx d n i tok false m nz q e)
              ∙ read_string_end n inside_run.1 i (cleared tok)
              ∙ ground (arith, s_eq),
          ap (texts stop) (loop_hit mx d n i tok false m nz q e)
              ∙ inside
              ∙ ap (fields d (suc k)) (clear_t ∙ ground (arith, s_eq)),
        ),
      )
    where
      cleared : (tk : ℕ) → (strsplit_loop mx d n (i + 1) tk true (clear m i)).1 i ≡ 0
      cleared tk = stable mx d n (i + 1) tk true (clear m i) i (omega arith) ∙ ground arith

  loop_past :
      (stop n i tok k : ℕ) (m : Mem)
      → i + suc n ≡ stop
      → tok < mx
      → m i ≢ 0
      → m i ≢ d
      → Inside stop n (i + 1) (tok + 1) k m
      → Inside stop n (i + 1) tok (suc k) m
      → Start stop (suc n) i tok (suc k) m × Inside stop (suc n) i tok (suc k) m
  unfolding Start Inside texts
  loop_past stop n i tok k m h q nz e started inside =
      let t = read_string n m (i + 1) in
      let s_eq = read_string_more n m i nz in
      (
        ap (texts stop) (loop_miss mx d n i tok true m nz q e)
            ∙ ap₂ ◌∷◌
                (ap (λ l. read_string l (run (tok + 1)).1 i) (omega arith)
                  ∙ first (tok + 1)
                  ∙ ap (λ r. m i ∷ r) started.0)
                started.1
            ∙ sym (fields_past d k (m i) t e)
            ∙ ap (fields d (suc k)) (sym s_eq),
        (
          ap (λ r. read_string (suc n) r.1 i) (loop_miss mx d n i tok false m nz q e)
              ∙ first tok
              ∙ ap (λ r. m i ∷ r) inside.0
              ∙ ground (arith, s_eq),
          ap (texts stop) (loop_miss mx d n i tok false m nz q e)
              ∙ inside.1
              ∙ ap (fields d (suc k)) (ground (arith, s_eq)),
        ),
      )
    where
      run : ℕ → List ℕ × Mem
      run tk = strsplit_loop mx d n (i + 1) tk false m

      first : (tk : ℕ) → read_string (suc n) (run tk).1 i ≡ m i ∷ read_string n (run tk).1 (i + 1)
      first tk =
          let kept : (run tk).1 i ≡ m i = stable mx d n (i + 1) tk false m i (omega arith) in
          read_string_more n (run tk).1 i (subst (λ x. x ≢ 0) (sym kept) nz)
          ∙ ap (λ x. x ∷ read_string n (run tk).1 (i + 1)) kept

  loop_fields :
      (stop n i tok k : ℕ) (m : Mem)
      → i + n ≡ stop
      → tok + k ≡ mx
      → Start stop n i tok k m × Inside stop n i tok k m
  loop_fields stop zero i tok k m h e =
      loop_over stop zero i tok k m (λ b. unfold strsplit_loop in refl)
        (inr (unfold read_string in refl))
  loop_fields stop (suc n) i tok zero m h e =
      loop_over stop (suc n) i tok zero m (λ b. loop_stop mx d n i tok b m (inr (omega arith)))
        (inl refl)
  loop_fields stop (suc n) i tok (suc k) m h e = elim (ℕ_discrete (m i) 0) [
    | yes z ↦
        loop_over stop (suc n) i tok (suc k) m (λ b. loop_stop mx d n i tok b m (inl z))
          (inr (read_string_end n m i z))
    | no nz ↦ elim (ℕ_discrete (m i) d) [
      | yes hit ↦
          loop_at stop n i tok k m h (omega arith) nz hit
            (loop_fields stop n (i + 1) (tok + 1) k (clear m i) (omega arith) (omega arith)).0
            (loop_fields stop n (i + 1) tok (suc k) (clear m i) (omega arith) (omega arith)).0
      | no miss ↦
          loop_past stop n i tok k m h (omega arith) nz miss
            (loop_fields stop n (i + 1) (tok + 1) k m (omega arith) (omega arith)).1
            (loop_fields stop n (i + 1) tok (suc k) m (omega arith) (omega arith)).1
    ]
  ]

-- The strings at the tokens that `strsplit` gives are the parts of the string between delimiters,
-- the last with all that is left once there are `maxtokens`.
pub strsplit_lem :
    (string : Mem) (stringlen maxtokens delim : ℕ)
    → (let r = strsplit string stringlen maxtokens delim in
        map (λ a. read_string (stringlen - a) r.1 a) r.0
        ≡ fields delim maxtokens (read_string stringlen string 0))
unfolding strsplit Start texts
strsplit_lem string stringlen maxtokens delim =
    (loop_fields maxtokens delim stringlen stringlen 0 0 maxtokens string (omega arith)
      (omega arith)).0

-- A run after `tok` tokens: `mx` in all at most, each in the string, and no write behind it.
InBounds : (mx stop tok : ℕ) → Mem → List ℕ × Mem → Type 0
InBounds mx stop tok m r =
    (tok + length r.0 ≤ mx)
    × ((k a : ℕ) → get_elem? r.0 k ≡ some a → a < stop)
    × ((j : ℕ) → stop ≤ j → r.1 j ≡ m j)

InBounds-cons :
    (mx stop i tok : ℕ) (b : Bool) (m m' : Mem) (rest : List ℕ × Mem)
    → i < stop
    → ((j : ℕ) → stop ≤ j → m' j ≡ m j)
    → InBounds mx stop (if b then tok + 1 else tok) m' rest
    → InBounds mx stop tok m (if b then i ∷ rest.0 else rest.0, rest.1)
unfolding InBounds
InBounds-cons mx stop i tok false m m' rest h e (c, o, f) = (c, o, λ j q. f j q ∙ e j q)
InBounds-cons mx stop i tok true m m' rest h e (c, o, f) =
    (omega (arith, c), offset, λ j q. f j q ∙ e j q)
  where
    offset : (k a : ℕ) → get_elem? (i ∷ rest.0) k ≡ some a → a < stop
    offset zero a g = ground arith
    offset (suc k) a g = o k a g

loop_bounds :
    (mx d stop n i tok : ℕ) (b : Bool) (m : Mem)
    → i + n ≡ stop
    → tok ≤ mx
    → InBounds mx stop tok m (strsplit_loop mx d n i tok b m)
unfolding strsplit_loop InBounds
loop_bounds mx d stop zero i tok b m s h = (omega arith, λ k a e. ground arith, λ j q. refl)
loop_bounds mx d stop (suc n) i tok b m s h = elim (ℕ_discrete (m i) 0) [
  | yes z ↦ over (loop_stop mx d n i tok b m (inl z))
  | no nz ↦ elim (dec_lt tok mx) [
    | no q ↦ over (loop_stop mx d n i tok b m (inr (omega arith)))
    | yes q ↦ elim (ℕ_discrete (m i) d) [
      | yes e ↦ subst (InBounds mx stop tok m) (sym (loop_hit mx d n i tok b m nz q e)) (
          InBounds-cons mx stop i tok b m (clear m i) _ (omega arith) (λ j l. ground arith)
            (loop_bounds mx d stop n (i + 1) (if b then tok + 1 else tok) true (clear m i)
              (omega arith) (ground arith)))
      | no e ↦ subst (InBounds mx stop tok m) (sym (loop_miss mx d n i tok b m nz q e)) (
          InBounds-cons mx stop i tok b m m _ (omega arith) (λ j l. refl)
            (loop_bounds mx d stop n (i + 1) (if b then tok + 1 else tok) false m (omega arith)
              (ground arith)))
    ]
  ]
]
  where
    over :
        strsplit_loop mx d (suc n) i tok b m ≡ ([], m)
        → InBounds mx stop tok m (strsplit_loop mx d (suc n) i tok b m)
    over e =
        subst (InBounds mx stop tok m) (sym e) (omega arith, λ k a g. ground arith, λ j q. refl)

-- For any bytes, `strsplit` gives at most `maxtokens` tokens, each at an offset below `stringlen`,
-- and changes no byte from offset `stringlen` on.
pub strsplit_bounds :
    (string : Mem) (stringlen maxtokens delim : ℕ)
    → (let r = strsplit string stringlen maxtokens delim in
        (length r.0 ≤ maxtokens)
        × ((k a : ℕ) → get_elem? r.0 k ≡ some a → a < stringlen)
        × ((j : ℕ) → stringlen ≤ j → r.1 j ≡ string j))
unfolding strsplit InBounds
strsplit_bounds string stringlen maxtokens delim =
    let (c, o, f) =
      loop_bounds maxtokens delim stringlen stringlen 0 0 true string (omega arith) (omega arith) in
    (omega (arith, c), o, f)
