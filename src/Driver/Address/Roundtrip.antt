-- ===== src/Driver/Address/Roundtrip.antt =====
-- parse_pci_addr_format of user/lib/driver.c, against the parts of its text.
use nfp_udp_echo.Base.{
  ℕ, zero, suc, ◌+◌, ◌-◌, ◌<◌, ◌≤◌, ◌≡◌, refl, sym, ap, ap₂, ◌∙◌, subst, Bool, true, false, ◌≢◌,
  Option, none, some, Option-cases, List, [], ◌∷◌, get_elem?, take, ◌==◌, if◌then◌else◌, inl, inr,
  ℕ_discrete, arith,
}
use nfp_udp_echo.Base.Memory.{Mem}
use nfp_udp_echo.Driver.{PciAddr}
use nfp_udp_echo.Driver.Strings.{
  map, read_string, read_string_ext, read_string_end, read_string_more, clear, before, after,
  strsplit, strsplit_lem, strsplit_bounds, fields,
}
use nfp_udp_echo.Driver.Strings.Apart.{From, strsplit-From}
use nfp_udp_echo.Driver.Address.{
  strchr, in_buffer, pci_addr_of, parse_tokens, parse_pci_addr_format,
}

abbrev pub has : ℕ → List ℕ → Bool
has c [] = false
has c (x ∷ s) = if x == c then true else has c s

-- What the fields of a text say.
abbrev pub address_of : List (List ℕ) → Option PciAddr
address_of (domain ∷ bus ∷ devid ∷ []) =
    if has b'.' devid then pci_addr_of domain bus (before b'.' devid) (after b'.' devid) else none
address_of fs = none

-- A string that ends before `x` is as it was when `x` is cleared.
read_string-clear :
    (n : ℕ) (m : Mem) (a x z : ℕ)
    → a ≤ z
    → z < x
    → m z ≡ 0
    → read_string n (clear m x) a ≡ read_string n m a
unfolding read_string
read_string-clear zero m a x z h q e = refl
read_string-clear (suc n) m a x z h q e = elim (ℕ_discrete (m a) 0) [
  | yes y ↦ ground arith
  | no ny ↦ elim (ℕ_discrete a z) [
    | yes y ↦ absurd (ny (ap m y ∙ e))
    | no y ↦ let rest = read_string-clear n m (a + 1) x z (omega arith) q e in ground (arith, rest)
  ]
]

-- How `strchr` and the zero in place of the character found divide a string.
Divided : (n a c : ℕ) → Mem → Option ℕ → Type 0
Divided n a c m none = has c (read_string n m a) ≡ false
Divided n a c m (some dot) =
    (has c (read_string n m a) ≡ true)
    × (a ≤ dot)
    × (read_string n (clear m dot) a ≡ before c (read_string n m a))
    × (read_string (a + n - (dot + 1)) (clear m dot) (dot + 1) ≡ after c (read_string n m a))

past :
    (n a c : ℕ) (m : Mem) (found : Option ℕ)
    → m a ≢ c
    → m a ≢ 0
    → Divided n (a + 1) c m found
    → Divided (suc n) a c m found
unfolding Divided
past n a c m none ny nz h = ap (has c) (read_string_more n m a nz) ∙ ground (arith, h)
past n a c m (some dot) ny nz (found, le, front, back) =
    let s = read_string_more n m a nz in
    let kept : clear m dot a ≡ m a = ground arith in
    (
      ap (has c) s ∙ ground (arith, found),
      omega arith,
      read_string_more n (clear m dot) a (subst (λ x. x ≢ 0) (sym kept) nz)
          ∙ ap₂ ◌∷◌ kept front
          ∙ sym (ap (before c) s ∙ ground arith),
      ap (λ k. read_string (k - (dot + 1)) (clear m dot) (dot + 1)) (omega arith)
          ∙ back
          ∙ sym (ap (after c) s ∙ ground arith),
    )

strchr-Divided : (n a c : ℕ) (m : Mem) → c ≢ 0 → Divided n a c m (strchr n m a c)
unfolding Divided
strchr-Divided zero a c m h = unfold strchr read_string in refl
strchr-Divided (suc n) a c m h = elim (ℕ_discrete (m a) c) [
  | yes y ↦
      let s = read_string_more n m a (λ z. h (sym y ∙ z)) in
      let found_here : strchr (suc n) m a c ≡ some a = unfold strchr in ground arith in
      subst (Divided (suc n) a c m) (sym found_here) (
        ap (has c) s ∙ ground arith,
        omega arith,
        read_string_end n (clear m a) a (ground arith) ∙ sym (ap (before c) s ∙ ground arith),
        ap (λ k. read_string k (clear m a) (a + 1)) (omega arith)
            ∙ read_string_ext n (clear m a) m (a + 1) (λ b l. ground arith)
            ∙ sym (ap (after c) s ∙ ground arith),
      )
  | no ny ↦ elim (ℕ_discrete (m a) 0) [
    | yes z ↦
        let ended : strchr (suc n) m a c ≡ none = unfold strchr in ground arith in
        subst (Divided (suc n) a c m) (sym ended) (ap (has c) (read_string_end n m a z))
    | no nz ↦
        let further : strchr (suc n) m a c ≡ strchr n m (a + 1) c = unfold strchr in ground arith in
        subst (Divided (suc n) a c m) (sym further)
          (past n a c m (strchr n m (a + 1) c) ny nz (strchr-Divided n (a + 1) c m h))
  ]
]

parse_tokens_lem :
    (bufsize : ℕ) (r : List ℕ × Mem)
    → From 0 r
    → ((k a : ℕ) → get_elem? r.0 k ≡ some a → a < bufsize)
    → parse_tokens bufsize r ≡ address_of (map (λ a. read_string (bufsize - a) r.1 a) r.0)
unfolding parse_tokens
parse_tokens_lem n ([], m) f h = refl
parse_tokens_lem n (a ∷ [], m) f h = refl
parse_tokens_lem n (a ∷ b ∷ [], m) f h = refl
parse_tokens_lem n (a ∷ b ∷ c ∷ e ∷ rest, m) f h = refl
parse_tokens_lem n (a ∷ b ∷ c ∷ [], m) (e, (b-lt, bz, (c-lt, cz, _))) h =
    elim (Option-cases (strchr (n - c) m c b'.')) [
      | inl q ↦
          let d : Divided (n - c) c b'.' m none = subst (Divided (n - c) c b'.' m) q divided in
          rw (parse_tokens, q) (unfold Divided in ground (arith, d))
      | inr (dot, q) ↦
          let (found, le, front, back) = apart dot (subst (Divided (n - c) c b'.' m) q divided) in
          let c-lt-n = h 2 c refl in
          let end : read_string (n - (dot + 1)) (clear m dot) (dot + 1)
              ≡ after b'.' (read_string (n - c) m c) =
            ap (λ k. read_string (k - (dot + 1)) (clear m dot) (dot + 1)) (omega (arith, c-lt-n))
            ∙ back in
          rw
            (
              parse_tokens,
              q,
              found,
              front,
              end,
              read_string-clear (n - a) m a dot (b - 1) (omega arith) (omega arith) bz,
              read_string-clear (n - b) m b dot (c - 1) (omega arith) (omega arith) cz,
            )
            refl
    ]
  where
    divided : Divided (n - c) c b'.' m (strchr (n - c) m c b'.')
    divided = strchr-Divided (n - c) c b'.' m (omega arith)

    apart :
        (dot : ℕ)
        → Divided (n - c) c b'.' m (some dot)
        → (has b'.' (read_string (n - c) m c) ≡ true)
          × (c ≤ dot)
          × (read_string (n - c) (clear m dot) c ≡ before b'.' (read_string (n - c) m c))
          × (read_string (c + (n - c) - (dot + 1)) (clear m dot) (dot + 1)
              ≡ after b'.' (read_string (n - c) m c))
    apart dot d = unfold Divided in d

-- The address in a text is that of its fields between colons, the third cut at its first dot; there
-- is none if the fields are not three, if the third has no dot or if a number is too large.
pub parse_pci_addr_format_lem :
    (buf : List ℕ) (bufsize : ℕ)
    → parse_pci_addr_format buf bufsize
      ≡ address_of (fields b':' 4 (read_string bufsize (in_buffer (take bufsize buf)) 0))
unfolding parse_pci_addr_format
parse_pci_addr_format_lem buf bufsize =
    let m = in_buffer (take bufsize buf) in
    let (_, offsets, _) = strsplit_bounds m bufsize 4 b':' in
    parse_tokens_lem bufsize (strsplit m bufsize 4 b':') (strsplit-From m bufsize 4 b':') offsets
    ∙ ap address_of (strsplit_lem m bufsize 4 b':')
