-- ===== src/Cdev/Areas.antt =====
-- The areas that the daemon hands out never overlap: user/nfpcore/nfp_cpp_dev_ops.c.
use nfp_udp_echo.Base.{
  ℕ, ◌+◌, ◌^◌, ◌≤◌, ◌<◌, ◌≡◌, ◌⊎◌, ◌↔◌, inl, inr, refl, sym, subst, true, Bool-cases, Option-cases,
  List, [], ◌∷◌, ◌++◌, arith, ℕ_discrete,
}
use nfp_udp_echo.Base.Words.{add64}
use nfp_udp_echo.Cdev.{
  AreaRequest, Area, AreaCalls, page_size, any_offset, range_check, area_alloc, search, place,
  do_cpp_area_request,
}

abbrev pub end : AreaRequest → ℕ
end r = r.offset + r.size

-- Two ranges of bytes that do not meet.
abbrev pub Apart : AreaRequest → AreaRequest → Type 0
Apart a b = (end a ≤ b.offset) ⊎ (end b ≤ a.offset)

abbrev pub AllApart : AreaRequest → List Area → Type 0
AllApart r [] = Unit
AllApart r (a ∷ l) = Apart a.req r × AllApart r l

-- No two areas meet, and all end at `b` at most.
abbrev pub IsValid : ℕ → List Area → Type 0
IsValid b [] = Unit
IsValid b (a ∷ l) = (end a.req ≤ b) × AllApart a.req l × IsValid b l

-- The check is exact as long as no sum wraps.
pub range_check_iff :
    (b : ℕ) (l : List Area) (r : AreaRequest)
    → b < 2 ^ 64
    → IsValid b l
    → end r < 2 ^ 64
    → (range_check l r ≡ true) ↔ AllApart r l
unfolding range_check
range_check_iff b [] r h v e = ground arith
range_check_iff b (a ∷ l) r h v e = ground (arith, range_check_iff b l r h v.2 e)

IsValid-append :
    (b : ℕ) (l : List Area) (x : Area)
    → IsValid b l
    → end x.req ≤ b
    → AllApart x.req l
    → IsValid b (l ++ (x ∷ []))
IsValid-append b [] x v e ap' = (e, tt, tt)
IsValid-append b (a ∷ l) x v e ap' =
    (v.0, AllApart-append a.req l x v.1 ap'.0, IsValid-append b l x v.2 e ap'.1)
  where
    AllApart-append :
        (r : AreaRequest) (l : List Area) (x : Area)
        → AllApart r l
        → Apart r x.req
        → AllApart r (l ++ (x ∷ []))
    AllApart-append r [] x w q = (ground (arith, q), tt)
    AllApart-append r (y ∷ l) x w q = (w.0, AllApart-append r l x w.1 q)

IsValid-mono : (b c : ℕ) (l : List Area) → b ≤ c → IsValid b l → IsValid c l
IsValid-mono b c [] h v = tt
IsValid-mono b c (a ∷ l) h v = (omega (arith, v.0), v.1, IsValid-mono b c l h v.2)

search-end :
    (b : ℕ) (l areas : List Area) (r : AreaRequest)
    → b < 2 ^ 64
    → IsValid b l
    → (search l areas r).0 ≡ true
    → end (search l areas r).1 ≤ b + r.size
unfolding search
search-end b [] areas r h v e = absurd (ground (arith, e))
search-end b (a ∷ l) areas r h v e =
    elim (Bool-cases (range_check areas (record r { offset = add64 a.req.offset a.req.size }))) [
      | inl t ↦ rw t (omega (arith, v.0))
      | inr f ↦ rw f (
          search-end b l areas (record r { offset = add64 a.req.offset a.req.size }) h v.2
            (ground (arith, e, f)))
    ]

-- The place that is chosen lies within a page of the ends so far, or is the client's.
pub place-end :
    (b : ℕ) (areas : List Area) (r : AreaRequest)
    → b < 2 ^ 64
    → IsValid b areas
    → (r.offset ≡ any_offset) ⊎ (end r ≤ b + page_size)
    → r.size ≤ page_size
    → (place areas r).0 ≡ true
    → end (place areas r).1 ≤ b + page_size
unfolding place
place-end b areas r h v o z e = elim (ℕ_discrete r.offset any_offset) [
  | yes q ↦ elim (Bool-cases (range_check areas (record r { offset = 0 }))) [
    | inl t ↦ ground (arith, q, t)
    | inr f ↦ ground (arith, q, f, search-end b areas areas (record r { offset = 0 }) h v)
  ]
  | no q ↦ ground (arith, q)
]

-- A request changes the areas only by an allocation, of the place chosen, after the checks.
request_cases :
    (e : AreaCalls) (interface : ℕ) (r : AreaRequest) (areas : List Area)
    → ((do_cpp_area_request e interface r areas).2 ≡ areas)
      ⊎ ((r.size ≤ page_size)
          × ((place areas r).0 ≡ true)
          × (range_check areas (place areas r).1 ≡ true)
          × ((do_cpp_area_request e interface r areas).2
              ≡ (area_alloc e interface (place areas r).1 areas).1))
unfolding do_cpp_area_request
request_cases e interface r areas = ground arith

alloc_cases :
    (e : AreaCalls) (interface : ℕ) (r : AreaRequest) (areas : List Area)
    → ((area_alloc e interface r areas).1 ≡ areas)
      ⊎ ((c : ℕ) × ((area_alloc e interface r areas).1
            ≡ areas
              ++ (record { interface = interface; req = r; area = c; vma_empty = true } ∷ [])))
unfolding area_alloc
alloc_cases e interface r areas = elim (Bool-cases e.malloc) [
  | inr m ↦ inl (rw m refl)
  | inl m ↦ elim (Option-cases e.cpp_area) [
    | inl n ↦ inl (rw (m, n) refl)
    | inr (c, n) ↦ inr (c, rw (m, n) refl)
  ]
]

alloc-IsValid :
    (b : ℕ) (e : AreaCalls) (interface : ℕ) (r : AreaRequest) (areas : List Area)
    → IsValid b areas
    → end r ≤ b
    → AllApart r areas
    → IsValid b (area_alloc e interface r areas).1
alloc-IsValid b e interface r areas v h ap' = elim (alloc_cases e interface r areas) [
  | inl q ↦ subst (IsValid b) (sym q) v
  | inr (c, q) ↦ subst (IsValid b) (sym q) (IsValid-append b areas _ v h ap')
]

-- A request keeps the areas apart, whatever it returns: no two areas meet. The bound on their ends
-- grows by a page.
pub request-IsValid :
    (b : ℕ) (areas : List Area) (e : AreaCalls) (interface : ℕ) (r : AreaRequest)
    → b + page_size < 2 ^ 64
    → IsValid b areas
    → (r.offset ≡ any_offset) ⊎ (end r ≤ b + page_size)
    → IsValid (b + page_size) (do_cpp_area_request e interface r areas).2
unfolding do_cpp_area_request
request-IsValid b areas e interface r h v o = elim (request_cases e interface r areas) [
  | inl q ↦
      subst (IsValid (b + page_size)) (sym q) (IsValid-mono b (b + page_size) areas (omega arith) v)
  | inr (z, p, c, q) ↦
      let fits = place-end b areas r (omega arith) v o z p in
      subst (IsValid (b + page_size)) (sym q) (
        alloc-IsValid (b + page_size) e interface (place areas r).1 areas
          (IsValid-mono b (b + page_size) areas (omega arith) v) fits
          ((range_check_iff b areas (place areas r).1 (omega arith) v (omega (arith, fits))).0 c))
]
