-- ===== src/Cdev/Gap.antt =====
-- The search of user/nfpcore/nfp_cpp_dev_ops.c for a free offset, and the release of what a request
-- has added.
use nfp_udp_echo.Base.{
  ℕ, ◌+◌, ◌^◌, ◌≤◌, ◌<◌, ◌≡◌, ◌≢◌, ◌⊎◌, inl, inr, refl, sym, ap₂, ◌∙◌, true, false, Bool-cases,
  Option-cases, some, List, [], ◌∷◌, ◌++◌, arith, ltb, if◌then◌else◌,
}
use nfp_udp_echo.Base.Words.{add64}
use nfp_udp_echo.Cdev.{
  AreaRequest, Area, success, AreaCalls, page_size, any_offset, range_check, area_alloc, search,
  place, do_cpp_area_request, do_cpp_area_release,
}
use nfp_udp_echo.Cdev.Areas.{place-end, end, IsValid, range_check_iff, AllApart}

-- The highest end.
top : List Area → ℕ
top [] = 0
top (a ∷ l) = if ltb (top l) (end a.req) then end a.req else top l

-- Some area of the list ends at `m`.
abbrev EndsAt : ℕ → List Area → Type 0
EndsAt m [] = ⊥
EndsAt m (a ∷ l) = (end a.req ≡ m) ⊎ EndsAt m l

top-EndsAt : (a : Area) (l : List Area) → EndsAt (top (a ∷ l)) (a ∷ l)
unfolding top
top-EndsAt a [] = ground arith
top-EndsAt a (x ∷ l) = ground (arith, top-EndsAt x l)

above_top : (l : List Area) (r : AreaRequest) → top l ≤ r.offset → AllApart r l
unfolding top
above_top [] r h = tt
above_top (a ∷ l) r h = (ground arith, above_top l r (ground arith))

top-IsValid : (b : ℕ) (l : List Area) → IsValid b l → top l ≤ b
unfolding top
top-IsValid b [] v = omega arith
top-IsValid b (a ∷ l) v = ground (arith, top-IsValid b l v.2, v.0)

false≢true : false ≢ true
false≢true e = cc

-- Trying the end of every area meets the highest one, which is free.
search_lem :
    (b m : ℕ) (l areas : List Area) (r : AreaRequest)
    → b + r.size < 2 ^ 64
    → IsValid b areas
    → top areas ≡ m
    → EndsAt m l
    → (search l areas r).0 ≡ true
unfolding search
search_lem b m [] areas r h v t e = absurd e
search_lem b m (a ∷ l) areas r h v t e =
    elim (Bool-cases (range_check areas (record r { offset = add64 a.req.offset a.req.size }))) [
      | inl c ↦ rw c refl
      | inr c ↦ elim e [
        | inl q ↦ absurd (
            false≢true (
              sym c
              ∙ (range_check_iff b areas (record r { offset = add64 a.req.offset a.req.size })
                    (omega arith) v (omega (arith, q, t, top-IsValid b areas v))).1
                  (above_top areas (record r { offset = add64 a.req.offset a.req.size })
                    (omega (arith, q, t, top-IsValid b areas v)))))
        | inr q ↦
            rw c
              (search_lem b m l areas (record r { offset = add64 a.req.offset a.req.size }) h v t q)
      ]
    ]

search-checked :
    (l areas : List Area) (r : AreaRequest)
    → (search l areas r).0 ≡ true
    → range_check areas (search l areas r).1 ≡ true
unfolding search
search-checked [] areas r e = absurd (false≢true e)
search-checked (a ∷ l) areas r e =
    ground (arith, e, search-checked l areas (record r { offset = add64 a.req.offset a.req.size }))

search_found :
    (b : ℕ) (areas : List Area) (r : AreaRequest)
    → b + r.size < 2 ^ 64
    → IsValid b areas
    → range_check areas (record r { offset = 0 }) ≡ false
    → (search areas areas (record r { offset = 0 })).0 ≡ true
unfolding range_check
search_found b [] r h v c = absurd (false≢true (sym c))
search_found b (a ∷ l) r h v c =
    search_lem b (top (a ∷ l)) (a ∷ l) (a ∷ l) (record r { offset = 0 }) h v refl (top-EndsAt a l)

-- With the offset left to the daemon, a place is found whatever areas there are.
place_lem :
    (b : ℕ) (areas : List Area) (r : AreaRequest)
    → b + r.size < 2 ^ 64
    → IsValid b areas
    → r.offset ≡ any_offset
    → ((place areas r).0 ≡ true) × (range_check areas (place areas r).1 ≡ true)
unfolding place
place_lem b areas r h v q = elim (Bool-cases (range_check areas (record r { offset = 0 }))) [
  | inl c ↦ ground (arith, q, c)
  | inr c ↦ ground (
    arith,
    q,
    c,
    search_found b areas r h v c,
    search-checked areas areas (record r { offset = 0 }),
  )
]

-- A request for a page that leaves the offset to the daemon never fails for want of a free offset:
-- it succeeds if the memory for it and the area itself can be allocated.
pub request-any :
    (b : ℕ) (areas : List Area) (e : AreaCalls) (interface c : ℕ) (r : AreaRequest)
    → b + page_size < 2 ^ 64
    → IsValid b areas
    → r.offset ≡ any_offset
    → r.size ≡ page_size
    → e.malloc ≡ true
    → e.cpp_area ≡ some c
    → (do_cpp_area_request e interface r areas).0 ≡ success
unfolding do_cpp_area_request area_alloc
request-any b areas e interface c r h v q z m n =
    ground (arith, q, z, m, n, place_lem b areas r (omega (arith, z)) v q)

-- No area of the list is empty.
abbrev pub AllFilled : List Area → Type 0
AllFilled [] = Unit
AllFilled (a ∷ l) = (0 < a.req.size) × AllFilled l

release-append :
    (l : List Area) (x : Area)
    → AllFilled l
    → AllApart x.req l
    → 0 < x.req.size
    → x.vma_empty ≡ true
    → do_cpp_area_release x.req (l ++ (x ∷ [])) ≡ (success, l)
unfolding do_cpp_area_release
release-append [] x f ap' h e = ground (arith, e)
release-append (a ∷ l) x f ap' h e = ground (arith, ap'.0, f.0, release-append l x f.1 ap'.1 h e)

search-size : (l areas : List Area) (r : AreaRequest) → (search l areas r).1.size ≡ r.size
unfolding search
search-size [] areas r = refl
search-size (a ∷ l) areas r =
    ground (arith, search-size l areas (record r { offset = add64 a.req.offset a.req.size }))

place-size : (areas : List Area) (r : AreaRequest) → (place areas r).1.size ≡ r.size
unfolding place
place-size areas r = ground (arith, search-size areas areas (record r { offset = 0 }))

-- A request that succeeds has passed the checks, and its area is the last one.
granted :
    (e : AreaCalls) (interface : ℕ) (r : AreaRequest) (areas : List Area)
    → (do_cpp_area_request e interface r areas).0 ≡ success
    → ((place areas r).0 ≡ true)
      × (range_check areas (place areas r).1 ≡ true)
      × ((do_cpp_area_request e interface r areas).1 ≡ (place areas r).1)
      × ((do_cpp_area_request e interface r areas).2
          ≡ (area_alloc e interface (place areas r).1 areas).1)
      × ((area_alloc e interface (place areas r).1 areas).0 ≡ success)
unfolding do_cpp_area_request
granted e interface r areas s = ground (arith, s)

allocated :
    (e : AreaCalls) (interface : ℕ) (r : AreaRequest) (areas : List Area)
    → (area_alloc e interface r areas).0 ≡ success
    → (c : ℕ) × ((area_alloc e interface r areas).1
        ≡ areas ++ (record { interface = interface; req = r; area = c; vma_empty = true } ∷ []))
unfolding area_alloc
allocated e interface r areas s = elim (Bool-cases e.malloc) [
  | inr m ↦ absurd (ground (arith, s, m))
  | inl m ↦ elim (Option-cases e.cpp_area) [
    | inl n ↦ absurd (ground (arith, s, m, n))
    | inr (c, n) ↦ (c, rw (m, n) refl)
  ]
]

-- A page that a request has handed out among valid areas, none of which is empty, can be given back by
-- the request as the daemon returned it, and the areas are then as they were; the request asks for
-- any offset, or for a page that ends at most a page behind the bound of the areas, and this end does
-- not wrap.
pub request-release :
    (b : ℕ) (areas : List Area) (e : AreaCalls) (interface : ℕ) (r : AreaRequest)
    → b + page_size < 2 ^ 64
    → IsValid b areas
    → AllFilled areas
    → (r.offset ≡ any_offset) ⊎ (end r ≤ b + page_size)
    → r.size ≡ page_size
    → (do_cpp_area_request e interface r areas).0 ≡ success
    → do_cpp_area_release
        (do_cpp_area_request e interface r areas).1
        (do_cpp_area_request e interface r areas).2
      ≡ (success, areas)
request-release b areas e interface r h v f o z s =
    let (p, k, q1, q2, a) = granted e interface r areas s in
    let (c, q3) = allocated e interface (place areas r).1 areas a in
    let fits = place-end b areas r (omega arith) v o (omega (arith, z)) p in
    let x : Area = record {
      interface = interface;
      req = (place areas r).1;
      area = c;
      vma_empty = true;
    } in
    ap₂ do_cpp_area_release q1 (q2 ∙ q3)
    ∙ release-append areas x f
        ((range_check_iff b areas (place areas r).1 (omega arith) v (omega (arith, fits))).0 k)
        (omega (arith, z, place-size areas r)) refl
