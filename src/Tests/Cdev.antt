-- ===== src/Tests/Cdev.antt =====
-- Two areas of a page with a free page between them, and requests.
use nfp_udp_echo.Base.{ℕ, ◌+◌, ◌-◌, ◌^◌, ◌≡◌, inl, refl, true, some, List, [], ◌∷◌, arith}
use nfp_udp_echo.Cdev.{
  AreaRequest, Area, success, AreaCalls, page_size, any_offset, range_check, area_alloc, search,
  place, do_cpp_area_request, do_cpp_area_release,
}
use nfp_udp_echo.Cdev.Areas.{IsValid, request-IsValid}
use nfp_udp_echo.Cdev.Release.{ReleaseOf, do_cpp_area_release_lem}
use nfp_udp_echo.Cdev.Gap.{request-any, request-release}

abbrev page_at : ℕ → AreaRequest
page_at offset = record { offset = offset; cpp_id = 7; cpp_addr = 0; size = 0x1000 }

abbrev area_at : ℕ → Area
area_at offset = record { interface = 1; req = page_at offset; area = 5; vma_empty = true }

abbrev areas : List Area
areas = area_at 0 ∷ area_at 0x2000 ∷ []

areas-IsValid : IsValid 0x3000 areas
areas-IsValid = omega arith

abbrev calls : AreaCalls
calls = record { malloc = true; cpp_area = some 6 }

-- The daemon chooses the gap.
request_granted : (do_cpp_area_request calls 1 (page_at any_offset) areas).0 ≡ success
unfolding do_cpp_area_request area_alloc place search range_check
request_granted = refl

request_placed : (do_cpp_area_request calls 1 (page_at any_offset) areas).1 ≡ page_at 0x1000
unfolding do_cpp_area_request place search range_check
request_placed = refl

-- The last page of the address space is given out twice: the end of a request wraps to 0.
last_page_twice :
    range_check (area_at (2 ^ 64 - page_size) ∷ []) (page_at (2 ^ 64 - page_size)) ≡ true
unfolding range_check
last_page_twice = refl

request-IsValid_example :
    IsValid (0x3000 + page_size) (do_cpp_area_request calls 1 (page_at any_offset) areas).2
request-IsValid_example =
    request-IsValid 0x3000 areas calls 1 (page_at any_offset) (omega arith) areas-IsValid (inl refl)

do_cpp_area_release_lem_example :
    ReleaseOf (page_at 0x2000) areas (do_cpp_area_release (page_at 0x2000) areas)
do_cpp_area_release_lem_example = do_cpp_area_release_lem (page_at 0x2000) areas

request-any_example : (do_cpp_area_request calls 1 (page_at any_offset) areas).0 ≡ success
request-any_example =
    request-any 0x3000 areas calls 1 6 (page_at any_offset) (omega arith) areas-IsValid refl refl
      refl refl

request-release_example :
    do_cpp_area_release
      (do_cpp_area_request calls 1 (page_at any_offset) areas).1
      (do_cpp_area_request calls 1 (page_at any_offset) areas).2
    ≡ (success, areas)
request-release_example =
    request-release 0x3000 areas calls 1 (page_at any_offset) (omega arith) areas-IsValid
      (omega arith) (inl refl) refl request_granted
