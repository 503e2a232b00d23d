-- ===== src/Cdev.antt =====
-- user/nfpcore/nfp_cpp_dev_ops.c: the areas of the card's memory that clients of the daemon hold.
-- A result is 0 or an error number; the list of areas is in the order of `data->req.list`. The
-- offsets and sizes are `unsigned long`.
pub mod Areas
pub mod Connections
pub mod Bars
pub mod Start
pub mod Gap
pub mod Release
pub mod Transfer
pub mod Write
pub mod Command
use nfp_udp_echo.Base.{
  ℕ, ◌+◌, ◌-◌, ◌*◌, ◌/◌, ◌%◌, ◌^◌, Bool, true, false, not, ◌&&◌, Option, none, some, List, [], ◌∷◌,
  ◌++◌, ltb, ◌==◌, if◌then◌else◌,
}
use nfp_udp_echo.Base.Words.{add64}

-- `struct nfp_cpp_area_request`
pub record AreaRequest : Type 0 where
  pub offset : ℕ
  pub cpp_id : ℕ
  pub cpp_addr : ℕ
  pub size : ℕ

-- `struct nfp_dev_cpp_area`: `area` is the library's handle, `vma_empty` whether `vma.list` is empty.
pub record Area : Type 0 where
  pub interface : ℕ
  pub req : AreaRequest
  pub area : ℕ
  pub vma_empty : Bool

pub data Result : Type 0 where
  success etxtbsy enomem einval enoent ebusy : Result

-- What `malloc` and `nfp_cpp_area_alloc_with_name` return.
pub record AreaCalls : Type 0 where
  pub malloc : Bool
  pub cpp_area : Option ℕ

abbrev pub page_size : ℕ
page_size = 2 ^ 12

-- `~0`, as an `unsigned long`
abbrev pub any_offset : ℕ
any_offset = 2 ^ 64 - 1

-- Whether the check returns 0; otherwise it returns `-ETXTBSY`.
unfoldable pub range_check : List Area → AreaRequest → Bool
range_check [] area_req = true
range_check (area ∷ l) area_req =
    let rest = range_check l area_req in
    if ltb area_req.offset (add64 area.req.offset area.req.size)
      && ltb area.req.offset (add64 area_req.offset area_req.size)
    then false
    else rest

unfoldable pub area_alloc : AreaCalls → ℕ → AreaRequest → List Area → Result × List Area
area_alloc e interface area_req areas =
    if not (e.malloc) then (enomem, areas) else elim (e.cpp_area) [
      | none ↦ (einval, areas)
      | some cpp_area ↦ (
        success,
        areas
            ++ (record { interface = interface; req = area_req; area = cpp_area; vma_empty = true }
                ∷ []),
      )
    ]

-- The loop that tries the end of each area, over the areas left, and whether it found a place.
unfoldable pub search : List Area → List Area → AreaRequest → Bool × AreaRequest
search [] areas area_req = (false, area_req)
search (area ∷ l) areas area_req =
    let here = record area_req { offset = add64 area.req.offset area.req.size } in
    let rest = search l areas here in if range_check areas here then (true, here) else rest

-- The choice of an offset, and whether `err >= 0` after it.
unfoldable pub place : List Area → AreaRequest → Bool × AreaRequest
place areas area_req =
    let first = record area_req { offset = 0 } in
    if area_req.offset == any_offset
    then if range_check areas first then (true, first) else search areas areas first
    else (true, area_req)

-- `size & ~PAGE_SIZE` is the size without bit 12, `offset & ~PAGE_MASK` the remainder. The results
-- are the error, the request with its offset filled in, and the areas.
unfoldable pub do_cpp_area_request :
    AreaCalls → ℕ → AreaRequest → List Area → Result × AreaRequest × List Area
do_cpp_area_request e interface area_req areas =
    let placed = place areas area_req in
    let allocated = area_alloc e interface placed.1 areas in
    if not (area_req.size - area_req.size / page_size % 2 * page_size == 0)
    then (einval, area_req, areas)
    else if not (area_req.offset == any_offset) && not (area_req.offset % page_size == 0)
    then (einval, area_req, areas)
    else if placed.0 && range_check areas placed.1
    then (allocated.0, placed.1, allocated.1)
    else (etxtbsy, placed.1, areas)

unfoldable pub do_cpp_area_release : AreaRequest → List Area → Result × List Area
do_cpp_area_release area_req [] = (enoent, [])
do_cpp_area_release area_req (area ∷ l) =
    let rest = do_cpp_area_release area_req l in
    if area.req.offset == area_req.offset
    then if area.vma_empty then (success, l) else (ebusy, area ∷ l)
    else (rest.0, area ∷ rest.1)
