-- ===== src/Cdev/Release.antt =====
-- Which area `do_cpp_area_release` of user/nfpcore/nfp_cpp_dev_ops.c gives back.
use nfp_udp_echo.Base.{
  ℕ, ◌≡◌, ◌≢◌, refl, ap, ◌∙◌, ◌⊎◌, inl, inr, true, false, Bool-cases, List, [], ◌∷◌, ◌++◌,
  ℕ_discrete, arith,
}
use nfp_udp_echo.Cdev.{AreaRequest, Area, Result, success, enoent, ebusy, do_cpp_area_release}

-- No area of the list starts at the offset.
abbrev pub NoneAt : ℕ → List Area → Type 0
NoneAt offset [] = Unit
NoneAt offset (a ∷ l) = (a.req.offset ≢ offset) × NoneAt offset l

-- Where the first area of the list that starts at the offset is.
pub record FirstAt (offset : ℕ) (l : List Area) : Type 0 where
  pub before : List Area
  pub area : Area
  pub after : List Area
  pub parts : l ≡ before ++ (area ∷ after)
  pub none_before : NoneAt offset before
  pub at_offset : area.req.offset ≡ offset

abbrev there :
    (offset : ℕ) (a : Area) (l : List Area)
    → a.req.offset ≢ offset
    → FirstAt offset l
    → FirstAt offset (a ∷ l)
there offset a l h f = record {
  before = a ∷ f.before;
  area = f.area;
  after = f.after;
  parts = ap (◌∷◌ a) f.parts;
  none_before = (h, f.none_before);
  at_offset = f.at_offset;
}

-- What a release comes to: it finds no area, or the first at the offset, which is in use or not.
abbrev pub ReleaseOf : AreaRequest → List Area → Result × List Area → Type 0
ReleaseOf r l result =
    (NoneAt r.offset l × (result ≡ (enoent, l)))
    ⊎ ((f : FirstAt r.offset l) × (((f.area.vma_empty ≡ true)
            × (result ≡ (success, f.before ++ f.after)))
          ⊎ ((f.area.vma_empty ≡ false) × (result ≡ (ebusy, l)))))

-- A release takes just the first area that starts at the request's offset out of the list if this
-- area is not in use, refuses with `EBUSY` if it is, and with `ENOENT` if there is none; a release
-- that is refused leaves the list as it is.
pub do_cpp_area_release_lem :
    (r : AreaRequest) (l : List Area) → ReleaseOf r l (do_cpp_area_release r l)
unfolding do_cpp_area_release
do_cpp_area_release_lem r [] = inl (tt, refl)
do_cpp_area_release_lem r (a ∷ l) = elim (ℕ_discrete a.req.offset r.offset) [
  | yes q ↦
      let f : FirstAt r.offset (a ∷ l) = record {
        before = [];
        area = a;
        after = l;
        parts = refl;
        none_before = tt;
        at_offset = q;
      } in
      elim (Bool-cases a.vma_empty) [
        | inl e ↦ inr (f, inl (e, ground (arith, q, e)))
        | inr e ↦ inr (f, inr (e, ground (arith, q, e)))
      ]
  | no q ↦
      let on : do_cpp_area_release r (a ∷ l)
          ≡ ((do_cpp_area_release r l).0, a ∷ (do_cpp_area_release r l).1) =
        ground (arith, q) in
      let kept : (x : Result × List Area)
          → do_cpp_area_release r l ≡ x
          → do_cpp_area_release r (a ∷ l) ≡ (x.0, a ∷ x.1) =
        λ x e. on ∙ ap (λ y. (y.0, a ∷ y.1)) e in
      elim (do_cpp_area_release_lem r l) [
        | inl (n, e) ↦ inl ((q, n), kept (enoent, l) e)
        | inr (f, inl (v, e)) ↦
            inr (there r.offset a l q f, inl (v, kept (success, f.before ++ f.after) e))
        | inr (f, inr (v, e)) ↦ inr (there r.offset a l q f, inr (v, kept (ebusy, l) e))
      ]
]
