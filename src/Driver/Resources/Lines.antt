-- ===== src/Driver/Resources/Lines.antt =====
-- The regions that pci_parse_sysfs_resource of user/lib/driver.c reads, line by line.
use nfp_udp_echo.Base.{
  ℕ, zero, suc, ◌+◌, ◌≡◌, refl, sym, ap, ◌∙◌, Option, none, some, Option-cases, Bool-cases, List,
  [], ◌∷◌, ◌++◌, length, length-append, if◌then◌else◌, inl, inr, arith,
}
use nfp_udp_echo.Driver.{MemResource, pci_max_resource, ◌>>=◌}
use nfp_udp_echo.Driver.Resources.{
  parse_resource, parse_resources, pci_parse_sysfs_resource, set_at, region, is_mem, behind,
}

-- What a line makes of its region.
abbrev pub update : MemResource → ℕ × ℕ × ℕ → MemResource
update before r = if is_mem (r.2) then region r else before

-- Each region by its own line, as `fgets` reads it; none if a line is missing or bad.
abbrev pub from_lines : List (List ℕ) → List MemResource → Option (List MemResource)
from_lines lines [] = some []
from_lines [] (before ∷ rest) = none
from_lines (line ∷ lines) (before ∷ rest) = do
  r ← parse_resource line
  regions ← from_lines (behind line lines) rest
  some (update before r ∷ regions)

set_at-append :
    (i : ℕ) (x before : MemResource) (done rest : List MemResource)
    → i ≡ length done
    → set_at i x (done ++ (before ∷ rest)) ≡ done ++ (x ∷ rest)
set_at-append zero x before [] rest h = refl
set_at-append (suc i) x before [] rest h = absurd (omega arith)
set_at-append zero x before (y ∷ done) rest h = absurd (omega arith)
set_at-append (suc i) x before (y ∷ done) rest h =
    ap (λ t. y ∷ t) (set_at-append i x before done rest (omega arith))

snoc :
    (done : List MemResource) (x : MemResource) (rest : List MemResource)
    → done ++ (x ∷ rest) ≡ (done ++ (x ∷ [])) ++ rest
snoc [] x rest = refl
snoc (y ∷ done) x rest = ap (λ t. y ∷ t) (snoc done x rest)

regrouped :
    (done : List MemResource) (x : MemResource) (o : Option (List MemResource))
    → (o >>= λ regions. some ((done ++ (x ∷ [])) ++ regions))
      ≡ ((o >>= λ regions. some (x ∷ regions)) >>= λ regions. some (done ++ regions))
regrouped done x none = refl
regrouped done x (some regions) = ap some (sym (snoc done x regions))

updated :
    (i : ℕ) (r : ℕ × ℕ × ℕ) (before : MemResource) (done rest : List MemResource)
    → i ≡ length done
    → (if is_mem (r.2)
        then set_at i (region r) (done ++ (before ∷ rest))
        else done ++ (before ∷ rest))
      ≡ (done ++ (update before r ∷ [])) ++ rest
updated i r before done rest h = elim (Bool-cases (is_mem (r.2))) [
  | inl e ↦ rw e (set_at-append i (region r) before done rest h ∙ snoc done (region r) rest)
  | inr e ↦ rw e (snoc done before rest)
]

parse_resources_lem :
    (i : ℕ) (lines : List (List ℕ)) (done rest : List MemResource)
    → i ≡ length done
    → parse_resources (length rest) i lines (done ++ rest)
      ≡ (from_lines lines rest >>= λ regions. some (done ++ regions))
unfolding parse_resources
parse_resources_lem i lines done [] h = refl
parse_resources_lem i [] done (before ∷ rest) h = refl
parse_resources_lem i (line ∷ lines) done (before ∷ rest) h =
    elim (Option-cases (parse_resource line)) [
      | inl e ↦ rw e refl
      | inr (r, e) ↦ rw e (
          ap (parse_resources (length rest) (i + 1) (behind line lines))
            (updated i r before done rest h)
          ∙ parse_resources_lem (i + 1) (behind line lines) (done ++ (update before r ∷ [])) rest
              (omega (arith, h, length-append done (update before r ∷ [])))
          ∙ regrouped done (update before r) (from_lines (behind line lines) rest))
    ]

-- The array of regions is each region's line by itself: the file must have a good line for each.
pub pci_parse_sysfs_resource_lem :
    (lines : List (List ℕ)) (resources : List MemResource)
    → length resources ≡ pci_max_resource
    → pci_parse_sysfs_resource (some lines) resources ≡ from_lines lines resources
unfolding pci_parse_sysfs_resource
pci_parse_sysfs_resource_lem lines resources h =
    ap (λ n. parse_resources n 0 lines resources) (sym h)
    ∙ parse_resources_lem 0 lines [] resources refl
    ∙ kept (from_lines lines resources)
  where
    kept : (o : Option (List MemResource)) → (o >>= λ regions. some ([] ++ regions)) ≡ o
    kept none = refl
    kept (some regions) = refl
