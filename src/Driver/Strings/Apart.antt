-- ===== src/Driver/Strings/Apart.antt =====
-- The tokens of strsplit of user/lib/driver.c, one behind the other in the string.
use nfp_udp_echo.Base.{
  ℕ, zero, suc, ◌+◌, ◌-◌, ◌<◌, ◌≤◌, ◌≡◌, refl, sym, ap, ◌∙◌, subst, Bool, true, false, List, [],
  ◌∷◌, inl, inr, ℕ_discrete, dec_lt, arith,
}
use nfp_udp_echo.Base.Memory.{Mem}
use nfp_udp_echo.Driver.Strings.Loop.{
  clear, strsplit_loop, strsplit, loop_stop, loop_hit, loop_miss, stable,
}

-- Each token lies behind the one before, with a zero just in front of it.
abbrev pub Apart : Mem → ℕ → List ℕ → Type 0
Apart m a [] = Unit
Apart m a (b ∷ rest) = (a < b) × (m (b - 1) ≡ 0) × Apart m b rest

-- The tokens of a run that starts one at `i`.
abbrev pub From : ℕ → List ℕ × Mem → Type 0
From i ([], m) = Unit
From i (a ∷ rest, m) = (a ≡ i) × Apart m i rest

abbrev pub Spread : ℕ → List ℕ × Mem → Type 0
Spread prev r = Apart r.1 prev r.0

module _ (mx d : ℕ) where
  From-Apart :
      (i prev : ℕ) (r : List ℕ × Mem) → From (i + 1) r → prev ≤ i → r.1 i ≡ 0 → Apart r.1 prev r.0
  From-Apart i prev ([], m) f h z = tt
  From-Apart i prev (a ∷ rest, m) (e, f) h z =
      (omega arith, ap m (omega arith) ∙ z, subst (λ x. Apart m x rest) (sym e) f)

  loop-Apart :
      (n i tok : ℕ) (m : Mem)
      → From i (strsplit_loop mx d n i tok true m)
        × ((prev : ℕ) → prev < i → let r = strsplit_loop mx d n i tok false m in Apart r.1 prev r.0)
  loop-Apart zero i tok m = unfold strsplit_loop in (tt, λ prev h. tt)
  loop-Apart (suc n) i tok m = elim (ℕ_discrete (m i) 0) [
    | yes z ↦ over (λ b. loop_stop mx d n i tok b m (inl z))
    | no nz ↦ elim (dec_lt tok mx) [
      | no q ↦ over (λ b. loop_stop mx d n i tok b m (inr (omega arith)))
      | yes q ↦ elim (ℕ_discrete (m i) d) [
        | yes e ↦
            let next : (tk : ℕ) (prev : ℕ) → prev ≤ i → Spread prev (hit tk) = λ tk prev l.
              From-Apart i prev (hit tk) (loop-Apart n (i + 1) tk (clear m i)).0 l
                (stable mx d n (i + 1) tk true (clear m i) i (omega arith) ∙ ground arith) in
            (
              subst (From i) (sym (loop_hit mx d n i tok true m nz q e))
                  (refl, next (tok + 1) i (omega arith)),
              λ prev l.
                  subst (Spread prev) (sym (loop_hit mx d n i tok false m nz q e))
                    (next tok prev (omega arith)),
            )
        | no e ↦ (
          subst (From i) (sym (loop_miss mx d n i tok true m nz q e))
              (refl, (loop-Apart n (i + 1) (tok + 1) m).1 i (omega arith)),
          λ prev l.
              subst (Spread prev) (sym (loop_miss mx d n i tok false m nz q e))
                ((loop-Apart n (i + 1) tok m).1 prev (omega arith)),
        )
      ]
    ]
  ]
    where
      hit : ℕ → List ℕ × Mem
      hit tk = strsplit_loop mx d n (i + 1) tk true (clear m i)

      over :
          ((b : Bool) → strsplit_loop mx d (suc n) i tok b m ≡ ([], m))
          → From i (strsplit_loop mx d (suc n) i tok true m)
            × ((prev : ℕ)
                → prev < i
                → let r = strsplit_loop mx d (suc n) i tok false m in Apart r.1 prev r.0)
      over e = (subst (From i) (sym (e true)) tt, λ prev l. subst (Spread prev) (sym (e false)) tt)

-- The first token starts the string, and each other one lies behind a zero that follows the one
-- before it.
pub strsplit-From :
    (string : Mem) (stringlen maxtokens delim : ℕ)
    → From 0 (strsplit string stringlen maxtokens delim)
unfolding strsplit
strsplit-From string stringlen maxtokens delim = (loop-Apart maxtokens delim stringlen 0 0 string).0
