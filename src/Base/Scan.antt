-- ===== src/Base/Scan.antt =====
-- A loop that looks at addresses at a fixed distance until a test holds, and what it finds.
use Prim.Native.Nat.{ℕ, zero, suc, ◌+◌, ◌*◌, ◌<◌}
use mathlib.Core.Path.{◌≡◌, refl}
use mathlib.Core.Logic.{◌⊎◌, inl, inr}
use mathlib.Core.Bool.{Bool, true, false}
use mathlib.Core.Option.{Option, none, some}
use native.Mathlib.Omega.{arith}
use kolibri_os_reloaded.Base.Tests.{if◌then◌else◌, Bool-cases}

-- At most the given number of rounds; the address grows by `stride`.
unfoldable pub first_hit : (ℕ → Bool) → ℕ → ℕ → ℕ → Option ℕ
first_hit test stride zero at = none
first_hit test stride (suc rounds) at =
    let rest = first_hit test stride rounds (at + stride) in if test at then some at else rest

-- No hit in the first rounds.
unfoldable pub NoHit : (ℕ → Bool) → ℕ → ℕ → ℕ → Type 0
NoHit test stride rounds at = (i : ℕ) → i < rounds → test (at + stride * i) ≡ false

NoHit-suc :
    (test : ℕ → Bool) (stride rounds at : ℕ)
    → test at ≡ false
    → NoHit test stride rounds (at + stride)
    → NoHit test stride (suc rounds) at
unfolding NoHit
NoHit-suc test stride rounds at e h zero below =
    let here : at + stride * 0 ≡ at = omega arith in rw here e
NoHit-suc test stride rounds at e h (suc i) below =
    let there : at + stride * suc i ≡ at + stride + stride * i = grind arith in
    rw there (h i (omega arith))

-- The first hit and where it is, or none at all.
pub first_hit_outcome :
    (test : ℕ → Bool) (stride rounds at : ℕ)
    → ((first_hit test stride rounds at ≡ none) × NoHit test stride rounds at)
      ⊎ ((k : ℕ) × (first_hit test stride rounds at ≡ some (at + stride * k))
          × (k < rounds)
          × (test (at + stride * k) ≡ true)
          × NoHit test stride k at)
unfolding first_hit NoHit
first_hit_outcome test stride zero at = inl (refl, λ i below. absurd (omega arith))
first_hit_outcome test stride (suc rounds) at = elim (Bool-cases (test at)) [
  | inl e ↦
      (let here : at + stride * 0 ≡ at = omega arith in
        inr (0, rw (e, here) refl, omega arith, rw here e, λ i below. absurd (omega arith)))
  | inr e ↦ elim (first_hit_outcome test stride rounds (at + stride)) [
    | inl (missed, all) ↦ inl (rw e missed, NoHit-suc test stride rounds at e all)
    | inr (k, found, below, holds, before) ↦
        (let there : at + stride + stride * k ≡ at + stride * suc k = grind arith in
          inr (
            suc k,
            rw e (rw there at found),
            omega arith,
            rw there at holds,
            NoHit-suc test stride k at e before,
          ))
  ]
]
