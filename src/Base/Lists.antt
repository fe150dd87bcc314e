-- ===== src/Base/Lists.antt =====
-- Lists read by native numbers, and finite checks by evaluation.
use Prim.Native.Nat.{ℕ, zero, suc, ◌<◌}
use mathlib.Core.Path.{◌≡◌}
use mathlib.Core.Bool.{Bool, true, false, cond}
use native.Mathlib.Decide.{dec_lt}
use mathlib.Core.List.{List, [], ◌∷◌}
use mathlib.Core.Option.{Option, none, some}
use native.Mathlib.Omega.{arith}
use kolibri_os_reloaded.Base.Tests.{ltb}

module _ {ℓ} {A : Type ℓ} where
  abbrev pub length : List A → ℕ
  length [] = 0
  length (x ∷ xs) = suc (length xs)

  abbrev pub get_elem? : List A → ℕ → Option A
  get_elem? [] i = none
  get_elem? (x ∷ xs) zero = some x
  get_elem? (x ∷ xs) (suc i) = get_elem? xs i

  abbrev pub get_or : List A → ℕ → A → A
  get_or [] i d = d
  get_or (x ∷ xs) zero d = x
  get_or (x ∷ xs) (suc i) d = get_or xs i d

  abbrev pub take : ℕ → List A → List A
  take zero xs = []
  take (suc n) [] = []
  take (suc n) (x ∷ xs) = x ∷ take n xs

  abbrev pub drop : ℕ → List A → List A
  drop zero xs = xs
  drop (suc n) [] = []
  drop (suc n) (x ∷ xs) = drop n xs

abbrev All {ℓ κ} : {A : Type ℓ} → (A → Type κ) → List A → Type κ
All P [] = Unit
All P (x ∷ xs) = P x × All P xs

-- Whether a test holds at the numbers below a bound, run from the bound down.
unfoldable pub holds_below : (ℕ → Bool) → ℕ → Bool
holds_below test zero = true
holds_below test (suc top) = cond (test top) (holds_below test top) false

holds_below_top :
    (test : ℕ → Bool) (top : ℕ)
    → holds_below test (suc top) ≡ true
    → (test top ≡ true) × (holds_below test top ≡ true)
unfolding holds_below
holds_below_top test top all = ground arith

pub holds_below_at :
    (test : ℕ → Bool) (top : ℕ) → holds_below test top ≡ true → (x : ℕ) → x < top → test x ≡ true
holds_below_at test zero all x below = absurd (omega arith)
holds_below_at test (suc top) all x below =
    let (at_top, rest) = holds_below_top test top all in
    elim (dec_lt x top) [
      | yes inside ↦ holds_below_at test top rest x inside
      | no edge ↦ (let top_is_x : x ≡ top = omega arith in rw top_is_x at_top)
    ]

-- Whether every number of a list is below a bound, and then what reading it gives.
abbrev all_below : ℕ → List ℕ → Bool
all_below bound [] = true
all_below bound (x ∷ xs) = cond (ltb x bound) (all_below bound xs) false

pub get_or-below :
    (bound : ℕ) (xs : List ℕ) (i : ℕ)
    → 0 < bound
    → all_below bound xs ≡ true
    → get_or xs i 0 < bound
get_or-below bound [] i some_bound all = some_bound
get_or-below bound (x ∷ xs) zero some_bound all = ground arith
get_or-below bound (x ∷ xs) (suc i) some_bound all =
    get_or-below bound xs i some_bound (ground arith)
