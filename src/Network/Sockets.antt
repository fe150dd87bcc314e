-- ===== src/Network/Sockets.antt =====
-- The walk over a list of sockets.
use kolibri_os_reloaded.Base.{
  ℕ, zero, suc, ◌<◌, ◌≡◌, ◌≢◌, inl, inr, refl, ap, sym, arith, some, Bool, true, false, ◌||◌, ◌==◌,
  eq_cases, if◌then◌else◌, List, [], ◌∷◌,
}
use kolibri_os_reloaded.Base.Memory.{Memory, load_u32}
use kolibri_os_reloaded.Base.Lists.{length}
use kolibri_os_reloaded.Network.{socket_check_from_first, socket_check}

-- The nodes of a list that starts at `node` and ends in a null pointer.
unfoldable pub IsChain : Memory → ℕ → List ℕ → Type 0
IsChain m node [] = node ≡ 0
IsChain m node (x ∷ xs) = (node ≡ x) × (x ≢ 0) × IsChain m (load_u32 m x) xs

abbrev pub is_member : ℕ → List ℕ → Bool
is_member c [] = false
is_member c (x ∷ xs) = (x == c) || is_member c xs

either_zero : (b : Bool) → ◌≡◌ {A = ℕ} (if b then 0 else 0) 0
either_zero true = refl
either_zero false = refl

walk :
    (xs : List ℕ) (m : Memory) (candidate node fuel : ℕ)
    → IsChain m node xs
    → length xs < fuel
    → socket_check_from_first fuel m candidate node
      ≡ some (if is_member candidate xs then candidate else 0)
unfolding IsChain socket_check_from_first
walk xs m candidate node zero chain h = absurd (omega arith)
walk [] m candidate node (suc fuel) chain h = rw chain refl
walk (x ∷ xs) m candidate node (suc fuel) (e, live, chain) h =
    let rest = walk xs m candidate (load_u32 m x) fuel chain (omega arith) in
    let not_null : ((x == 0) ≡ false) = ground arith in
    elim (eq_cases x candidate) [
      | inl same ↦
          (let found : ((candidate == candidate) ≡ true) = ground arith in
            rw (e, not_null, same, found) refl)
      | inr other ↦
          (let differs : ((x == candidate) ≡ false) = ground arith in
            rw (e, not_null, differs) rest)
    ]

-- On a list of sockets behind the sentinel, a walk with more rounds than sockets ends; it gives the
-- candidate back when it is one of the sockets, and 0 when it is not or is null.
pub socket_check_outcome :
    (m : Memory) (candidate net_sockets fuel : ℕ) (xs : List ℕ)
    → IsChain m (load_u32 m net_sockets) xs
    → length xs < fuel
    → socket_check fuel m candidate net_sockets
      ≡ some (if is_member candidate xs then candidate else 0)
unfolding socket_check
socket_check_outcome m candidate net_sockets fuel xs chain h = elim (eq_cases candidate 0) [
  | inl e ↦ rw e (ap some (sym (either_zero (is_member 0 xs))))
  | inr e ↦
      (let given : ((candidate == 0) ≡ false) = ground arith in
        rw given (walk xs m candidate (load_u32 m net_sockets) fuel chain h))
]
