-- ===== src/XfsNode/Descend.antt =====
-- `xfs_get_before_by_hashval`: the search for the child that may hold a hash.
use kolibri_os_reloaded.Base.{
  ℕ, ◌+◌, ◌*◌, ◌≤◌, ◌<◌, ◌≡◌, ◌⊎◌, inl, inr, refl, arith, false, leb, ◌==◌, eq_cases,
}
use kolibri_os_reloaded.Base.Memory.{Memory}
use kolibri_os_reloaded.Base.Scan.{NoHit, first_hit_outcome}
use kolibri_os_reloaded.XfsHash.{XfsHashLookupResult, load_be_u32}
use kolibri_os_reloaded.XfsNode.{xfs_get_before_by_hashval, xfs_get_before_by_hashval_ptr}

-- The hash and the child block of the entry `i`.
unfoldable pub entry_hash : Memory → ℕ → ℕ → ℕ
entry_hash m entries i = load_be_u32 m (entries + 8 * i)

unfoldable pub entry_before : Memory → ℕ → ℕ → ℕ
entry_before m entries i = load_be_u32 m (entries + 8 * i + 4)

-- What a search may return.
abbrev pub Descends : Memory → ℕ → ℕ → ℕ → XfsHashLookupResult → Type 0
Descends m entries count hash result =
    ((result ≡ record { eax = 5; zf = 0 }) × ((i : ℕ) → i < count → entry_hash m entries i < hash))
    ⊎ ((k : ℕ) × (k < count)
        × (result ≡ record { eax = entry_before m entries k; zf = 1 })
        × (hash ≤ entry_hash m entries k)
        × ((i : ℕ) → i < k → entry_hash m entries i < hash))

-- The search in the entries of a table that is not null returns the child of the first entry whose
-- hash is not below the hash sought, with ZF set, or the error code for a missing file, with ZF
-- clear, and then all hashes are below it.
pub xfs_get_before_by_hashval_ptr_outcome :
    (m : Memory) (entries count hash : ℕ)
    → 0 < entries
    → Descends m entries count hash (xfs_get_before_by_hashval_ptr m entries count hash)
unfolding xfs_get_before_by_hashval_ptr xfs_get_before_by_hashval entry_hash entry_before NoHit
xfs_get_before_by_hashval_ptr_outcome m entries count hash valid =
    let given : ((entries == 0) ≡ false) = ground arith in
    let below : (e : ℕ) → leb hash (load_be_u32 m (e + 0)) ≡ false → load_be_u32 m e < hash =
      λ e h. (let here : e + 0 ≡ e = omega arith in ground (arith, rw here at h)) in
    elim (eq_cases count 0) [
      | inl e ↦ rw e (inl (refl, λ i less. absurd (omega arith)))
      | inr e ↦
          (let some_left : ((count == 0) ≡ false) = ground arith in
            elim (first_hit_outcome (λ entry. leb hash (load_be_u32 m (entry + 0))) 8 count
              entries) [
                | inl (missed, all) ↦
                    rw (some_left, given, missed)
                      (inl (refl, λ i less. below (entries + 8 * i) (all i less)))
                | inr (k, found, less, here, before) ↦
                    rw (some_left, given, found)
                      (inr (
                        k,
                        less,
                        refl,
                        (let there : entries + 8 * k + 0 ≡ entries + 8 * k = omega arith in
                            ground (arith, rw there at here)),
                        λ i small. below (entries + 8 * i) (before i small),
                      ))
              ])
    ]
