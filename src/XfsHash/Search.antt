-- ===== src/XfsHash/Search.antt =====
-- What the hash lookup returns: an address of an entry with the hash, and a miss only if a sorted
-- table has none.
use kolibri_os_reloaded.Base.{
  ℕ, zero, suc, ◌+◌, ◌-◌, ◌*◌, ◌/◌, ◌^◌, ◌≤◌, ◌<◌, ◌≡◌, ◌≢◌, ◌⊎◌, inl, inr, refl, sym, arith,
  Option, if◌then◌else◌, some, ◌==◌,
}
use native.Mathlib.Decide.{dec_lt}
use kolibri_os_reloaded.Base.Fields.{bit_or_fields}
use kolibri_os_reloaded.Base.Memory.{Memory}
use kolibri_os_reloaded.XfsHash.{
  XfsHashLookupResult, load_be_u32, miss, search, xfs_get_addr_by_hash, pack_eax_zf, unpack_eax_zf,
  xfs_get_addr_by_hash_ptr,
}

-- Four bytes, the highest first.
abbrev big_endian : Memory → ℕ → ℕ
big_endian m p = 2 ^ 24 * m p + 2 ^ 16 * m (p + 1) + 2 ^ 8 * m (p + 2) + m (p + 3)

-- The hash and the address of entry `i` of a table.
abbrev pub hash_at : Memory → ℕ → ℕ → ℕ
hash_at m base i = big_endian m (base + i * 8)

abbrev address_at : Memory → ℕ → ℕ → ℕ
address_at m base i = big_endian m (base + i * 8 + 4)

load_be_u32-big_endian : (m : Memory) (p : ℕ) → load_be_u32 m p ≡ big_endian m p
unfolding load_be_u32
load_be_u32-big_endian m p = omega arith

abbrev pub IsSorted : Memory → ℕ → ℕ → Type 0
IsSorted m base len = (i j : ℕ) → i ≤ j → j < len → hash_at m base i ≤ hash_at m base j

abbrev IsHit : ℕ → Memory → ℕ → ℕ → XfsHashLookupResult → Type 0
IsHit hash m base len r =
    (i : ℕ) × (i < len) × (hash_at m base i ≡ hash) × (r.eax ≡ address_at m base i) × (r.zf ≡ 1)

abbrev IsMiss : ℕ → Memory → ℕ → ℕ → XfsHashLookupResult → Type 0
IsMiss hash m base len r = (r.eax ≡ 5) × (r.zf ≡ 0) × ((i : ℕ) → i < len → hash_at m base i ≢ hash)

-- The error code of the source for a missing file is 5, and the source clears ZF with it.
no_entry-IsMiss :
    (hash : ℕ) (m : Memory) (base len : ℕ)
    → ((i : ℕ) → i < len → hash_at m base i ≢ hash)
    → IsMiss hash m base len miss
unfolding miss
no_entry-IsMiss hash m base len none_there = (refl, refl, none_there)

abbrev pub Outcome : ℕ → Memory → ℕ → ℕ → Option XfsHashLookupResult → Type 0
Outcome hash m base len o =
    (r : XfsHashLookupResult) × (o ≡ some r) × (IsHit hash m base len r ⊎ IsMiss hash m base len r)

-- The entries above the middle one, as a table of their own.
entry_above : (base mid i : ℕ) → base + mid * 8 + 8 + i * 8 ≡ base + (mid + 1 + i) * 8
entry_above base mid i = omega arith

-- One round of the search: on an empty table, at an entry above the hash, below it, and at it.
module _ (k hash : ℕ) (m : Memory) (base len : ℕ) where
  search_empty : len ≡ 0 → search (suc k) hash m base len ≡ some miss
  unfolding search
  search_empty h = ground arith

  search_below :
      len ≢ 0
      → hash < hash_at m base (len / 2)
      → search (suc k) hash m base len ≡ search k hash m base (len / 2)
  unfolding search
  search_below h lt = ground (arith, load_be_u32-big_endian m (base + len / 2 * 8))

  search_above :
      len ≢ 0
      → hash_at m base (len / 2) < hash
      → search (suc k) hash m base len
        ≡ search k hash m (base + len / 2 * 8 + 8) (len - len / 2 - 1)
  unfolding search
  search_above h lt = ground (arith, load_be_u32-big_endian m (base + len / 2 * 8))

  search_equal :
      len ≢ 0
      → hash_at m base (len / 2) ≡ hash
      → search (suc k) hash m base len ≡ some (record { eax = address_at m base (len / 2); zf = 1 })
  unfolding search
  search_equal h e = ground (
    arith,
    load_be_u32-big_endian m (base + len / 2 * 8),
    load_be_u32-big_endian m (base + len / 2 * 8 + 4),
  )

-- The outcome in the lower half is that of the table, if the middle entry is above the hash.
below-Outcome :
    (hash : ℕ) (m : Memory) (base mid len : ℕ) (o : Option XfsHashLookupResult)
    → mid < len
    → IsSorted m base len
    → hash < hash_at m base mid
    → Outcome hash m base mid o
    → Outcome hash m base len o
below-Outcome hash m base mid len o h sorted lt (r, e, inl (i, less, is, eax, zf)) =
    (r, e, inl (i, omega arith, is, eax, zf))
below-Outcome hash m base mid len o h sorted lt (r, e, inr (eax, zf, none_there)) = (
  r,
  e,
  inr (
    eax,
    zf,
    λ i less same. elim (dec_lt i mid) [
      | yes low ↦ none_there i low same
      | no high ↦ absurd (omega (arith, sorted mid i (omega arith) less))
    ],
  ),
)

above-IsSorted :
    (m : Memory) (base mid len : ℕ)
    → mid < len
    → IsSorted m base len
    → IsSorted m (base + mid * 8 + 8) (len - mid - 1)
above-IsSorted m base mid len h sorted i j le less =
    rw (entry_above base mid i, entry_above base mid j)
      (sorted (mid + 1 + i) (mid + 1 + j) (omega arith) (omega arith))

above-Outcome :
    (hash : ℕ) (m : Memory) (base mid len : ℕ) (o : Option XfsHashLookupResult)
    → mid < len
    → IsSorted m base len
    → hash_at m base mid < hash
    → Outcome hash m (base + mid * 8 + 8) (len - mid - 1) o
    → Outcome hash m base len o
above-Outcome hash m base mid len o h sorted lt (r, e, inl (i, less, is, eax, zf)) = (
  r,
  e,
  inl (
    mid + 1 + i,
    omega arith,
    rw (sym (entry_above base mid i)) is,
    rw (sym (entry_above base mid i)) eax,
    zf,
  ),
)
above-Outcome hash m base mid len o h sorted lt (r, e, inr (eax, zf, none_there)) = (
  r,
  e,
  inr (
    eax,
    zf,
    λ i less same. elim (dec_lt mid i) [
      | yes high ↦
          (let there : base + mid * 8 + 8 + (i - mid - 1) * 8 ≡ base + i * 8 = omega arith in
            none_there (i - mid - 1) (omega arith) (rw there same))
      | no low ↦ absurd (omega (arith, sorted i mid (omega arith) h))
    ],
  ),
)

search-Outcome :
    (k hash : ℕ) (m : Memory) (base len : ℕ)
    → len < 2 ^ k
    → IsSorted m base len
    → Outcome hash m base len (search (suc k) hash m base len)
search-Outcome zero hash m base len h sorted = (
  miss,
  search_empty zero hash m base len (omega arith),
  inr (no_entry-IsMiss hash m base len (λ i less. absurd (omega arith))),
)
search-Outcome (suc k) hash m base len h sorted = elim (dec_lt 0 len) [
  | no empty ↦ (
    miss,
    search_empty (suc k) hash m base len (omega arith),
    inr (no_entry-IsMiss hash m base len (λ i less. absurd (omega arith))),
  )
  | yes some_left ↦
      let half : len / 2 < 2 ^ k = omega arith in
      elim (dec_lt hash (hash_at m base (len / 2))) [
        | yes low ↦ rw (search_below (suc k) hash m base len (omega arith) low) (
            below-Outcome hash m base (len / 2) len _ (omega arith) sorted low (
              search-Outcome k hash m base (len / 2) half
                (λ i j le less. sorted i j le (omega arith))))
        | no not_low ↦ elim (dec_lt (hash_at m base (len / 2)) hash) [
          | yes high ↦ rw (search_above (suc k) hash m base len (omega arith) high) (
              above-Outcome hash m base (len / 2) len _ (omega arith) sorted high (
                search-Outcome k hash m _ (len - len / 2 - 1) (omega arith)
                  (above-IsSorted m base (len / 2) len (omega arith) sorted)))
          | no not_high ↦ (
            record { eax = address_at m base (len / 2); zf = 1 },
            search_equal (suc k) hash m base len (omega arith) (omega arith),
            inl (len / 2, omega arith, omega arith, refl, refl),
          )
        ]
      ]
]

-- On a table of fewer than 2^32 entries sorted by hash the lookup ends, and either returns the
-- address of an entry with the hash, with ZF set, or the error code 5 of a missing file, with ZF
-- clear, and then no entry has the hash. Hash and address are read with the highest byte first.
pub xfs_get_addr_by_hash-Outcome :
    (hash : ℕ) (m : Memory) (base len : ℕ)
    → len < 2 ^ 32
    → IsSorted m base len
    → Outcome hash m base len (xfs_get_addr_by_hash hash m base len)
unfolding xfs_get_addr_by_hash
xfs_get_addr_by_hash-Outcome hash m base len h sorted = search-Outcome 32 hash m base len h sorted

-- On a table that is not null the pointer form returns what the lookup returns, and a null table
-- is a miss.
xfs_get_addr_by_hash_ptr_lem :
    (hash : ℕ) (m : Memory) (base len : ℕ)
    → xfs_get_addr_by_hash_ptr hash m base len
      ≡ (if base == 0 then some miss else xfs_get_addr_by_hash hash m base len)
unfolding xfs_get_addr_by_hash_ptr xfs_get_addr_by_hash
xfs_get_addr_by_hash_ptr_lem hash m base len = elim (dec_lt 0 len) [
  | yes some_left ↦ ground arith
  | no empty ↦ ground (arith, search_empty 32 hash m base len)
]

-- Any pair of 32-bit EAX and ZF comes back from the 64-bit return value.
unpack_eax_zf-pack_eax_zf :
    (eax zf : ℕ) → eax < 2 ^ 32 → zf < 2 ^ 32 → unpack_eax_zf (pack_eax_zf eax zf) ≡ (eax, zf)
unfolding pack_eax_zf unpack_eax_zf
unpack_eax_zf-pack_eax_zf eax zf h k =
    let packed = bit_or_fields 32 zf eax h in ground (arith, packed)
