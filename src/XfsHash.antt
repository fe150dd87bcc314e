-- ===== src/XfsHash.antt =====
-- The hash lookup in an XFS directory leaf, rust_kernel/kolibri_utils/src/xfs_hash_lookup.rs: a
-- binary search over 8-byte entries (hash, then address, both big-endian). Pointers are addresses
-- in the byte memory, 0 the null pointer. The search takes fuel; `none` means that it ran out, and
-- 33 rounds are enough for every u32 length, since each round at least halves what remains.
pub mod Search
mod Examples
use kolibri_os_reloaded.Base.{
  ℕ, zero, suc, ◌+◌, ◌-◌, ◌*◌, ◌/◌, ◌%◌, ◌^◌, bit_or, Option, none, some, ltb, ◌==◌, if◌then◌else◌,
  u32, ◌<<<◌, ◌>>>◌, Bool,
}
use kolibri_os_reloaded.Base.Memory.{Memory}

abbrev xfs_dir2_leaf_entry_size : ℕ
xfs_dir2_leaf_entry_size = 8

abbrev error_file_not_found : ℕ
error_file_not_found = 5

abbrev off_hashval : ℕ
off_hashval = 0

abbrev off_address : ℕ
off_address = 4

pub record XfsHashLookupResult : Type 0 where
  pub eax : ℕ
  pub zf : ℕ

unfoldable pub pack_eax_zf : ℕ → ℕ → ℕ
pack_eax_zf eax zf = bit_or (zf <<< 32) eax

unfoldable pub unpack_eax_zf : ℕ → ℕ × ℕ
unpack_eax_zf packed = (u32 packed, u32 (packed >>> 32))

unfoldable trampoline_zf_from_flag : ℕ → Bool
trampoline_zf_from_flag zf = zf == 1

unfoldable pub load_be_u32 : Memory → ℕ → ℕ
load_be_u32 m p = 16777216 * m p + 65536 * m (p + 1) + 256 * m (p + 2) + m (p + 3)

unfoldable pub miss : XfsHashLookupResult
miss = record { eax = error_file_not_found; zf = 0 }

unfoldable pub search : ℕ → ℕ → Memory → ℕ → ℕ → Option XfsHashLookupResult
search zero hash m cur remaining = none
search (suc fuel) hash m cur remaining =
    let mid = remaining >>> 1 in
    let entry = cur + mid * xfs_dir2_leaf_entry_size in
    let entry_hash = load_be_u32 m (entry + off_hashval) in
    let below = search fuel hash m cur mid in
    let above = search fuel hash m (entry + xfs_dir2_leaf_entry_size) (remaining - mid - 1) in
    if remaining == 0
    then some miss
    else if ltb hash entry_hash
    then below
    else if ltb entry_hash hash
    then above
    else some (record { eax = load_be_u32 m (entry + off_address); zf = 1 })

unfoldable pub xfs_get_addr_by_hash : ℕ → Memory → ℕ → ℕ → Option XfsHashLookupResult
xfs_get_addr_by_hash hash m base len = search 33 hash m base len

unfoldable pub xfs_get_addr_by_hash_ptr : ℕ → Memory → ℕ → ℕ → Option XfsHashLookupResult
xfs_get_addr_by_hash_ptr hash m base len =
    if len == 0
    then some miss
    else if base == 0
    then some miss
    else xfs_get_addr_by_hash hash m base len
