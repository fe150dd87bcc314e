-- ===== src/XfsNode.antt =====
-- The name hash of XFS and the search in an inner node of its directory tree, in
-- rust_kernel/kolibri_utils/src: xfs_hashname.rs and xfs_node_hash.rs. Pointers are addresses in the
-- byte memory, 0 the null pointer.
pub mod Hash
pub mod Descend
mod Examples
use kolibri_os_reloaded.Base.{
  ℕ, zero, suc, ◌+◌, ◌-◌, ◌*◌, ◌/◌, ◌^◌, ◌%◌, bit_or, bit_xor, Option, none, some, ltb, leb, ◌==◌,
  if◌then◌else◌, u32, ◌<<<◌, ◌>>>◌,
}
use kolibri_os_reloaded.Base.Memory.{Memory}
use kolibri_os_reloaded.Base.Scan.{first_hit}
use kolibri_os_reloaded.XfsHash.{XfsHashLookupResult, load_be_u32, miss}

abbrev xfs_da_node_entry_size : ℕ
xfs_da_node_entry_size = 8

abbrev off_v4_btree : ℕ
off_v4_btree = 16

abbrev off_v5_btree : ℕ
off_v5_btree = 64

abbrev base_to_btree_delta : ℕ
base_to_btree_delta = 8

abbrev off_node_hashval : ℕ
off_node_hashval = 0

abbrev off_node_before : ℕ
off_node_before = 4

unfoldable btree_off : ℕ → ℕ
btree_off version = if version == 5 then off_v5_btree else off_v4_btree

-- The hit that ends the loop, or the result of a loop that has none.
unfoldable pub taken : Memory → Option ℕ → XfsHashLookupResult
unfolding miss
taken m none = miss
taken m (some entry) = record { eax = load_be_u32 m (entry + off_node_before); zf = 1 }

unfoldable pub xfs_get_before_by_hashval : Memory → ℕ → ℕ → ℕ → XfsHashLookupResult
unfolding taken
xfs_get_before_by_hashval m entries count hash = taken m (
    first_hit (λ entry. leb hash (load_be_u32 m (entry + off_node_hashval))) xfs_da_node_entry_size
      count entries)

unfoldable pub xfs_get_before_by_hashval_ptr : Memory → ℕ → ℕ → ℕ → XfsHashLookupResult
xfs_get_before_by_hashval_ptr m entries count hash =
    if count == 0
    then miss
    else if entries == 0
    then miss
    else xfs_get_before_by_hashval m entries count hash

unfoldable entries_from_node : ℕ → ℕ → ℕ
unfolding btree_off
entries_from_node node version = u32 (node + btree_off version)

unfoldable entries_from_base : ℕ → ℕ
entries_from_base base = u32 (base + 2 ^ 32 - base_to_btree_delta)

-- `rotate_left(7)` on a u32.
unfoldable pub rotate_left_7 : ℕ → ℕ
rotate_left_7 eax = bit_or (u32 (eax <<< 7)) (eax >>> 25)

-- The loop, with the bytes that are left as its first argument.
unfoldable pub hash_bytes : ℕ → Memory → ℕ → ℕ → ℕ
hash_bytes zero m name eax = eax
hash_bytes (suc left) m name eax =
    hash_bytes left m (name + 1) (bit_xor (rotate_left_7 eax) (m name))

unfoldable pub xfs_hashname : Memory → ℕ → ℕ → ℕ
xfs_hashname m name len = if len == 0 then 0 else hash_bytes len m name 0

unfoldable xfs_hashname_ptr : Memory → ℕ → ℕ → ℕ
xfs_hashname_ptr m name len = xfs_hashname m name len
