-- ===== src/XfsHash/Examples.antt =====
-- Runs of the hash lookup on a table of three entries, with the theorems there.
use kolibri_os_reloaded.Base.{ℕ, zero, suc, ◌≡◌, refl, arith, ◌==◌, if◌then◌else◌, some, ◌<◌}
use kolibri_os_reloaded.Base.Memory.{Memory}
use kolibri_os_reloaded.XfsHash.{load_be_u32, search, miss, xfs_get_addr_by_hash}
use kolibri_os_reloaded.XfsHash.Search.{hash_at, IsSorted, Outcome, xfs_get_addr_by_hash-Outcome}

-- Hashes 3, 5 and 9 with addresses 10, 20 and 30, from address 64 on.
abbrev table : Memory
table a =
    if a == 67
    then 3
    else if a == 71
    then 10
    else if a == 75
    then 5
    else if a == 79
    then 20
    else if a == 83
    then 9
    else if a == 87
    then 30
    else 0

table_hash : (i : ℕ) → i < 3 → hash_at table 64 i ≡ (if i == 0 then 3 else if i == 1 then 5 else 9)
unfolding load_be_u32
table_hash zero h = refl
table_hash (suc zero) h = refl
table_hash (suc (suc zero)) h = refl
table_hash (suc (suc (suc i))) h = absurd (omega arith)

table-IsSorted : IsSorted table 64 3
table-IsSorted i j le less = rw (table_hash i (omega arith), table_hash j less) (ground arith)

find_nine : xfs_get_addr_by_hash 9 table 64 3 ≡ some (record { eax = 30; zf = 1 })
unfolding xfs_get_addr_by_hash search load_be_u32
find_nine = refl

find_four : xfs_get_addr_by_hash 4 table 64 3 ≡ some (record { eax = 5; zf = 0 })
unfolding xfs_get_addr_by_hash search load_be_u32 miss
find_four = refl

xfs_get_addr_by_hash-Outcome_example : Outcome 9 table 64 3 (xfs_get_addr_by_hash 9 table 64 3)
xfs_get_addr_by_hash-Outcome_example =
    xfs_get_addr_by_hash-Outcome 9 table 64 3 (omega arith) table-IsSorted
