-- ===== src/XfsNode/Examples.antt =====
-- A node of two entries and two names, with the theorems there.
use kolibri_os_reloaded.Base.{ℕ, ◌+◌, ◌<◌, ◌≡◌, ◌≢◌, refl, arith, ◌==◌, if◌then◌else◌}
use kolibri_os_reloaded.Base.Memory.{Memory, IsBytes}
use kolibri_os_reloaded.Base.Scan.{first_hit}
use kolibri_os_reloaded.XfsHash.{load_be_u32}
use kolibri_os_reloaded.XfsNode.{
  xfs_get_before_by_hashval, xfs_get_before_by_hashval_ptr, xfs_hashname, hash_bytes, rotate_left_7,
  taken,
}
use kolibri_os_reloaded.XfsNode.Descend.{Descends, xfs_get_before_by_hashval_ptr_outcome}
use kolibri_os_reloaded.XfsNode.Hash.{xfs_hashname-differs}

-- Hashes 5 and 9 with the children 20 and 30, from address 64 on.
abbrev node : Memory
node a =
    if a == 67 then 5 else if a == 71 then 20 else if a == 75 then 9 else if a == 79 then 30 else 0

find_six : (xfs_get_before_by_hashval node 64 2 6).eax ≡ 30
unfolding xfs_get_before_by_hashval first_hit load_be_u32 taken
find_six = refl

xfs_get_before_by_hashval_ptr_outcome_example :
    Descends node 64 2 6 (xfs_get_before_by_hashval_ptr node 64 2 6)
xfs_get_before_by_hashval_ptr_outcome_example =
    xfs_get_before_by_hashval_ptr_outcome node 64 2 6 (omega arith)

-- The names "ab" and "ac" at address 16.
abbrev ab : Memory
ab a = if a == 16 then b'a' else if a == 17 then b'b' else 0

abbrev ac : Memory
ac a = if a == 16 then b'a' else if a == 17 then b'c' else 0

ab-IsBytes : IsBytes ab
ab-IsBytes a = ground arith

ac-IsBytes : IsBytes ac
ac-IsBytes a = ground arith

same_front : (i : ℕ) → i < 2 → i ≢ 1 → ab (16 + i) ≡ ac (16 + i)
same_front i small other = ground arith

hash_of_ab : xfs_hashname ab 16 2 ≡ 12514
unfolding xfs_hashname hash_bytes rotate_left_7
hash_of_ab = refl

xfs_hashname-differs_example : xfs_hashname ab 16 2 ≢ xfs_hashname ac 16 2
xfs_hashname-differs_example =
    xfs_hashname-differs ab ac 16 2 1 ab-IsBytes ac-IsBytes (omega arith) same_front (omega arith)
