-- ===== src/NtfsUsa/Examples.antt =====
-- A record of two sectors, good and with its second sector torn, and the theorems there.
use kolibri_os_reloaded.Base.{◌≡◌, refl, arith, ◌==◌, if◌then◌else◌, false, ◌+◌}
use kolibri_os_reloaded.Base.Memory.{Memory, IsBytes, load_u16, store_u16}
use kolibri_os_reloaded.NtfsUsa.{ntfs_restore_usa, restore_sectors}
use kolibri_os_reloaded.NtfsUsa.Restore.{Restored, ntfs_restore_usa-Restored}

-- Sequence number 7; the words 11 and 13 belong at the ends of the sectors.
abbrev protected : Memory
protected a =
    if a == 4
    then 48
    else if a == 6
    then 3
    else if a == 48
    then 7
    else if a == 50
    then 11
    else if a == 52
    then 13
    else if a == 510
    then 7
    else if a == 1022
    then 7
    else 0

protected-IsBytes : IsBytes protected
protected-IsBytes a = ground arith

abbrev torn : Memory
torn a = if a == 1022 then 6 else protected a

second_word : load_u16 (ntfs_restore_usa protected 1024).0 1022 ≡ 13
unfolding ntfs_restore_usa restore_sectors load_u16 store_u16
second_word = refl

torn_is_bad : (ntfs_restore_usa torn 1024).1 ≡ false
unfolding ntfs_restore_usa restore_sectors load_u16 store_u16
torn_is_bad = refl

ntfs_restore_usa-Restored_example :
    Restored protected
      (load_u16 protected (load_u16 protected 4))
      (load_u16 protected 4 + 2)
      0
      2
      (ntfs_restore_usa protected 1024).0
      (ntfs_restore_usa protected 1024).1
unfolding load_u16
ntfs_restore_usa-Restored_example =
    ntfs_restore_usa-Restored protected 1024 protected-IsBytes (omega arith) refl (omega arith)
