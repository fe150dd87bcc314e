-- ===== src/DiskBlocks/Fat.antt =====
-- `fat_get_sector`: the sectors of a cluster.
use kolibri_os_reloaded.Base.{ℕ, suc, ◌+◌, ◌-◌, ◌*◌, ◌^◌, ◌≤◌, ◌<◌, ◌≡◌, arith, sub_u32}
use native.Mathlib.Decide.{dec_lt}
use native.Mathlib.Nat.{mul-le-mul_right}
use kolibri_os_reloaded.DiskBlocks.{fat_get_sector}

-- A sector of the data area is found again as its cluster and its offset there: clusters count from
-- 2, and the data area ends below sector 2^32.
fat_get_sector_lem :
    (cluster sector_ofs sectors_per_cluster data_start : ℕ)
    → 2 ≤ cluster
    → cluster < 2 ^ 32
    → (cluster - 2) * sectors_per_cluster + data_start + sector_ofs < 2 ^ 32
    → fat_get_sector cluster sector_ofs sectors_per_cluster data_start
      ≡ data_start + ((cluster - 2) * sectors_per_cluster + sector_ofs)
unfolding fat_get_sector
fat_get_sector_lem cluster sector_ofs sectors_per_cluster data_start valid small fits =
    let before : sub_u32 cluster 2 ≡ cluster - 2 = omega arith in rw before (omega arith)

clusters_apart : (a b n ofs : ℕ) → a < b → ofs < n → a * n + ofs < b * n
clusters_apart a b n ofs less small =
    let above : suc a ≤ b = omega arith in
    let next = mul-le-mul_right n above in
    let opened : suc a * n ≡ a * n + n = grind arith in omega arith

-- Two sectors of the data area are the same only when their clusters and their offsets are.
fat_get_sector_inj :
    (cluster cluster' ofs ofs' sectors_per_cluster data_start : ℕ)
    → 2 ≤ cluster
    → 2 ≤ cluster'
    → cluster < 2 ^ 32
    → cluster' < 2 ^ 32
    → ofs < sectors_per_cluster
    → ofs' < sectors_per_cluster
    → (cluster - 2) * sectors_per_cluster + data_start + ofs < 2 ^ 32
    → (cluster' - 2) * sectors_per_cluster + data_start + ofs' < 2 ^ 32
    → fat_get_sector cluster ofs sectors_per_cluster data_start
      ≡ fat_get_sector cluster' ofs' sectors_per_cluster data_start
    → (cluster ≡ cluster') × (ofs ≡ ofs')
fat_get_sector_inj cluster cluster' ofs ofs' spc start v v' s s' o o' f f' same =
    let e = fat_get_sector_lem cluster ofs spc start v s f in
    let e' = fat_get_sector_lem cluster' ofs' spc start v' s' f' in
    let sums : (cluster - 2) * spc + ofs ≡ (cluster' - 2) * spc + ofs' = omega arith in
    elim (dec_lt (cluster - 2) (cluster' - 2)) [
      | yes p ↦ absurd (omega (arith, clusters_apart (cluster - 2) (cluster' - 2) spc ofs p o))
      | no p ↦ elim (dec_lt (cluster' - 2) (cluster - 2)) [
        | yes q ↦ absurd (omega (arith, clusters_apart (cluster' - 2) (cluster - 2) spc ofs' q o'))
        | no q ↦
            (let one : cluster ≡ cluster' = omega arith in
              (one, (let both = rw one at sums in omega arith)))
      ]
    ]
