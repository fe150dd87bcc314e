-- ===== src/FsTime/FileSystems.antt =====
-- The time stamps of NTFS, XFS and ext4 against seconds since 2001, time.rs. A 64-bit stamp is
-- its two u32 halves, as in EDX:EAX.
use kolibri_os_reloaded.Base.{
  ℕ, ◌+◌, ◌-◌, ◌*◌, ◌/◌, ◌%◌, ◌^◌, ◌<◌, ◌≡◌, arith, Option, some, ltb, leb, if◌then◌else◌, u32,
  sub_u32, min, ◌∙◌, ap, bit_and,
}
use kolibri_os_reloaded.Base.Fields.{bit_and_mask}
use kolibri_os_reloaded.FsTime.{BdfeTime, fs_calculate_time, fs_time2bdfe}
use kolibri_os_reloaded.FsTime.RoundTrip.{
  IsCalendarTime, fs_time2bdfe-fs_calculate_time, fs_calculate_time-lt,
}

abbrev ntfs_filetime_bias_lo : ℕ
ntfs_filetime_bias_lo = 3365781504

abbrev ntfs_filetime_bias_hi : ℕ
ntfs_filetime_bias_hi = 29389701

abbrev ntfs_filetime_per_sec : ℕ
ntfs_filetime_per_sec = 10_000_000

abbrev xfs_nanosec_per_sec : ℕ
xfs_nanosec_per_sec = 1_000_000_000

abbrev xfs_bigtime_to_kos_offset_ns_lo : ℕ
xfs_bigtime_to_kos_offset_ns_lo = 0x11350000

abbrev xfs_bigtime_to_kos_offset_ns_hi : ℕ
xfs_bigtime_to_kos_offset_ns_hi = 0x2B610A37

abbrev unixtime_to_kos_offset : ℕ
unixtime_to_kos_offset = 978_307_200

-- `((hi as u64) << 32) | (lo as u64)`.
abbrev pack_filetime : ℕ → ℕ → ℕ
pack_filetime lo hi = hi * 2 ^ 32 + lo

ntfs_filetime_to_secs : ℕ → ℕ → ℕ
ntfs_filetime_to_secs filetime_lo filetime_hi =
    let eax = sub_u32 filetime_lo ntfs_filetime_bias_lo in
    let borrow = if ltb filetime_lo ntfs_filetime_bias_lo then 1 else 0 in
    let edx = sub_u32 (sub_u32 filetime_hi ntfs_filetime_bias_hi) borrow in
    let edx' = if leb ntfs_filetime_per_sec edx then 0 else edx in
    u32 (pack_filetime eax edx' / ntfs_filetime_per_sec)

ntfs_datetime_to_bdfe : ℕ → ℕ → Option BdfeTime
ntfs_datetime_to_bdfe filetime_lo filetime_hi =
    fs_time2bdfe (ntfs_filetime_to_secs filetime_lo filetime_hi)

filetime_from_secs_2001 : ℕ → ℕ × ℕ
filetime_from_secs_2001 secs =
    let product = secs * ntfs_filetime_per_sec % 2 ^ 64 in
    let bias = pack_filetime ntfs_filetime_bias_lo ntfs_filetime_bias_hi in
    let ft = (product + bias) % 2 ^ 64 in (u32 ft, u32 (ft / 2 ^ 32))

ntfs_calculate_time : BdfeTime → ℕ × ℕ
ntfs_calculate_time t = filetime_from_secs_2001 (fs_calculate_time t)

xfs_bigtime_to_secs : ℕ → ℕ → ℕ
xfs_bigtime_to_secs bigtime_lo bigtime_hi =
    let offset = pack_filetime xfs_bigtime_to_kos_offset_ns_lo xfs_bigtime_to_kos_offset_ns_hi in
    let eax = sub_u32 bigtime_lo xfs_bigtime_to_kos_offset_ns_lo in
    let borrow = if ltb bigtime_lo xfs_bigtime_to_kos_offset_ns_lo then 1 else 0 in
    let edx = sub_u32 (sub_u32 bigtime_hi xfs_bigtime_to_kos_offset_ns_hi) borrow in
    if ltb (pack_filetime bigtime_lo bigtime_hi) offset
    then 0
    else if leb xfs_nanosec_per_sec edx
    then u32 (pack_filetime (2 ^ 32 - 1) (xfs_nanosec_per_sec - 1) / xfs_nanosec_per_sec)
    else u32 (pack_filetime eax edx / xfs_nanosec_per_sec)

xfs_conv_bigtime_to_kos_epoch : ℕ → ℕ → Option BdfeTime
xfs_conv_bigtime_to_kos_epoch bigtime_lo bigtime_hi =
    fs_time2bdfe (xfs_bigtime_to_secs bigtime_lo bigtime_hi)

bigtime_from_secs_2001 : ℕ → ℕ × ℕ
bigtime_from_secs_2001 secs =
    let offset = pack_filetime xfs_bigtime_to_kos_offset_ns_lo xfs_bigtime_to_kos_offset_ns_hi in
    let bt = (offset + secs * xfs_nanosec_per_sec % 2 ^ 64) % 2 ^ 64 in (u32 bt, u32 (bt / 2 ^ 32))

ext_unix_to_secs : ℕ → ℕ → ℕ
ext_unix_to_secs i_time extra =
    let epoch = bit_and extra 3 in
    let signed = if leb (2 ^ 31) i_time then sub_u32 epoch 1 else epoch in
    let eax = sub_u32 i_time unixtime_to_kos_offset in
    let borrow = if ltb i_time unixtime_to_kos_offset then 1 else 0 in
    let edx = sub_u32 signed borrow in
    if leb (2 ^ 31) edx then 0 else if ltb 0 edx then 2 ^ 32 - 1 else eax

ext_read_time : ℕ → ℕ → Option BdfeTime
ext_read_time i_time extra = fs_time2bdfe (ext_unix_to_secs i_time extra)

-- For every stamp, with the ticks counted from 2001 modulo 2^64: the seconds of those ticks if their
-- high half is below 10 000 000, and otherwise the seconds of their low half alone.
ntfs_filetime_to_secs_lem :
    (lo hi : ℕ)
    → lo < 2 ^ 32
    → hi < 2 ^ 32
    → let ticks =
        (pack_filetime lo hi + 2 ^ 64 - pack_filetime ntfs_filetime_bias_lo ntfs_filetime_bias_hi)
        % 2 ^ 64 in
      ntfs_filetime_to_secs lo hi
      ≡ (if ltb (ticks / 2 ^ 32) ntfs_filetime_per_sec then ticks else ticks % 2 ^ 32)
        / ntfs_filetime_per_sec
unfolding ntfs_filetime_to_secs
ntfs_filetime_to_secs_lem lo hi hl hh = ground arith

-- The seconds of the stamp that is made from a u32 number of seconds are that number.
ntfs_filetime_to_secs-filetime_from_secs_2001 :
    (secs : ℕ)
    → secs < 2 ^ 32
    → let (lo, hi) = filetime_from_secs_2001 secs in ntfs_filetime_to_secs lo hi ≡ secs
unfolding ntfs_filetime_to_secs filetime_from_secs_2001
ntfs_filetime_to_secs-filetime_from_secs_2001 secs h = ground arith

-- A calendar time from 2001 to 2136 survives being written as an NTFS stamp and read back.
ntfs_datetime_to_bdfe-ntfs_calculate_time :
    (t : BdfeTime)
    → IsCalendarTime t
    → t.year < 2137
    → let (lo, hi) = ntfs_calculate_time t in ntfs_datetime_to_bdfe lo hi ≡ some t
unfolding ntfs_datetime_to_bdfe ntfs_calculate_time
ntfs_datetime_to_bdfe-ntfs_calculate_time t c h =
    ap fs_time2bdfe
      (ntfs_filetime_to_secs-filetime_from_secs_2001 (fs_calculate_time t) (fs_calculate_time-lt t))
    ∙ fs_time2bdfe-fs_calculate_time t c h

-- For every big time: 0 before 2001, and then the whole seconds since 2001, or the greatest u32
-- where they do not fit.
xfs_bigtime_to_secs_lem :
    (lo hi : ℕ)
    → lo < 2 ^ 32
    → hi < 2 ^ 32
    → let offset = pack_filetime xfs_bigtime_to_kos_offset_ns_lo xfs_bigtime_to_kos_offset_ns_hi in
      xfs_bigtime_to_secs lo hi
      ≡ min ((pack_filetime lo hi - offset) / xfs_nanosec_per_sec) (2 ^ 32 - 1)
unfolding xfs_bigtime_to_secs
xfs_bigtime_to_secs_lem lo hi hl hh = ground arith

-- The seconds of the big time that is made from a u32 number of seconds are that number.
xfs_bigtime_to_secs-bigtime_from_secs_2001 :
    (secs : ℕ)
    → secs < 2 ^ 32
    → let (lo, hi) = bigtime_from_secs_2001 secs in xfs_bigtime_to_secs lo hi ≡ secs
unfolding xfs_bigtime_to_secs bigtime_from_secs_2001
xfs_bigtime_to_secs-bigtime_from_secs_2001 secs h = ground arith

-- An ext4 time stamp is the signed 32-bit `i_time` plus 2^32 for each of the epochs in the two low
-- bits of `extra`. Here it is moved up by 2^31, so that it is a natural number.
abbrev ext_time : ℕ → ℕ → ℕ
ext_time i_time extra = extra % 4 * 2 ^ 32 + (i_time + 2 ^ 31) % 2 ^ 32

-- For every ext4 stamp: 0 before 2001, and then the seconds since 2001, or the greatest u32 where
-- they do not fit.
ext_unix_to_secs_lem :
    (i_time extra : ℕ)
    → i_time < 2 ^ 32
    → ext_unix_to_secs i_time extra
      ≡ min (ext_time i_time extra - (2 ^ 31 + unixtime_to_kos_offset)) (2 ^ 32 - 1)
unfolding ext_unix_to_secs
ext_unix_to_secs_lem i_time extra h = ground (arith, bit_and_mask 2 extra)
