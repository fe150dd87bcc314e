-- ===== src/NtfsUsa/Restore.antt =====
-- What restoring a record does to its bytes, for good and for bad records.
use kolibri_os_reloaded.Base.{
  ℕ, zero, suc, ◌+◌, ◌*◌, ◌/◌, ◌%◌, ◌^◌, ◌≤◌, ◌<◌, ◌≡◌, ◌≢◌, ◌⊎◌, inl, inr, refl, sym, arith, ◌∙◌,
  ◌==◌, Bool, true, false, u16, u32, eq_cases,
}
use native.Mathlib.Decide.{dec_lt}
use kolibri_os_reloaded.Base.Memory.{
  Memory, IsBytes, load_u16, store_u16, store_u16_frame, store_u16-IsBytes, load_u16-lt,
  load_u16-store_u16,
}
use kolibri_os_reloaded.NtfsUsa.{restore_sectors, ntfs_restore_usa, ntfs_restore_usa_ptr}

-- The last word of sector `i`.
abbrev last_word : Memory → ℕ → ℕ
last_word m i = load_u16 m (510 + 512 * i)

-- The result of restoring the sectors from `s` to before `top`, with the saved word of sector `i` at
-- `u + 2 * i`: the sectors before `stop` are restored, and `stop` is the first bad one or `top`.
pub record Restored (m : Memory) (usn u s top : ℕ) (m' : Memory) (ok : Bool) : Type 0 where
  pub stop : ℕ
  pub from_start : s ≤ stop
  pub to_top : stop ≤ top
  pub good : (i : ℕ) → s ≤ i → i < stop → last_word m i ≡ usn
  pub put_back : (i : ℕ) → s ≤ i → i < stop → last_word m' i ≡ load_u16 m (u + 2 * i)
  pub kept : (a : ℕ) → (a % 512 < 510) ⊎ ((a < 512 * s) ⊎ (512 * stop ≤ a)) → m' a ≡ m a
  pub verdict :
      ((stop ≡ top) × (ok ≡ true)) ⊎ ((stop < top) × (last_word m stop ≢ usn) × (ok ≡ false))

load_u16_same :
    (m m' : Memory) (a : ℕ) → m a ≡ m' a → m (a + 1) ≡ m' (a + 1) → load_u16 m a ≡ load_u16 m' a
unfolding load_u16
load_u16_same m m' a h k = omega (arith, h, k)

module _ (r : ℕ) (m : Memory) (usn usa end_word : ℕ) where
  restore_good :
      load_u16 m end_word ≡ usn
      → restore_sectors (suc r) m usn usa end_word
        ≡ restore_sectors r (store_u16 m end_word (load_u16 m usa)) usn (usa + 2) (end_word + 512)
  unfolding restore_sectors
  restore_good h = let test : (load_u16 m end_word == usn) ≡ true = ground arith in rw test refl

  restore_bad : load_u16 m end_word ≢ usn → restore_sectors (suc r) m usn usa end_word ≡ (m, false)
  unfolding restore_sectors
  restore_bad h = let test : (load_u16 m end_word == usn) ≡ false = ground arith in rw test refl

-- A store to the last word of sector `s` leaves other words alone.
word_kept :
    (m : Memory) (s v a : ℕ)
    → (a + 2 ≤ 510 + 512 * s) ⊎ (512 * s + 512 ≤ a)
    → load_u16 (store_u16 m (510 + 512 * s) v) a ≡ load_u16 m a
word_kept m s v a out =
    load_u16_same (store_u16 m (510 + 512 * s) v) m a
      (store_u16_frame m (510 + 512 * s) v a (ground arith))
      (store_u16_frame m (510 + 512 * s) v (a + 1) (ground arith))

after_good :
    (m m' : Memory) (usn u s top : ℕ) (ok : Bool)
    → IsBytes m
    → u + 2 * top ≤ 510
    → s < top
    → last_word m s ≡ usn
    → Restored (store_u16 m (510 + 512 * s) (load_u16 m (u + 2 * s))) usn u (suc s) top m' ok
    → Restored m usn u s top m' ok
after_good m m' usn u s top ok bytes fits inside is r = record {
  stop = r.stop;
  from_start = omega (arith, r.from_start);
  to_top = r.to_top;
  good = λ i ge lt. elim (dec_lt s i) [
    | yes later ↦ sym (word_kept m s _ (510 + 512 * i) (inr (omega arith))) ∙ r.good i later lt
    | no first ↦ (let same : i ≡ s = omega arith in rw same is)
  ];
  put_back = λ i ge lt. elim (dec_lt s i) [
    | yes later ↦
        r.put_back i later lt ∙ word_kept m s _ (u + 2 * i) (inl (omega (arith, r.to_top)))
    | no first ↦
        (let same : i ≡ s = omega arith in
          rw same (word_stored ∙ load_u16-store_u16 m (510 + 512 * s) _ (load_u16-lt m _ bytes)))
  ];
  kept = λ a out.
      r.kept a (ground (arith, out))
      ∙ store_u16_frame m (510 + 512 * s) _ a (ground (arith, out, r.from_start));
  verdict = elim r.verdict [
    | inl done ↦ inl done
    | inr (less, bad, e) ↦ inr (
      less,
      λ h. bad (word_kept m s _ (510 + 512 * r.stop) (inr (omega (arith, r.from_start))) ∙ h),
      e,
    )
  ];
}
  where
    word_stored :
        last_word m' s
        ≡ load_u16 (store_u16 m (510 + 512 * s) (load_u16 m (u + 2 * s))) (510 + 512 * s)
    word_stored =
        load_u16_same m' _ (510 + 512 * s) (r.kept (510 + 512 * s) (inr (inl (omega arith))))
          (r.kept (510 + 512 * s + 1) (inr (inl (omega arith))))

restore_sectors-Restored :
    (r : ℕ) (m : Memory) (usn u s : ℕ)
    → IsBytes m
    → u + 2 * (s + r) ≤ 510
    → Restored m usn u s
        (s + r)
        (restore_sectors r m usn (u + 2 * s) (510 + 512 * s)).0
        (restore_sectors r m usn (u + 2 * s) (510 + 512 * s)).1
unfolding restore_sectors
restore_sectors-Restored zero m usn u s bytes fits = record {
  stop = s;
  from_start = omega arith;
  to_top = omega arith;
  good = λ i ge lt. absurd (omega arith);
  put_back = λ i ge lt. absurd (omega arith);
  kept = λ a out. refl;
  verdict = inl (omega arith, refl);
}
restore_sectors-Restored (suc r) m usn u s bytes fits = elim (eq_cases (last_word m s) usn) [
  | inl is ↦
      (let m1 : Memory = store_u16 m (510 + 512 * s) (load_u16 m (u + 2 * s)) in
        let saved : u + 2 * s + 2 ≡ u + 2 * suc s = omega arith in
        let place : 510 + 512 * s + 512 ≡ 510 + 512 * suc s = omega arith in
        let top : suc s + r ≡ s + suc r = omega arith in
        let rest =
          restore_sectors-Restored r m1 usn u (suc s) (store_u16-IsBytes m _ _ bytes)
            (omega arith) in
        rw (restore_good r m usn (u + 2 * s) (510 + 512 * s) is, saved, place)
          (after_good m _ usn u s (s + suc r) _ bytes fits (omega arith) is (rw (sym top) rest)))
  | inr bad ↦ rw (restore_bad r m usn (u + 2 * s) (510 + 512 * s) bad) (record {
    stop = s;
    from_start = omega arith;
    to_top = omega arith;
    good = λ i ge lt. absurd (omega arith);
    put_back = λ i ge lt. absurd (omega arith);
    kept = λ a out. refl;
    verdict = inr (omega arith, bad, refl);
  })
]

-- In a record of bytes whose array of saved words ends before the last word of the first sector,
-- and whose header gives the size of the array that `size` asks for, the last words are put back
-- sector by sector until the first one that is not the sequence number, and the result says whether
-- there was one; every other byte stays.
pub ntfs_restore_usa-Restored :
    (m : Memory) (size : ℕ)
    → IsBytes m
    → size < 2 ^ 32
    → load_u16 m 6 ≡ (size / 512 + 1) % 2 ^ 16
    → load_u16 m 4 + 2 + 2 * (size / 512) ≤ 510
    → Restored m
        (load_u16 m (load_u16 m 4))
        (load_u16 m 4 + 2)
        0
        (size / 512)
        (ntfs_restore_usa m size).0
        (ntfs_restore_usa m size).1
unfolding ntfs_restore_usa
ntfs_restore_usa-Restored m size bytes h header fits =
    let test : (load_u16 m 6 == u16 (u32 (size / 512 + 1))) ≡ true = ground arith in
    let usn = load_u16 m (load_u16 m 4) in
    let whole : 0 + size / 512 ≡ size / 512 = omega arith in
    let start : load_u16 m 4 + 2 + 2 * 0 ≡ load_u16 m 4 + 2 = omega arith in
    let all =
      restore_sectors-Restored (size / 512) m usn (load_u16 m 4 + 2) 0 bytes (omega arith) in
    rw test (rw (start, whole) at all)

-- A header with another size of the array is refused, and the record stays as it was.
ntfs_restore_usa_refused :
    (m : Memory) (size : ℕ)
    → size < 2 ^ 32
    → load_u16 m 6 ≢ (size / 512 + 1) % 2 ^ 16
    → ntfs_restore_usa_ptr m size ≡ (m, 1)
unfolding ntfs_restore_usa_ptr ntfs_restore_usa
ntfs_restore_usa_refused m size h header =
    let test : (load_u16 m 6 == u16 (u32 (size / 512 + 1))) ≡ false = ground arith in rw test refl
