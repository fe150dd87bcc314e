-- ===== src/Checksum/Inet.antt =====
-- `checksum_1` on a buffer, `checksum_2`, and the check of a received packet.
use kolibri_os_reloaded.Base.{
  ℕ, zero, suc, ◌+◌, ◌-◌, ◌*◌, ◌/◌, ◌%◌, ◌^◌, ◌≤◌, ◌<◌, ◌≡◌, ◌⊎◌, inl, inr, refl, ◌∙◌, arith, true,
  false, not, ◌==◌, eq_cases, if◌then◌else◌,
}
use kolibri_os_reloaded.Base.Memory.{Memory, IsBytes, store_u16_frame, store_u16-IsBytes, store_u16}
use kolibri_os_reloaded.Base.Fields.{bit_and_mask}
use kolibri_os_reloaded.Checksum.{
  whole_qwords, rem_4, rem_2, finish_odd, checksum_1, checksum_2, swap_bytes,
}
use kolibri_os_reloaded.Checksum.Sum.{words_sum, data_sum, Folds, Folds-join, Folds-room}
use kolibri_os_reloaded.Checksum.Total.{
  words_sum-+, whole_qwords-Folds, rem_4_step, rem_2_step, finish_odd_step, whole_qwords_skip,
  rem_4_skip, rem_2_skip,
}

-- The stages in a row: for short buffers the early returns leave out stages that do nothing.
stages : Memory → ℕ → ℕ → ℕ → ℕ
stages m sum p length =
    let first = whole_qwords m sum p (length / 8) in
    let second = rem_4 m first.0 first.1 (not (length / 4 % 2 == 0)) in
    let third = rem_2 m second.0 second.1 (not (length / 2 % 2 == 0)) in
    finish_odd m third.0 third.1 (not (length % 2 == 0))

checksum_1-stages :
    (m : Memory) (sum p length : ℕ) → checksum_1 m sum p length ≡ stages m sum p length
unfolding checksum_1 stages
checksum_1-stages m sum p length =
    let bit_1 = bit_and_mask 1 length in
    let bit_2 = bit_and_mask 1 (length / 2) in
    let bit_4 = bit_and_mask 1 (length / 2 / 2) in
    let four : length / 2 / 2 ≡ length / 4 = omega arith in
    let eight : length / 4 / 2 ≡ length / 8 = omega arith in
    elim (eq_cases (length / 2) 0) [
      | inl e ↦
          (let no_units : length / 8 ≡ 0 = omega arith in
            let no_four : ((length / 4 % 2 == 0) ≡ true) = ground arith in
            let no_words : ((length / 2 == 0) ≡ true) = ground arith in
            let no_two : ((length / 2 % 2 == 0) ≡ true) = ground arith in
            rw
              (
                bit_1,
                no_words,
                no_two,
                no_units,
                whole_qwords_skip m sum p,
                no_four,
                rem_4_skip m sum p,
                rem_2_skip m sum p,
              )
              refl)
      | inr e ↦ elim (eq_cases (length / 4) 0) [
        | inl e' ↦
            (let words : ((length / 2 == 0) ≡ false) = ground arith in
              let no_dwords : ((length / 2 / 2 == 0) ≡ true) = ground arith in
              let no_four : ((length / 4 % 2 == 0) ≡ true) = ground arith in
              let no_units : length / 8 ≡ 0 = omega arith in
              rw
                (
                  bit_1,
                  bit_2,
                  words,
                  no_dwords,
                  no_four,
                  no_units,
                  whole_qwords_skip m sum p,
                  rem_4_skip m sum p,
                )
                refl)
        | inr e' ↦
            (let words : ((length / 2 == 0) ≡ false) = ground arith in
              let dwords : ((length / 4 == 0) ≡ false) = ground arith in
              rw (bit_1, bit_4, bit_2, words, four, eight, dwords) refl)
      ]
    ]

parts_sum :
    (m : Memory) (p length a b c : ℕ)
    → a ≡ p + 8 * (length / 8)
    → b ≡ p + 4 * (length / 4)
    → c ≡ p + 2 * (length / 2)
    → data_sum length m p
      ≡ words_sum (4 * (length / 8)) m p
        + words_sum (2 * (length / 4 % 2)) m a
        + words_sum (length / 2 % 2) m b
        + (if length % 2 == 1 then 256 * m c else 0)
unfolding data_sum
parts_sum m p length a b c at_a at_b at_c =
    let tail = words_sum-+ (2 * (length / 4)) (length / 2 % 2) m p in
    let head = words_sum-+ (4 * (length / 8)) (2 * (length / 4 % 2)) m p in
    let fours : 4 * (length / 8) + 2 * (length / 4 % 2) ≡ 2 * (length / 4) = omega arith in
    let twos : 2 * (length / 4) + length / 2 % 2 ≡ length / 2 = omega arith in
    let to_a : p + 2 * (4 * (length / 8)) ≡ a = omega arith in
    let to_b : p + 2 * (2 * (length / 4)) ≡ b = omega arith in
    let tail' = rw (twos, to_b) at tail in
    let head' = rw (fours, to_a) at head in
    elim (eq_cases (length % 2) 1) [
      | inl e ↦
          (let last : p + (length - 1) ≡ c = omega arith in
            let odd : ((length % 2 == 1) ≡ true) = ground arith in
            rw (odd, last) (omega (arith, head', tail')))
      | inr e ↦
          (let even : ((length % 2 == 1) ≡ false) = ground arith in
            rw even (omega (arith, head', tail')))
    ]

stages-Folds :
    (m : Memory) (sum p length : ℕ)
    → IsBytes m
    → sum / 65536 + length / 8 + 4 < 65536
    → Folds (length / 8 + 3) sum (data_sum length m p) (stages m sum p length)
unfolding stages data_sum
stages-Folds m sum p length bytes h =
    let q = length / 8 in
    let r4 = length / 4 % 2 in
    let r2 = length / 2 % 2 in
    let r1 = length % 2 in
    let first = whole_qwords m sum p q in
    let second = rem_4 m first.0 first.1 (not (r4 == 0)) in
    let third = rem_2 m second.0 second.1 (not (r2 == 0)) in
    let (fold8, at8) = whole_qwords-Folds m sum p q bytes (omega arith) in
    let room8 = Folds-room q 3 sum (words_sum (4 * q) m p) first.0 fold8 (omega arith) in
    let (fold4, at4) = rem_4_step m first.0 first.1 r4 bytes (omega arith) (omega arith) in
    let room4 =
      Folds-room 1 2 first.0 (words_sum (2 * r4) m first.1) second.0 fold4 (omega arith) in
    let (fold2, at2) = rem_2_step m second.0 second.1 r2 bytes (omega arith) (omega arith) in
    let room2 = Folds-room 1 1 second.0 (words_sum r2 m second.1) third.0 fold2 (omega arith) in
    let fold1 = finish_odd_step m third.0 third.1 r1 bytes (omega arith) (omega arith) in
    let two =
      Folds-join q 1 sum (words_sum (4 * q) m p) first.0 (words_sum (2 * r4) m first.1) second.0
        fold8 fold4 in
    let three =
      Folds-join (q + 1) 1 sum (words_sum (4 * q) m p + words_sum (2 * r4) m first.1) second.0
        (words_sum r2 m second.1) third.0 two fold2 in
    let odd : ℕ = if r1 == 1 then 256 * m third.1 else 0 in
    let all =
      Folds-join (q + 1 + 1) 1 sum
        (words_sum (4 * q) m p + words_sum (2 * r4) m first.1 + words_sum r2 m second.1) third.0 odd
        (finish_odd m third.0 third.1 (not (r1 == 0))) three fold1 in
    let rounds : q + 3 ≡ q + 1 + 1 + 1 = omega arith in
    let at : third.1 ≡ p + 2 * (length / 2) = omega arith in
    let same : data_sum length m p
        ≡ words_sum (4 * q) m p + words_sum (2 * r4) m first.1 + words_sum r2 m second.1 + odd =
      parts_sum m p length first.1 second.1 third.1 at8 (at4 ∙ omega arith) at in
    rw (rounds, same) all

-- `checksum_1` takes in the buffer's big-endian words modulo 65535, for a starting sum and a length
-- that leave the register's high half room for the end-around carries; the sum left is zero only if
-- nothing but zeros was added, and the high half has grown by at most one for each unit of eight
-- bytes and three more.
pub checksum_1_outcome :
    (m : Memory) (sum p length : ℕ)
    → IsBytes m
    → sum / 65536 + length / 8 + 4 < 65536
    → (checksum_1 m sum p length % 65535 ≡ (sum + data_sum length m p) % 65535)
      × (0 < sum + data_sum length m p → 0 < checksum_1 m sum p length)
      × (checksum_1 m sum p length / 65536 ≤ sum / 65536 + length / 8 + 3)
unfolding Folds
checksum_1_outcome m sum p length bytes h =
    let (k, e, q, z) = stages-Folds m sum p length bytes h in
    rw (checksum_1-stages m sum p length) (omega arith, z, omega arith)

folded : (sum : ℕ) → ℕ
folded sum = let edx = sum % 65536 + sum / 65536 in (edx % 65536 + edx / 65536) % 65536

folded_lem :
    (sum : ℕ)
    → 0 < sum
    → sum < 2 ^ 32
    → (0 < folded sum) × (folded sum < 65536) × (folded sum % 65535 ≡ sum % 65535)
unfolding folded
folded_lem sum pos h = (omega arith, omega arith, omega arith)

checksum_2-folded :
    (sum : ℕ) → 0 < sum → sum < 2 ^ 32 → checksum_2 sum ≡ swap_bytes (65535 - folded sum)
unfolding checksum_2 folded
checksum_2-folded sum pos h =
    let some_left : ((((sum % 65536 + sum / 65536) % 65536
              + (sum % 65536 + sum / 65536) / 65536 % 65536)
            % 65536
          == 0)
        ≡ false) =
      ground arith in
    let small : (sum % 65536 + sum / 65536) / 65536 % 65536 ≡ (sum % 65536 + sum / 65536) / 65536 =
      omega arith in
    rw (bit_and_mask 16 sum, some_left, small) refl

swap_bytes_twice : (x : ℕ) → x < 2 ^ 16 → (swap_bytes (swap_bytes x) ≡ x) × (swap_bytes x < 2 ^ 16)
swap_bytes_twice x h = (omega arith, omega arith)

-- A sum other than zero and its checksum, read as a big-endian word, add up to zero modulo 65535.
checksum_2_outcome :
    (sum : ℕ)
    → 0 < sum
    → sum < 2 ^ 32
    → ((sum + swap_bytes (checksum_2 sum)) % 65535 ≡ 0)
      × (checksum_2 sum < 2 ^ 16)
      × (sum % 65535 ≡ 0 → checksum_2 sum ≡ 0)
checksum_2_outcome sum pos h =
    let (some_left, small, same) = folded_lem sum pos h in
    let (twice, bound) = swap_bytes_twice (65535 - folded sum) (omega arith) in
    rw (checksum_2-folded sum pos h, twice)
      (omega arith, bound, λ e. (let full : 65535 - folded sum ≡ 0 = omega arith in rw full refl))

words_sum-frame :
    (n : ℕ) (m : Memory) (p q c : ℕ)
    → (q + 2 ≤ p) ⊎ (p + 2 * n ≤ q)
    → words_sum n (store_u16 m q c) p ≡ words_sum n m p
unfolding words_sum
words_sum-frame zero m p q c out = refl
words_sum-frame (suc n) m p q c out =
    rw
      (
        store_u16_frame m q c p (ground arith),
        store_u16_frame m q c (p + 1) (ground arith),
        words_sum-frame n m (p + 2) q c (ground arith),
      )
      refl

store_u16_bytes :
    (m : Memory) (q c : ℕ)
    → (store_u16 m q c q ≡ c % 256) × (store_u16 m q c (q + 1) ≡ c / 256 % 256)
unfolding store_u16
store_u16_bytes m q c = (ground arith, ground arith)

-- A zero word of the buffer that is overwritten.
words_sum-store :
    (n i : ℕ) (m : Memory) (p c : ℕ)
    → i < n
    → c < 2 ^ 16
    → m (p + 2 * i) ≡ 0
    → m (p + 2 * i + 1) ≡ 0
    → words_sum n (store_u16 m (p + 2 * i) c) p ≡ words_sum n m p + swap_bytes c
unfolding words_sum
words_sum-store zero i m p c h small low high = absurd (omega arith)
words_sum-store (suc n) zero m p c h small low high =
    let at : p + 2 * 0 ≡ p = omega arith in
    let low' : m p ≡ 0 = rw at at low in
    let high' : m (p + 1) ≡ 0 = rw at at high in
    let (first, second) = store_u16_bytes m p c in
    rw (at, first, second, words_sum-frame n m (p + 2) p c (ground arith), low', high')
      (omega arith)
words_sum-store (suc n) (suc i) m p c h small low high =
    let at : p + 2 * suc i ≡ p + 2 + 2 * i = omega arith in
    let low' = rw at at low in
    let high' = rw at at high in
    rw
      (
        at,
        store_u16_frame m (p + 2 + 2 * i) c p (ground arith),
        store_u16_frame m (p + 2 + 2 * i) c (p + 1) (ground arith),
        words_sum-store n i m (p + 2) c (omega arith) small low' high',
      )
      (omega arith)

data_sum-store :
    (length i : ℕ) (m : Memory) (p c : ℕ)
    → 2 * i + 1 < length
    → c < 2 ^ 16
    → m (p + 2 * i) ≡ 0
    → m (p + 2 * i + 1) ≡ 0
    → data_sum length (store_u16 m (p + 2 * i) c) p ≡ data_sum length m p + swap_bytes c
unfolding data_sum
data_sum-store length i m p c h small low high = elim (eq_cases (length % 2) 1) [
  | inl e ↦
      rw
        (
          words_sum-store (length / 2) i m p c (omega arith) small low high,
          store_u16_frame m (p + 2 * i) c (p + (length - 1)) (ground arith),
        )
        (omega arith)
  | inr e ↦
      (let even : ((length % 2 == 1) ≡ false) = ground arith in
        rw (even, words_sum-store (length / 2) i m p c (omega arith) small low high) (omega arith))
]

-- The checksum of a buffer whose checksum field (the word `i`, two bytes of zero) is filled in with
-- its checksum, as the 16-bit store that the kernel makes, is zero: a receiver that runs the same two
-- functions over the packet accepts it. The buffer is not all zeros and the sum that it starts from
-- (the pseudo header's) leaves room for the carries.
pub checksum-accepts :
    (m : Memory) (seed p length i : ℕ)
    → IsBytes m
    → seed / 65536 + length / 8 + 4 < 65536
    → 2 * i + 1 < length
    → m (p + 2 * i) ≡ 0
    → m (p + 2 * i + 1) ≡ 0
    → 0 < seed + data_sum length m p
    → let sent = store_u16 m (p + 2 * i) (checksum_2 (checksum_1 m seed p length)) in
      checksum_2 (checksum_1 sent seed p length) ≡ 0
checksum-accepts m seed p length i bytes room field low high some_data =
    let sum = checksum_1 m seed p length in
    let c = checksum_2 sum in
    let (same, pos, grown) = checksum_1_outcome m seed p length bytes room in
    let (zero_sum, small, shut) = checksum_2_outcome sum (pos some_data) (omega arith) in
    let sent = store_u16 m (p + 2 * i) c in
    let (same', pos', grown') =
      checksum_1_outcome sent seed p length (store_u16-IsBytes m (p + 2 * i) c bytes) room in
    let filled = data_sum-store length i m p c field small low high in
    let (zero_sum', small', shut') =
      checksum_2_outcome (checksum_1 sent seed p length) (pos' (omega arith)) (omega arith) in
    shut' (omega arith)
