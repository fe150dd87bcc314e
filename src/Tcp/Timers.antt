-- ===== src/Tcp/Timers.antt =====
-- The persist timer.
use kolibri_os_reloaded.Base.{
  ℕ, min, max, ◌+◌, ◌*◌, ◌/◌, ◌%◌, ◌^◌, ◌≤◌, bit_or, ◌≡◌, ◌⊎◌, inl, inr, refl, ◌∙◌, arith, true,
  ltb, Bool-cases, eq_cases, if◌then◌else◌,
}
use kolibri_os_reloaded.Base.Memory.{
  Memory, IsBytes, load_u32, store_u32, store_u8, store_u32_frame, store_u8_same, load_u32-lt,
  load_u32-store_u32, load_u32-store_u32_ne, load_u32-store_u8_ne,
}
use kolibri_os_reloaded.Base.Fields.{bit_and_mask, bit_or_split, bit_or-zero}
use kolibri_os_reloaded.Tcp.{tcp_set_persist, persist_time, tcpt_rangeset}

-- `| 8` sets bit 3.
or_bit_3 : (x : ℕ) → bit_or x 8 ≡ x / 16 * 16 + 8 + x % 8
or_bit_3 x =
    let top = bit_or_split 4 (x / 16) 0 (x % 16) 8 (omega arith) (omega arith) in
    let low = bit_or_split 3 (x % 16 / 8) 1 (x % 8) 0 (omega arith) (omega arith) in
    let shift : 2 ^ 4 * 0 + 8 ≡ 8 = refl in
    let whole : 2 ^ 4 * (x / 16) + x % 16 ≡ x = omega arith in
    let part : 2 ^ 3 * (x % 16 / 8) + x % 8 ≡ x % 16 = omega arith in
    let eight : 2 ^ 3 * 1 + 0 ≡ 8 = refl in
    let top' = rw (whole, shift, (bit_or-zero (x / 16)).0) at top in
    let low' = rw (part, eight, (bit_or-zero (x % 8)).0) at low in
    elim (eq_cases (x % 16 / 8) 0) [
      | inl e ↦ omega (arith, top', rw e at low', (bit_or-zero 1).1)
      | inr e ↦ (let one : x % 16 / 8 ≡ 1 = omega arith in omega (arith, top', rw one at low'))
    ]

tcp_set_persist_idle : (m : Memory) → load_u32 m 254 % 2 ≡ 1 → tcp_set_persist m ≡ m
unfolding tcp_set_persist
tcp_set_persist_idle m h = rw (bit_and_mask 1 (load_u32 m 254), h) refl

-- The memory after a call that sets the timer.
persisted : Memory → Memory
persisted m =
    let value = tcpt_rangeset (persist_time m) 8 94 in
    let armed =
      store_u32 (store_u32 m 262 value) 254 (load_u32 m 254 / 16 * 16 + 8 + load_u32 m 254 % 8) in
    if ltb (m 118) 12 then store_u8 armed 118 (m 118 + 1) else armed

tcp_set_persist_set :
    (m : Memory) → IsBytes m → load_u32 m 254 % 2 ≡ 0 → tcp_set_persist m ≡ persisted m
unfolding tcp_set_persist persisted
tcp_set_persist_set m bytes h =
    let value : ℕ = tcpt_rangeset (persist_time m) 8 94 in
    let flags : ℕ = load_u32 m 254 / 16 * 16 + 8 + load_u32 m 254 % 8 in
    let same =
      store_u32_frame (store_u32 m 262 value) 254 flags 118 (inl (omega arith))
      ∙ store_u32_frame m 262 value 118 (inl (omega arith)) in
    let fits : ltb (m 118) 12 ≡ true → (m 118 + 1) % 256 ≡ m 118 + 1 = λ t. ground arith in
    elim (Bool-cases (ltb (m 118) 12)) [
      | inl e ↦
          rw (bit_and_mask 1 (load_u32 m 254), h, or_bit_3 (load_u32 m 254), same, e, fits e) refl
      | inr e ↦ rw (bit_and_mask 1 (load_u32 m 254), h, or_bit_3 (load_u32 m 254), same, e) refl
    ]

rangeset-bounds : (value : ℕ) → (8 ≤ tcpt_rangeset value 8 94) × (tcpt_rangeset value 8 94 ≤ 94)
unfolding tcpt_rangeset
rangeset-bounds value = (ground arith, ground arith)

persisted-loads :
    (m : Memory)
    → IsBytes m
    → (load_u32 (persisted m) 262 ≡ tcpt_rangeset (persist_time m) 8 94)
      × (load_u32 (persisted m) 254 ≡ load_u32 m 254 / 16 * 16 + 8 + load_u32 m 254 % 8)
      × (persisted m 118 ≡ (if ltb (m 118) 12 then m 118 + 1 else m 118))
unfolding persisted
persisted-loads m bytes =
    let value : ℕ = tcpt_rangeset (persist_time m) 8 94 in
    let flags : ℕ = load_u32 m 254 / 16 * 16 + 8 + load_u32 m 254 % 8 in
    let timed = store_u32 m 262 value in
    let armed = store_u32 timed 254 flags in
    let time =
      load_u32-store_u32_ne timed 254 flags 262 (inr (omega arith))
      ∙ load_u32-store_u32 m 262 value (omega (arith, (rangeset-bounds (persist_time m)).1)) in
    let flag = load_u32-store_u32 timed 254 flags (omega (arith, load_u32-lt m 254 bytes)) in
    let count =
      store_u32_frame timed 254 flags 118 (inl (omega arith))
      ∙ store_u32_frame m 262 value 118 (inl (omega arith)) in
    elim (Bool-cases (ltb (m 118) 12)) [
      | inl e ↦
          rw
            (
              e,
              load_u32-store_u8_ne armed 118 (m 118 + 1) 262 (inl (omega arith)),
              load_u32-store_u8_ne armed 118 (m 118 + 1) 254 (inl (omega arith)),
              store_u8_same armed 118 (m 118 + 1),
            )
            (time, flag, refl)
      | inr e ↦ rw e (time, flag, count)
    ]

-- What a call does: nothing while the retransmission timer runs; otherwise the persist timer is set
-- to the computed time brought into [8, 94], its flag is set with the other flags kept, and the
-- backoff counter goes up by one until it is 12.
tcp_set_persist_outcome :
    (m : Memory)
    → IsBytes m
    → ((load_u32 m 254 % 2 ≡ 1) × (tcp_set_persist m ≡ m))
      ⊎ ((load_u32 m 254 % 2 ≡ 0)
          × (load_u32 (tcp_set_persist m) 262 ≡ min 94 (max 8 (persist_time m)))
          × (load_u32 (tcp_set_persist m) 254 / 16 ≡ load_u32 m 254 / 16)
          × (load_u32 (tcp_set_persist m) 254 % 16 ≡ load_u32 m 254 % 8 + 8)
          × (tcp_set_persist m 118 ≡ (if ltb (m 118) 12 then m 118 + 1 else m 118)))
unfolding tcpt_rangeset
tcp_set_persist_outcome m bytes =
    let (time, flag, count) = persisted-loads m bytes in
    elim (eq_cases (load_u32 m 254 % 2) 1) [
      | inl e ↦ inl (e, tcp_set_persist_idle m e)
      | inr e ↦
          (let set = tcp_set_persist_set m bytes (omega arith) in
            inr (
              omega arith,
              rw set (time ∙ ground arith),
              rw set (omega arith),
              rw set (omega arith),
              rw set count,
            ))
    ]

-- The persist and the retransmission timer are never both armed.
unfoldable pub TimersAreExclusive : Memory → Type 0
TimersAreExclusive m = load_u32 m 254 % 2 ≡ 1 → load_u32 m 254 / 8 % 2 ≡ 0

-- A call keeps the two timers exclusive.
pub tcp_set_persist-TimersAreExclusive :
    (m : Memory) → IsBytes m → TimersAreExclusive m → TimersAreExclusive (tcp_set_persist m)
unfolding TimersAreExclusive
tcp_set_persist-TimersAreExclusive m bytes h = elim (tcp_set_persist_outcome m bytes) [
  | inl (armed, same) ↦ rw same h
  | inr (idle, time, high, low, count) ↦ λ both. absurd (omega arith)
]
