-- ===== src/Tcp/Estimators.antt =====
-- The round-trip estimators of a socket.
use kolibri_os_reloaded.Base.{
  ℕ, ◌+◌, ◌-◌, ◌*◌, ◌/◌, ◌%◌, ◌^◌, ◌≤◌, ◌<◌, ◌≡◌, ◌⊎◌, inl, inr, refl, ap, ◌∙◌, arith, true, false,
  ltb, leb, ◌==◌, eq_cases, if◌then◌else◌, sub_u32, lt_i32,
}
use native.Mathlib.Decide.{dec_lt, dec_le}
use kolibri_os_reloaded.Base.Memory.{
  Memory, IsBytes, load_u32, store_u32, store_u32_frame, load_u32-store_u32, load_u32-store_u32_ne,
}
use kolibri_os_reloaded.Base.{max}
use kolibri_os_reloaded.Base.Flips.{bit_xor-zero, bit_xor-ones}
use kolibri_os_reloaded.Tcp.{tcp_xmit_timer, updated_srtt, updated_rttvar, add_ja_clamp, abs_cdq}

-- The magnitude of a register that holds a signed number.
abs_cdq_outcome : (x : ℕ) → x < 2 ^ 32 → abs_cdq x ≡ (if ltb x (2 ^ 31) then x else 2 ^ 32 - x)
unfolding abs_cdq
abs_cdq_outcome x h = elim (dec_lt x (2 ^ 31)) [
  | yes p ↦
      (let nonnegative : lt_i32 x 0 ≡ false = ground arith in
        rw (nonnegative, bit_xor-zero 32 x h) (ground arith))
  | no p ↦
      (let negative : lt_i32 x 0 ≡ true = ground arith in
        rw (negative, bit_xor-ones 32 x h) (ground arith))
]

add_ja_clamp_fits :
    (old delta : ℕ) → old + delta < 2 ^ 32 → add_ja_clamp old delta ≡ max 1 (old + delta)
unfolding add_ja_clamp
add_ja_clamp_fits old delta h = ground arith

add_ja_clamp_carries :
    (old delta : ℕ)
    → old < 2 ^ 32
    → delta < 2 ^ 32
    → 2 ^ 32 ≤ old + delta
    → add_ja_clamp old delta ≡ 1
unfolding add_ja_clamp
add_ja_clamp_carries old delta h k l = ground arith

-- A sample above the smoothed time, and one below: then the register is a negative number, the
-- addition carries and the estimate starts again at 1.
updated_srtt_up :
    (rtt srtt : ℕ)
    → rtt < 2 ^ 31
    → srtt < 2 ^ 31
    → srtt / 8 < rtt
    → updated_srtt rtt srtt ≡ (max 1 (srtt + (rtt - srtt / 8 - 1)), rtt - srtt / 8 - 1)
unfolding updated_srtt
updated_srtt_up rtt srtt h k p =
    let step : sub_u32 (sub_u32 rtt (srtt / 8)) 1 ≡ rtt - srtt / 8 - 1 = omega arith in
    rw (step, add_ja_clamp_fits srtt (rtt - srtt / 8 - 1) (omega arith)) refl

updated_srtt_down :
    (rtt srtt : ℕ)
    → srtt < 2 ^ 31
    → 0 < srtt
    → rtt ≤ srtt / 8
    → updated_srtt rtt srtt ≡ (1, 2 ^ 32 - (srtt / 8 + 1 - rtt))
unfolding updated_srtt
updated_srtt_down rtt srtt k pos p =
    let step : sub_u32 (sub_u32 rtt (srtt / 8)) 1 ≡ 2 ^ 32 - (srtt / 8 + 1 - rtt) = omega arith in
    rw
      (
        step,
        add_ja_clamp_carries srtt (2 ^ 32 - (srtt / 8 + 1 - rtt)) (omega arith) (omega arith)
            (omega arith),
      )
      refl

-- The deviation takes the magnitude of the error, the same whichever sign the error has.
updated_rttvar_outcome :
    (eax rttvar size : ℕ)
    → eax < 2 ^ 32
    → rttvar < 2 ^ 31
    → 0 < rttvar
    → size < 2 ^ 31
    → abs_cdq eax ≡ size
    → updated_rttvar eax rttvar
      ≡ (if leb (rttvar / 4) size then max 1 (rttvar + (size - rttvar / 4)) else 1)
unfolding updated_rttvar
updated_rttvar_outcome eax rttvar size h k pos small e = elim (dec_le (rttvar / 4) size) [
  | yes p ↦
      (let fits : leb (rttvar / 4) size ≡ true = ground arith in
        let step : sub_u32 size (rttvar / 4) ≡ size - rttvar / 4 = omega arith in
        rw (e, step, fits, add_ja_clamp_fits rttvar (size - rttvar / 4) (omega arith)) refl)
  | no p ↦
      (let fits : leb (rttvar / 4) size ≡ false = ground arith in
        let step : sub_u32 size (rttvar / 4) ≡ 2 ^ 32 - (rttvar / 4 - size) = omega arith in
        rw
          (
            e,
            step,
            fits,
            add_ja_clamp_carries rttvar (2 ^ 32 - (rttvar / 4 - size)) (omega arith) (omega arith)
                (omega arith),
          )
          refl)
]

-- The error of a sample by its sign, and its magnitude: one more than the shortfall, or one less
-- than the excess.
error_size :
    (rtt srtt : ℕ)
    → rtt < 2 ^ 31
    → srtt < 2 ^ 31
    → 0 < srtt
    → (srtt / 8 < rtt → abs_cdq (updated_srtt rtt srtt).1 ≡ rtt - srtt / 8 - 1)
      × (rtt ≤ srtt / 8 → abs_cdq (updated_srtt rtt srtt).1 ≡ srtt / 8 + 1 - rtt)
error_size rtt srtt h k pos = (
  λ p.
      rw (updated_srtt_up rtt srtt h k p)
        (abs_cdq_outcome (rtt - srtt / 8 - 1) (omega arith) ∙ ground arith),
  λ p.
      rw (updated_srtt_down rtt srtt k pos p)
        (abs_cdq_outcome (2 ^ 32 - (srtt / 8 + 1 - rtt)) (omega arith) ∙ ground arith),
)

-- The values of the two estimators after a call, from the values before it. A sample that is the
-- first sets both. A later one above the smoothed time moves it up by the excess less one; one that
-- is not resets it to 1, since the addition of a negative number carries. The deviation moves by the
-- size of the error less a quarter of itself, and is 1 where that would be a decrease.
abbrev pub smoothed_srtt : ℕ → ℕ → ℕ → ℕ
smoothed_srtt t_rtt rtt srtt =
    if t_rtt == 0
    then rtt * 8
    else if ltb (srtt / 8) rtt
    then max 1 (srtt + (rtt - srtt / 8 - 1))
    else 1

abbrev error_of : ℕ → ℕ → ℕ
error_of rtt srtt = if ltb (srtt / 8) rtt then rtt - srtt / 8 - 1 else srtt / 8 + 1 - rtt

abbrev pub smoothed_rttvar : ℕ → ℕ → ℕ → ℕ → ℕ
smoothed_rttvar t_rtt rtt srtt rttvar =
    if t_rtt == 0
    then rtt * 2
    else if leb (rttvar / 4) (error_of rtt srtt)
    then max 1 (rttvar + (error_of rtt srtt - rttvar / 4))
    else 1

two_fields :
    (m : Memory) (x y : ℕ)
    → x < 2 ^ 32
    → y < 2 ^ 32
    → let m' = store_u32 (store_u32 m 210 x) 214 y in
      (load_u32 m' 210 ≡ x) × (load_u32 m' 214 ≡ y) × ((a : ℕ) → (a < 210) ⊎ (218 ≤ a) → m' a ≡ m a)
two_fields m x y hx hy = (
  load_u32-store_u32_ne (store_u32 m 210 x) 214 y 210 (inl (omega arith))
      ∙ load_u32-store_u32 m 210 x hx,
  load_u32-store_u32 (store_u32 m 210 x) 214 y hy,
  λ a out.
      store_u32_frame (store_u32 m 210 x) 214 y a (ground arith)
      ∙ store_u32_frame m 210 x a (ground arith),
)

updated_srtt-lt : (rtt srtt : ℕ) → (updated_srtt rtt srtt).1 < 2 ^ 32
unfolding updated_srtt
updated_srtt-lt rtt srtt = omega arith

updated_values :
    (rtt srtt : ℕ)
    → rtt < 2 ^ 31
    → srtt < 2 ^ 31
    → 0 < srtt
    → ((updated_srtt rtt srtt).0
        ≡ (if ltb (srtt / 8) rtt then max 1 (srtt + (rtt - srtt / 8 - 1)) else 1))
      × (abs_cdq (updated_srtt rtt srtt).1 ≡ error_of rtt srtt)
updated_values rtt srtt h k pos =
    let (above, below) = error_size rtt srtt h k pos in
    elim (dec_lt (srtt / 8) rtt) [
      | yes p ↦
          (let e : ltb (srtt / 8) rtt ≡ true = ground arith in
            rw e (ap (λ (r : ℕ × ℕ). r.0) (updated_srtt_up rtt srtt h k p), above p))
      | no p ↦
          (let e : ltb (srtt / 8) rtt ≡ false = ground arith in
            rw e (
              ap (λ (r : ℕ × ℕ). r.0) (updated_srtt_down rtt srtt k pos (omega arith)),
              below (omega arith),
            ))
    ]

-- `tcp_xmit_timer` leaves the estimators with those values, for a sample that the shift does not
-- overflow and estimators that are not zero and below 2^31, and changes no cell outside the two fields.
pub tcp_xmit_timer_outcome :
    (m : Memory) (rtt : ℕ)
    → IsBytes m
    → rtt < 2 ^ 29
    → load_u32 m 210 < 2 ^ 31
    → 0 < load_u32 m 210
    → load_u32 m 214 < 2 ^ 31
    → 0 < load_u32 m 214
    → (load_u32 (tcp_xmit_timer rtt m) 210 ≡ smoothed_srtt (load_u32 m 202) rtt (load_u32 m 210))
      × (load_u32 (tcp_xmit_timer rtt m) 214
          ≡ smoothed_rttvar (load_u32 m 202) rtt (load_u32 m 210) (load_u32 m 214))
      × ((a : ℕ) → (a < 210) ⊎ (218 ≤ a) → tcp_xmit_timer rtt m a ≡ m a)
unfolding tcp_xmit_timer
tcp_xmit_timer_outcome m rtt bytes h ks pos_s kv pos_v =
    let s = load_u32 m 210 in
    let v = load_u32 m 214 in
    let kept = load_u32-store_u32_ne m 210 (updated_srtt rtt s).0 214 (inr (omega arith)) in
    elim (eq_cases (load_u32 m 202) 0) [
      | inl e ↦
          (let eight : rtt * 8 % 2 ^ 32 ≡ rtt * 8 = omega arith in
            let two : rtt * 2 % 2 ^ 32 ≡ rtt * 2 = omega arith in
            rw (e, eight, two) (two_fields m (rtt * 8) (rtt * 2) (omega arith) (omega arith)))
      | inr e ↦
          (let later : ((load_u32 m 202 == 0) ≡ false) = ground arith in
            let (new_s, size) = updated_values rtt s (omega arith) ks pos_s in
            let new_v =
              updated_rttvar_outcome (updated_srtt rtt s).1 v (error_of rtt s)
                (updated_srtt-lt rtt s) kv pos_v (ground arith) size in
            rw (later, kept, new_s, new_v)
              (two_fields m (if ltb (s / 8) rtt then max 1 (s + (rtt - s / 8 - 1)) else 1)
                (if leb (v / 4) (error_of rtt s) then max 1 (v + (error_of rtt s - v / 4)) else 1)
                (ground arith) (ground arith)))
    ]
