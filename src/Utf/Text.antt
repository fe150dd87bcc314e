-- ===== src/Utf/Text.antt =====
-- A string of units: the conversion ends, and where it writes.
use kolibri_os_reloaded.Base.{
  ℕ, zero, suc, ◌+◌, ◌-◌, ◌^◌, ◌≤◌, ◌<◌, ◌≡◌, ◌⊎◌, inl, inr, refl, ap, ◌∙◌, arith, some, false,
  ◌==◌, eq_cases,
}
use native.Mathlib.Decide.{dec_lt, dec_le}
use kolibri_os_reloaded.Base.Memory.{Memory, IsBytes, first_cell, load_u16, load_u16-lt}
use kolibri_os_reloaded.Utf.{
  Utf16To8Result, Utf16To8StringResult, utf16_to_8, utf16_to_8_string, with_ax,
}
use kolibri_os_reloaded.Utf.Units.{unit_length, HoldsUnit, utf16_to_8_outcome}
use kolibri_os_reloaded.Utf.Decode.{with_ax_lem}

unit_cell :
    (m : Memory) (p c i : ℕ) → c < 2 ^ 16 → HoldsUnit m p c → i < unit_length c → m (p + i) < 256
unfolding HoldsUnit
unit_cell m p c zero hc (inl (small, b)) h = rw (first_cell p) (omega arith)
unit_cell m p c (suc i) hc (inl (small, b)) h = absurd (ground arith)
unit_cell m p c zero hc (inr (inl (l, k, b0, b1))) h = rw (first_cell p) (omega arith)
unit_cell m p c (suc zero) hc (inr (inl (l, k, b0, b1))) h = omega arith
unit_cell m p c (suc (suc i)) hc (inr (inl (l, k, b0, b1))) h = absurd (ground arith)
unit_cell m p c zero hc (inr (inr (l, b0, b1, b2))) h = rw (first_cell p) (omega arith)
unit_cell m p c (suc zero) hc (inr (inr (l, b0, b1, b2))) h = omega arith
unit_cell m p c (suc (suc zero)) hc (inr (inr (l, b0, b1, b2))) h = omega arith
unit_cell m p c (suc (suc (suc i))) hc (inr (inr (l, b0, b1, b2))) h = absurd (ground arith)

unit-IsBytes :
    (m m' : Memory) (p c : ℕ)
    → IsBytes m
    → c < 2 ^ 16
    → HoldsUnit m' p c
    → ((a : ℕ) → (a < p) ⊎ (p + unit_length c ≤ a) → m' a ≡ m a)
    → IsBytes m'
unit-IsBytes m m' p c bytes hc unit frame a = elim (dec_lt a p) [
  | yes before ↦ rw (frame a (inl before)) (bytes a)
  | no from ↦ elim (dec_le (p + unit_length c) a) [
    | yes behind ↦ rw (frame a (inr behind)) (bytes a)
    | no inside ↦
        (let cell : p + (a - p) ≡ a = omega arith in
          rw cell at (unit_cell m' p c (a - p) hc unit (omega arith)))
  ]
]

-- Where a conversion may write, and what it reports: it stays inside the room of `n` bytes from `edi`
-- on, and it ends by the terminating zero, with the rest of the room in `ecx`, or for lack of room.
abbrev pub StringOutcome : Memory → ℕ → ℕ → Memory × Utf16To8StringResult → Type 0
StringOutcome m edi n (m', r) =
    ((a : ℕ) → (a < edi) ⊎ (edi + n ≤ a) → m' a ≡ m a)
    × (r.edi ≤ edi + n)
    × (((r.zf ≡ 1) × (r.string_sf ≡ 0) × (r.edi + r.string_ecx ≡ edi + n))
        ⊎ ((r.zf ≡ 0) × (r.string_sf ≡ 1)))

abbrev one_unit : Memory → ℕ → ℕ → ℕ → Memory × Utf16To8Result
one_unit m esi edi n = utf16_to_8 m (load_u16 m esi) edi n

unit_in_register : (x c : ℕ) → x < 2 ^ 16 → c < 2 ^ 16 → with_ax x c ≡ c
unit_in_register x c h k = with_ax_lem x c (omega arith) k ∙ omega arith

string_full :
    (fuel : ℕ) (m : Memory) (esi edi n eax : ℕ)
    → (one_unit m esi edi n).1.sf ≡ 1
    → utf16_to_8_string (suc fuel) m esi edi n eax
      ≡ some (
        (one_unit m esi edi n).0,
        record {
          string_eax = with_ax eax (load_u16 m esi);
          esi = esi + 2;
          edi = edi + (one_unit m esi edi n).1.edi_delta;
          string_ecx = (one_unit m esi edi n).1.ecx;
          string_sf = 1;
          zf = 0;
        },
      )
unfolding utf16_to_8_string
string_full fuel m esi edi n eax e = rw e refl

string_last :
    (fuel : ℕ) (m : Memory) (esi edi n eax : ℕ)
    → (one_unit m esi edi n).1.sf ≡ 0
    → with_ax eax (load_u16 m esi) ≡ 0
    → utf16_to_8_string (suc fuel) m esi edi n eax
      ≡ some (
        (one_unit m esi edi n).0,
        record {
          string_eax = 0;
          esi = esi + 2;
          edi = edi + (one_unit m esi edi n).1.edi_delta;
          string_ecx = (one_unit m esi edi n).1.ecx;
          string_sf = 0;
          zf = 1;
        },
      )
unfolding utf16_to_8_string
string_last fuel m esi edi n eax e z = rw (e, z) refl

string_more :
    (fuel : ℕ) (m : Memory) (esi edi n eax : ℕ)
    → (one_unit m esi edi n).1.sf ≡ 0
    → (with_ax eax (load_u16 m esi) == 0) ≡ false
    → utf16_to_8_string (suc fuel) m esi edi n eax
      ≡ utf16_to_8_string fuel
          (one_unit m esi edi n).0
          (esi + 2)
          (edi + (one_unit m esi edi n).1.edi_delta)
          (one_unit m esi edi n).1.ecx
          (with_ax eax (load_u16 m esi))
unfolding utf16_to_8_string
string_more fuel m esi edi n eax e z = rw (e, z) refl

-- With a round for each byte of room and one more, the conversion of a string ends, whether the source
-- has a terminating zero or not.
pub utf16_to_8_string_outcome :
    (fuel : ℕ) (m : Memory) (esi edi n eax : ℕ)
    → IsBytes m
    → n < fuel
    → n < 2 ^ 31
    → eax < 2 ^ 16
    → (r : Memory × Utf16To8StringResult) × (utf16_to_8_string fuel m esi edi n eax ≡ some r)
      × StringOutcome m edi n r
utf16_to_8_string_outcome zero m esi edi n eax bytes h hn he = absurd (omega arith)
utf16_to_8_string_outcome (suc fuel) m esi edi n eax bytes h hn he =
    let c = load_u16 m esi in
    let hc = load_u16-lt m esi bytes in
    let m' = (one_unit m esi edi n).0 in
    let r = (one_unit m esi edi n).1 in
    let register = unit_in_register eax c he hc in
    elim (utf16_to_8_outcome m c edi n hc hn) [
      | inr (short, failed, delta, _, _, same) ↦ (
        _,
        string_full fuel m esi edi n eax failed,
        (λ a out. ap (λ (f : Memory). f a) same, omega (arith, delta), inr (refl, refl)),
      )
      | inl (room, done, delta, left, unit, frame) ↦ elim (eq_cases c 0) [
        | inl last ↦ (
          _,
          string_last fuel m esi edi n eax done (register ∙ last),
          (
            λ a out. frame a (ground arith),
            omega (arith, delta, left),
            inl (refl, refl, omega (arith, delta, left)),
          ),
        )
        | inr more ↦
            (let bytes' = unit-IsBytes m m' edi c bytes hc unit frame in
              let size : 0 < unit_length c = ground arith in
              let (result, run, (frame', inside, ends)) =
                utf16_to_8_string_outcome fuel m' (esi + 2) (edi + r.edi_delta) r.ecx
                  (with_ax eax c) bytes' (omega (arith, left)) (omega (arith, left))
                  (omega (arith, register)) in
              let room_left : edi + r.edi_delta + r.ecx ≡ edi + n = omega (arith, delta, left) in
              (
                result,
                string_more fuel m esi edi n eax done (ground (arith, register)) ∙ run,
                (
                  λ a out. frame' a (ground (arith, room_left)) ∙ frame a (ground arith),
                  omega arith,
                  rw room_left at ends,
                ),
              ))
      ]
    ]
