-- ===== src/Window/Position.antt =====
-- `check_window_position`: a window is moved and cut to the display.
use kolibri_os_reloaded.Base.{ℕ, ◌+◌, ◌^◌, ◌<◌, ◌≤◌, ◌≡◌, ◌⊎◌, refl, arith}
use kolibri_os_reloaded.Window.{WindowBox, fit_extent, fit_position, check_window_position}

pub record IsBox (box : WindowBox) : Type 0 where
  pub left_fits : box.left < 2 ^ 32
  pub top_fits : box.top < 2 ^ 32
  pub width_fits : box.width < 2 ^ 32
  pub height_fits : box.height < 2 ^ 32

fit_extent-le : (width display : ℕ) → 0 < display → fit_extent width display ≤ width
unfolding fit_extent
fit_extent-le width display some_display = ground arith

-- The ends of a window on one axis: not negative, and before the display's end.
abbrev pub IsInside : ℕ → ℕ → ℕ → Type 0
IsInside at extent display = at + extent < display

fit_extent-lt :
    (width display : ℕ) → 0 < display → display < 2 ^ 31 → fit_extent width display < display
unfolding fit_extent
fit_extent-lt width display some_display small = ground arith

fit_position-IsInside :
    (left width display : ℕ)
    → left < 2 ^ 32
    → width < display
    → display < 2 ^ 31
    → (left < 2 ^ 31 → left + width < 2 ^ 31)
    → IsInside (fit_position left width display) width display
unfolding fit_position
fit_position-IsInside left width display fits less small sum = ground arith

fit_position_kept :
    (left width display : ℕ)
    → display < 2 ^ 31
    → left + width < display
    → fit_position left width display ≡ left
unfolding fit_position
fit_position_kept left width display small inside = ground arith

extent_kept : (width display : ℕ) → width < display → fit_extent width display ≡ width
unfolding fit_extent
extent_kept width display less = ground arith

-- For a window of 32-bit words: after the call it lies inside the display, which is wider and higher than nothing and
-- below 2^31, if a corner that is not negative is so small that its sum with the smaller of the
-- window's and the display's extent is below 2^31. A window that lay inside already is as it was.
pub check_window_position_outcome :
    (box : WindowBox) (display_width display_height : ℕ)
    → IsBox box
    → 0 < display_width
    → display_width < 2 ^ 31
    → 0 < display_height
    → display_height < 2 ^ 31
    → (box.left < 2 ^ 31 → (box.left + box.width < 2 ^ 31) ⊎ (box.left + display_width < 2 ^ 31))
    → (box.top < 2 ^ 31 → (box.top + box.height < 2 ^ 31) ⊎ (box.top + display_height < 2 ^ 31))
    → let box' = check_window_position box display_width display_height in
      IsInside box'.left box'.width display_width
      × IsInside box'.top box'.height display_height
      × (IsInside box.left box.width display_width
          → IsInside box.top box.height display_height
          → box' ≡ box)
unfolding check_window_position
check_window_position_outcome box w h valid w_pos w_small h_pos h_small left_ok top_ok =
    let w_less = fit_extent-lt box.width w w_pos w_small in
    let h_less = fit_extent-lt box.height h h_pos h_small in
    (
      fit_position-IsInside box.left (fit_extent box.width w) w valid.left_fits w_less w_small
          (λ p. omega (arith, left_ok p, fit_extent-le box.width w w_pos)),
      fit_position-IsInside box.top (fit_extent box.height h) h valid.top_fits h_less h_small
          (λ p. omega (arith, top_ok p, fit_extent-le box.height h h_pos)),
      λ across down.
          (let same_w : fit_extent box.width w ≡ box.width =
              extent_kept box.width w (omega arith) in
            let same_h : fit_extent box.height h ≡ box.height =
              extent_kept box.height h (omega arith) in
            rw
              (
                same_w,
                same_h,
                fit_position_kept box.left box.width w w_small across,
                fit_position_kept box.top box.height h h_small down,
              )
              refl),
    )
