-- ===== src/Window/Examples.antt =====
-- A window that hangs over the display's edge, and its client area, with the theorems there.
use kolibri_os_reloaded.Base.{ℕ, ◌-◌, ◌^◌, ◌≡◌, inl, refl, arith, ◌==◌, if◌then◌else◌}
use kolibri_os_reloaded.Window.{
  WindowBox, check_window_position, set_window_clientbox, fit_extent, fit_position,
}
use kolibri_os_reloaded.Window.Position.{IsBox, IsInside, check_window_position_outcome}
use kolibri_os_reloaded.Window.Client.{HasRoom, ClientOutcome, set_window_clientbox_outcome}

abbrev box : WindowBox
box = record { left = 700; top = 100; width = 200; height = 150 }

box-IsBox : IsBox box
box-IsBox = record {
  left_fits = omega arith;
  top_fits = omega arith;
  width_fits = omega arith;
  height_fits = omega arith;
}

moved_left : (check_window_position box 800 600).left ≡ 599
unfolding check_window_position fit_extent fit_position
moved_left = refl

check_window_position_outcome_example :
    let box' = check_window_position box 800 600 in
    IsInside box'.left box'.width 800
    × IsInside box'.top box'.height 600
    × (IsInside 700 200 800 → IsInside 100 150 600 → box' ≡ box)
check_window_position_outcome_example =
    check_window_position_outcome box 800 600 box-IsBox (omega arith) (omega arith) (omega arith)
      (omega arith) (λ p. inl (omega arith)) (λ p. inl (omega arith))

-- The corner that is just below 2^31 is left where it is: the sum with the width is negative.
far_corner :
    (check_window_position
      (record { left = 2 ^ 31 - 1; top = 0; width = 100; height = 100 })
      800
      600).left
    ≡ 2 ^ 31 - 1
unfolding check_window_position fit_extent fit_position
far_corner = refl

-- `WINDOW_TOPLEFT_DEFAULT`.
abbrev corners : ℕ → ℕ
corners i =
    if i == 0
    then 1
    else if i == 1
    then 21
    else if i == 4
    then 5
    else if i == 5
    then 20
    else if i == 6
    then 5
    else if i == 8
    then 5
    else 0

box-HasRoom : HasRoom box 0x23 24 corners
box-HasRoom = record {
  wide = omega arith;
  high = omega arith;
  across = omega arith;
  down = omega arith;
}

set_window_clientbox_outcome_example :
    ClientOutcome box 0x23 24 corners (set_window_clientbox box 0x23 24 corners)
set_window_clientbox_outcome_example =
    set_window_clientbox_outcome box 0x23 24 corners (λ flag row. box-HasRoom)
