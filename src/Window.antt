-- ===== src/Window.antt =====
-- Window geometry, rust_kernel/kolibri_utils/src/window.rs: the position of a window on the display
-- and its client area. An i32 is its 32-bit pattern, ordered by its sign. The table of corners is
-- indexed by words, and `none` means an index outside its ten words, which panics in the source.
pub mod Position
pub mod Client
mod Examples
use kolibri_os_reloaded.Base.{
  ℕ, ◌+◌, ◌-◌, ◌*◌, ◌%◌, ◌^◌, bit_and, Option, none, some, Bool, ltb, leb, ◌==◌, if◌then◌else◌, u32,
  sub_u32, lt_i32, le_i32,
}
use kolibri_os_reloaded.Base.Memory.{Memory, load_u32, store_u32}

pub record WindowBox : Type 0 where
  pub left : ℕ
  pub top : ℕ
  pub width : ℕ
  pub height : ℕ

-- `WindowBox::from_bytes` of the 16 bytes at an address, and `to_bytes` copied to one.
unfoldable box_from_bytes : Memory → ℕ → WindowBox
box_from_bytes m b = record {
  left = load_u32 m b;
  top = load_u32 m (b + 4);
  width = load_u32 m (b + 8);
  height = load_u32 m (b + 12);
}

unfoldable box_to_bytes : Memory → ℕ → WindowBox → Memory
box_to_bytes m b box =
    store_u32 (store_u32 (store_u32 (store_u32 m b box.left) (b + 4) box.top) (b + 8) box.width)
      (b + 12) box.height

-- One direction: the extent, then the position.
unfoldable pub fit_extent : ℕ → ℕ → ℕ
fit_extent width display_width = if leb display_width width then sub_u32 display_width 1 else width

unfoldable pub fit_position : ℕ → ℕ → ℕ → ℕ
fit_position left width display_width =
    let right = u32 (left + width) in
    if lt_i32 left 0
    then 0
    else if le_i32 display_width right
    then sub_u32 (sub_u32 display_width width) 1
    else left

unfoldable pub check_window_position : WindowBox → ℕ → ℕ → WindowBox
unfolding fit_extent fit_position
check_window_position box display_width display_height =
    let width = fit_extent box.width display_width in
    let height = fit_extent box.height display_height in
    record {
      left = fit_position box.left width display_width;
      top = fit_position box.top height display_height;
      width = width;
      height = height;
    }

unfoldable check_window_position_ptr : Memory → ℕ → ℕ → ℕ → Memory
unfolding check_window_position box_from_bytes box_to_bytes
check_window_position_ptr m box_ptr display_width display_height =
    box_to_bytes m box_ptr
      (check_window_position (box_from_bytes m box_ptr) display_width display_height)

abbrev wstyle_clientrelative : ℕ
wstyle_clientrelative = 0x20

abbrev wdata_fl_wstyle_off : ℕ
wdata_fl_wstyle_off = 19

abbrev wdata_clientbox_off : ℕ
wdata_clientbox_off = 32

-- The two stores of the skin's height into the table of corners.
unfoldable pub with_skin : (ℕ → ℕ) → ℕ → ℕ → ℕ
with_skin topleft skinh i = if i == 9 then skinh else if i == 7 then skinh else topleft i

-- The client area between a left and a top margin.
unfoldable pub margins : WindowBox → ℕ → ℕ → WindowBox
margins box left top = record {
  left = left;
  top = top;
  width = u32 (sub_u32 box.width (u32 (left * 2)) + 1);
  height = u32 (sub_u32 (sub_u32 box.height top) left + 1);
}

unfoldable pub set_window_clientbox : WindowBox → ℕ → ℕ → (ℕ → ℕ) → Option (WindowBox × (ℕ → ℕ))
unfolding with_skin margins
set_window_clientbox box fl_wstyle skinh topleft =
    let topleft' = with_skin topleft skinh in
    let style = bit_and fl_wstyle 0x0f in
    if bit_and fl_wstyle wstyle_clientrelative == 0
    then some (record { left = 0; top = 0; width = box.width; height = box.height }, topleft')
    else if ltb (style * 2 + 1) 10
    then some (margins box (topleft' (style * 2)) (topleft' (style * 2 + 1)), topleft')
    else none

-- The pointer form reads the table in memory, whatever stands behind its ten words.
unfoldable set_window_clientbox_ptr : Memory → ℕ → ℕ → ℕ → Memory
unfolding margins box_from_bytes box_to_bytes
set_window_clientbox_ptr m wdata skinh window_topleft =
    let m1 = store_u32 (store_u32 m (window_topleft + 28) skinh) (window_topleft + 36) skinh in
    let box = box_from_bytes m1 wdata in
    let fl_wstyle = m1 (wdata + wdata_fl_wstyle_off) in
    let style = bit_and fl_wstyle 0x0f in
    let left = load_u32 m1 (window_topleft + 4 * (style * 2)) in
    let top = load_u32 m1 (window_topleft + 4 * (style * 2 + 1)) in
    let client =
      if bit_and fl_wstyle wstyle_clientrelative == 0
      then record { left = 0; top = 0; width = box.width; height = box.height }
      else margins box left top in
    box_to_bytes m1 (wdata + wdata_clientbox_off) client
