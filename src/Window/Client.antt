-- ===== src/Window/Client.antt =====
-- `set_window_clientbox`: the client area of a window.
use kolibri_os_reloaded.Base.{
  ℕ, ◌+◌, ◌-◌, ◌*◌, ◌/◌, ◌%◌, ◌^◌, ◌≤◌, ◌<◌, bit_and, ◌≡◌, ◌≢◌, ◌⊎◌, if◌then◌else◌, inl, inr, refl,
  arith, Option, none, some, true, false, ltb, ◌==◌, eq_cases, u32, sub_u32,
}
use native.Mathlib.Decide.{dec_lt}
use kolibri_os_reloaded.Base.Fields.{bit_and_mask, bit_and_bit}
use kolibri_os_reloaded.Window.{WindowBox, set_window_clientbox, with_skin, margins}

abbrev style_of : ℕ → ℕ
style_of fl_wstyle = fl_wstyle % 16

-- The margins of a window's style: its row of the table, and the skin's height as the top margin of
-- the styles 3 and 4.
abbrev left_margin : (ℕ → ℕ) → ℕ → ℕ
left_margin topleft fl_wstyle = topleft (style_of fl_wstyle * 2)

abbrev top_margin : (ℕ → ℕ) → ℕ → ℕ → ℕ
top_margin topleft skinh fl_wstyle =
    if style_of fl_wstyle == 3
    then skinh
    else if style_of fl_wstyle == 4
    then skinh
    else topleft (style_of fl_wstyle * 2 + 1)

-- `t` is `topleft` with the skin's height as the second words of rows 3 and 4.
abbrev HasSkin : (ℕ → ℕ) → ℕ → (ℕ → ℕ) → Type 0
HasSkin topleft skinh t =
    (t 7 ≡ skinh) × (t 9 ≡ skinh) × ((i : ℕ) → i ≢ 7 → i ≢ 9 → t i ≡ topleft i)

with_skin-HasSkin : (topleft : ℕ → ℕ) (skinh : ℕ) → HasSkin topleft skinh (with_skin topleft skinh)
unfolding with_skin
with_skin-HasSkin topleft skinh = (refl, refl, λ i a b. ground arith)

-- A client area with the left margin on both sides and below, and the top margin above.
abbrev HasMargins : WindowBox → WindowBox → ℕ → ℕ → Type 0
HasMargins box client left top =
    (client.left ≡ left)
    × (client.top ≡ top)
    × (left + client.width + left ≡ box.width + 1)
    × (top + client.height + left ≡ box.height + 1)

-- A window below 2^31 in size, with room for the margins of its style.
pub record HasRoom (box : WindowBox) (fl_wstyle skinh : ℕ) (topleft : ℕ → ℕ) : Type 0 where
  pub wide : box.width < 2 ^ 31
  pub high : box.height < 2 ^ 31
  pub across : left_margin topleft fl_wstyle + left_margin topleft fl_wstyle ≤ box.width
  pub down : top_margin topleft skinh fl_wstyle + left_margin topleft fl_wstyle ≤ box.height

abbrev pub ClientOutcome : WindowBox → ℕ → ℕ → (ℕ → ℕ) → Option (WindowBox × (ℕ → ℕ)) → Type 0
ClientOutcome box fl_wstyle skinh topleft result =
    ((fl_wstyle / 32 % 2 ≡ 0)
      × ((t : ℕ → ℕ) × (result
            ≡ some (record { left = 0; top = 0; width = box.width; height = box.height }, t))
          × HasSkin topleft skinh t))
    ⊎ (((fl_wstyle / 32 % 2 ≡ 1)
          × (style_of fl_wstyle < 5)
          × ((client : WindowBox) × (t : ℕ → ℕ) × (result ≡ some (client, t))
              × HasMargins box client (left_margin topleft fl_wstyle)
                  (top_margin topleft skinh fl_wstyle)
              × (t 7 ≡ skinh)
              × (t 9 ≡ skinh)
              × ((i : ℕ) → i ≢ 7 → i ≢ 9 → t i ≡ topleft i)))
        ⊎ ((fl_wstyle / 32 % 2 ≡ 1) × (5 ≤ style_of fl_wstyle) × (result ≡ none)))

-- The table with the skin's height, at the row of a style.
with_skin_row :
    (topleft : ℕ → ℕ) (skinh fl_wstyle : ℕ)
    → (with_skin topleft skinh (fl_wstyle % 16 * 2) ≡ left_margin topleft fl_wstyle)
      × (with_skin topleft skinh (fl_wstyle % 16 * 2 + 1) ≡ top_margin topleft skinh fl_wstyle)
unfolding with_skin
with_skin_row topleft skinh fl_wstyle = (ground arith, ground arith)

margins-HasMargins :
    (box : WindowBox) (left top : ℕ)
    → box.width < 2 ^ 31
    → box.height < 2 ^ 31
    → left + left ≤ box.width
    → top + left ≤ box.height
    → HasMargins box (margins box left top) left top
unfolding margins
margins-HasMargins box left top wide high across down =
    let twice : u32 (left * 2) ≡ left + left = omega arith in
    let width : u32 (sub_u32 box.width (left + left) + 1) ≡ box.width - (left + left) + 1 =
      omega arith in
    let first : sub_u32 box.height top ≡ box.height - top = omega arith in
    let height : u32 (sub_u32 (box.height - top) left + 1) ≡ box.height - top - left + 1 =
      omega arith in
    rw (twice, width, first, height) (refl, refl, omega arith, omega arith)

-- The skin's height is put into the table as the second words of rows 3 and 4, and no other word of
-- it changes. Without the flag of a client area the whole window is the client area. With it, a style
-- below 5 has the margins of its row (the left one on both sides and below, and above the top one,
-- the skin's height for the styles 3 and 4), if the window has room for them and is below 2^31 in
-- size; and a style from 5 on is an index outside the table.
pub set_window_clientbox_outcome :
    (box : WindowBox) (fl_wstyle skinh : ℕ) (topleft : ℕ → ℕ)
    → (fl_wstyle / 32 % 2 ≡ 1 → fl_wstyle % 16 < 5 → HasRoom box fl_wstyle skinh topleft)
    → ClientOutcome box fl_wstyle skinh topleft (set_window_clientbox box fl_wstyle skinh topleft)
unfolding set_window_clientbox
set_window_clientbox_outcome box fl_wstyle skinh topleft has_room =
    let flag = bit_and_bit 5 fl_wstyle in
    let low : bit_and fl_wstyle 0x0f ≡ fl_wstyle % 16 = omega (arith, bit_and_mask 4 fl_wstyle) in
    let skin = with_skin-HasSkin topleft skinh in
    let (left, top) = with_skin_row topleft skinh fl_wstyle in
    elim (eq_cases (fl_wstyle / 32 % 2) 0) [
      | inl clear ↦
          (let no_flag : ((bit_and fl_wstyle 32 == 0) ≡ true) = ground arith in
            rw no_flag (inl (clear, (with_skin topleft skinh, refl, skin))))
      | inr set ↦
          (let has_flag : ((bit_and fl_wstyle 32 == 0) ≡ false) = ground arith in
            elim (dec_lt (fl_wstyle % 16) 5) [
              | yes row ↦
                  (let in_table : (ltb (fl_wstyle % 16 * 2 + 1) 10 ≡ true) = ground arith in
                    let room = has_room (omega arith) row in
                    let kept =
                      margins-HasMargins box (left_margin topleft fl_wstyle)
                        (top_margin topleft skinh fl_wstyle) room.wide room.high room.across
                        room.down in
                    rw (has_flag, low, in_table, left, top)
                      (inr (
                        inl (
                          omega arith,
                          row,
                          (_, with_skin topleft skinh, refl, kept, skin.0, skin.1, skin.2),
                        ))))
              | no outside ↦
                  (let beyond : (ltb (fl_wstyle % 16 * 2 + 1) 10 ≡ false) = ground arith in
                    rw (has_flag, low, beyond) (inr (inr (omega arith, omega arith, refl))))
            ])
    ]
