-- ===== src/Geometry.antt =====
-- Clipping of rectangles and of blits, rust_kernel/kolibri_utils/src/geometry.rs. A coordinate is an
-- i32 as its u32 bit pattern, and compared as an i32.
pub mod Clip
pub mod Blit
mod Examples
use kolibri_os_reloaded.Base.{
  ℕ, ◌+◌, ◌-◌, ◌%◌, ◌^◌, Bool, true, false, ◌||◌, if◌then◌else◌, u32, sub_u32, lt_i32, le_i32,
}
use kolibri_os_reloaded.Base.Memory.{Memory, load_u32, store_u32}

pub record Rect : Type 0 where
  pub left : ℕ
  pub top : ℕ
  pub right : ℕ
  pub bottom : ℕ

-- The 16 bytes of a rectangle in memory, written and read.
unfoldable to_bytes : Memory → ℕ → Rect → Memory
to_bytes m p r =
    store_u32 (store_u32 (store_u32 (store_u32 m p r.left) (p + 4) r.top) (p + 8) r.right) (p + 12)
      r.bottom

unfoldable from_bytes : Memory → ℕ → Rect
from_bytes m p = record {
  left = load_u32 m p;
  top = load_u32 m (p + 4);
  right = load_u32 m (p + 8);
  bottom = load_u32 m (p + 12);
}

pub record BlockClipResult : Type 0 where
  pub draw : Bool
  pub rect : Rect

unfoldable pub block_clip : Rect → Rect → BlockClipResult
block_clip clip rect =
    let rect_x = record rect {
      left = if lt_i32 rect.left clip.left then clip.left else rect.left;
      right = if lt_i32 clip.right rect.right then clip.right else rect.right;
    } in
    let rect_xy = record rect_x {
      top = if lt_i32 rect.top clip.top then clip.top else rect.top;
      bottom = if lt_i32 clip.bottom rect.bottom then clip.bottom else rect.bottom;
    } in
    if le_i32 clip.right rect.left || lt_i32 rect.right clip.left
    then record { draw = false; rect = rect }
    else if le_i32 clip.bottom rect.top || lt_i32 rect.bottom clip.top
    then record { draw = false; rect = rect_x }
    else record { draw = true; rect = rect_xy }

-- The new memory and 0 to draw, 1 to reject.
unfoldable block_clip_ptr : Memory → ℕ → ℕ → Memory × ℕ
block_clip_ptr m clip rect =
    let r = block_clip (from_bytes m clip) (from_bytes m rect) in
    (to_bytes m rect r.rect, if r.draw then 0 else 1)

pub record BlitterGeom : Type 0 where
  pub dc : Rect
  pub sc : Rect
  pub dst_x : ℕ
  pub dst_y : ℕ
  pub src_x : ℕ
  pub src_y : ℕ
  pub w : ℕ
  pub h : ℕ

pub record BlitClipResult : Type 0 where
  pub draw : Bool
  pub geom : BlitterGeom

-- The second half of `blit_clip`, from the clipped source on.
unfoldable pub clip_destination : BlitterGeom → Rect → BlitClipResult
clip_destination b src =
    let dx0 = sub_u32 (u32 (b.dst_x + src.left)) b.src_x in
    let dy0 = sub_u32 (u32 (b.dst_y + src.top)) b.src_y in
    let dx1 = u32 (sub_u32 dx0 src.left + src.right) in
    let dy1 = u32 (sub_u32 dy0 src.top + src.bottom) in
    let clipped = block_clip b.dc (record { left = dx0; top = dy0; right = dx1; bottom = dy1 }) in
    let dst = clipped.rect in
    if clipped.draw
    then record {
      draw = true;
      geom = record b {
        w = sub_u32 dst.right dst.left;
        h = sub_u32 dst.bottom dst.top;
        src_x = sub_u32 (u32 (b.src_x + dst.left)) b.dst_x;
        src_y = sub_u32 (u32 (b.src_y + dst.top)) b.dst_y;
        dst_x = dst.left;
        dst_y = dst.top;
      };
    }
    else record { draw = false; geom = b }

unfoldable pub blit_clip : BlitterGeom → BlitClipResult
blit_clip b =
    let src_clipped = block_clip b.sc (record {
      left = b.src_x;
      top = b.src_y;
      right = u32 (b.src_x + b.w);
      bottom = u32 (b.src_y + b.h);
    }) in
    if src_clipped.draw
    then clip_destination b src_clipped.rect
    else record { draw = false; geom = b }

-- The fields of a blitter in memory.
unfoldable geom_from_bytes : Memory → ℕ → BlitterGeom
geom_from_bytes m p = record {
  dc = from_bytes m p;
  sc = from_bytes m (p + 16);
  dst_x = load_u32 m (p + 32);
  dst_y = load_u32 m (p + 36);
  src_x = load_u32 m (p + 40);
  src_y = load_u32 m (p + 44);
  w = load_u32 m (p + 48);
  h = load_u32 m (p + 52);
}

-- The new memory, in which only the six fields may change, and 0 to draw, 1 to reject.
unfoldable blit_clip_ptr : Memory → ℕ → Memory × ℕ
blit_clip_ptr m blitter =
    let r = blit_clip (geom_from_bytes m blitter) in
    let g = r.geom in
    let placed =
      store_u32
        (store_u32 (store_u32 (store_u32 m (blitter + 32) g.dst_x) (blitter + 36) g.dst_y)
          (blitter + 40) g.src_x)
        (blitter + 44) g.src_y in
    if r.draw
    then (store_u32 (store_u32 placed (blitter + 48) g.w) (blitter + 52) g.h, 0)
    else (m, 1)
