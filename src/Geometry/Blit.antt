-- ===== src/Geometry/Blit.antt =====
-- `blit_clip`: the pixels that are drawn are those of both clips and of the requested block.
use kolibri_os_reloaded.Base.{ℕ, ◌+◌, ◌^◌, ◌≤◌, ◌<◌, ◌≡◌, biased_i32, u32, sub_u32}
use kolibri_os_reloaded.Geometry.{Rect, BlitterGeom}

-- A coordinate with an absolute value of at most `n`.
abbrev pub IsNear : ℕ → ℕ → Type 0
IsNear n c = (c < 2 ^ 32) × (2 ^ 31 ≤ biased_i32 c + n) × (biased_i32 c ≤ 2 ^ 31 + n)

pub record IsNearRect (n : ℕ) (r : Rect) : Type 0 where
  pub left : IsNear n r.left
  pub top : IsNear n r.top
  pub right : IsNear n r.right
  pub bottom : IsNear n r.bottom

-- The block in the source bitmap and on the destination.
unfoldable pub source : BlitterGeom → Rect
source b = record {
  left = b.src_x;
  top = b.src_y;
  right = u32 (b.src_x + b.w);
  bottom = u32 (b.src_y + b.h);
}

unfoldable pub target : BlitterGeom → Rect
target b = record {
  left = b.dst_x;
  top = b.dst_y;
  right = u32 (b.dst_x + b.w);
  bottom = u32 (b.dst_y + b.h);
}

-- Coordinates and sizes of at most 2^28.
pub record IsModest (b : BlitterGeom) : Type 0 where
  pub dc : IsNearRect (2 ^ 28) b.dc
  pub sc : IsNearRect (2 ^ 28) b.sc
  pub dst_x : IsNear (2 ^ 28) b.dst_x
  pub dst_y : IsNear (2 ^ 28) b.dst_y
  pub src_x : IsNear (2 ^ 28) b.src_x
  pub src_y : IsNear (2 ^ 28) b.src_y
  pub w : b.w ≤ 2 ^ 28
  pub h : b.h ≤ 2 ^ 28

-- A clipped source, moved to the destination.
abbrev moved_rect : BlitterGeom → Rect → Rect
moved_rect b src = record {
  left = sub_u32 (u32 (b.dst_x + src.left)) b.src_x;
  top = sub_u32 (u32 (b.dst_y + src.top)) b.src_y;
  right = u32 (sub_u32 (sub_u32 (u32 (b.dst_x + src.left)) b.src_x) src.left + src.right);
  bottom = u32 (sub_u32 (sub_u32 (u32 (b.dst_y + src.top)) b.src_y) src.top + src.bottom);
}

-- What the second half returns when the moved rectangle is clipped to `dst`.
abbrev drawn_geom : BlitterGeom → Rect → BlitterGeom
drawn_geom b dst = record b {
  w = sub_u32 dst.right dst.left;
  h = sub_u32 dst.bottom dst.top;
  src_x = sub_u32 (u32 (b.src_x + dst.left)) b.dst_x;
  src_y = sub_u32 (u32 (b.src_y + dst.top)) b.dst_y;
  dst_x = dst.left;
  dst_y = dst.top;
}

-- The same point in the source and on the destination.
abbrev IsSamePoint : BlitterGeom → ℕ → ℕ → ℕ → ℕ → Type 0
IsSamePoint b x y sx sy =
    (sx + biased_i32 b.dst_x ≡ x + biased_i32 b.src_x)
    × (sy + biased_i32 b.dst_y ≡ y + biased_i32 b.src_y)
