-- ===== src/Geometry/Clip.antt =====
-- `block_clip`: what is drawn is the intersection of the two rectangles.
use kolibri_os_reloaded.Base.{ℕ, ◌≤◌, ◌<◌, ◌≡◌, ◌↔◌, arith, true, biased_i32}
use kolibri_os_reloaded.Geometry.{Rect, block_clip}

-- A point, by its coordinates moved up by 2^31, is in the rectangle: its right and bottom edges are
-- outside.
abbrev pub IsInside : Rect → ℕ → ℕ → Type 0
IsInside r x y =
    (biased_i32 r.left ≤ x)
    × (x < biased_i32 r.right)
    × (biased_i32 r.top ≤ y)
    × (y < biased_i32 r.bottom)

-- The points to draw are those of both rectangles.
pub block_clip_lem :
    (clip rect : Rect) (x y : ℕ)
    → (((block_clip clip rect).draw ≡ true) × IsInside (block_clip clip rect).rect x y)
      ↔ (IsInside clip x y × IsInside rect x y)
unfolding block_clip
block_clip_lem clip rect x y = (λ h. ground (arith, h), λ h. ground (arith, h))
