-- ===== src/Geometry/Examples.antt =====
-- A rectangle and a blit that are cut by their clips, and the theorems there.
use kolibri_os_reloaded.Base.{◌≡◌, refl, true}
use kolibri_os_reloaded.Geometry.{Rect, BlitterGeom, block_clip, blit_clip, clip_destination}

abbrev screen : Rect
screen = record { left = 0; top = 0; right = 640; bottom = 480 }

-- From -5 to 10 across and from 470 to 500 down.
abbrev window : Rect
window = record { left = 0xfffffffb; top = 470; right = 10; bottom = 500 }

cut_window :
    block_clip screen window
    ≡ record { draw = true; rect = record { left = 0; top = 470; right = 10; bottom = 480 } }
unfolding block_clip
cut_window = refl

-- A block of 100 by 50 from (10, 20) of a bitmap of 640 by 480, to (600, -10).
abbrev sprite : BlitterGeom
sprite = record {
  dc = screen;
  sc = screen;
  dst_x = 600;
  dst_y = 0xfffffff6;
  src_x = 10;
  src_y = 20;
  w = 100;
  h = 50;
}

cut_sprite :
    blit_clip sprite
    ≡ record { draw = true; geom = record sprite { dst_y = 0; src_y = 30; w = 40; h = 40 } }
unfolding blit_clip clip_destination block_clip
cut_sprite = refl
