-- ===== src/PortArea/Table.antt =====
-- The reservation table as entries: what writing an entry and closing a gap do to each of them.
use kolibri_os_reloaded.Base.{
  ℕ, zero, suc, ◌+◌, ◌*◌, ◌^◌, ◌≤◌, ◌<◌, ◌≡◌, ◌≢◌, ◌⊎◌, ◌∙◌, arith, ◌&&◌, leb, ltb, if◌then◌else◌,
  sub_u32,
}
use kolibri_os_reloaded.Base.Memory.{
  Memory, IsBytes, load_u32, store_u32, store_u8, store_u8-IsBytes, store_u32-IsBytes,
  load_u32-store_u32, load_u32-store_u32_ne, load_u32-lt,
}
use kolibri_os_reloaded.PortArea.{
  entry_tid, entry_start, entry_end, write_entry, copy_down, remove_entry,
}

-- Entry `i` of `t` is entry `j` of `u`.
pub record SameEntry (t : Memory) (i : ℕ) (u : Memory) (j : ℕ) : Type 0 where
  pub tid : entry_tid t i ≡ entry_tid u j
  pub start : entry_start t i ≡ entry_start u j
  pub end : entry_end t i ≡ entry_end u j

pub record IsEntry (t : Memory) (i tid start end : ℕ) : Type 0 where
  pub has_tid : entry_tid t i ≡ tid
  pub has_start : entry_start t i ≡ start
  pub has_end : entry_end t i ≡ end

module _ (t : Memory) (i tid start end : ℕ) where
  pub write_entry-IsBytes : IsBytes t → IsBytes (write_entry t i tid start end)
  unfolding write_entry
  write_entry-IsBytes h =
      store_u32-IsBytes _ _ _ (store_u32-IsBytes _ _ _ (store_u32-IsBytes t _ _ h))

  write_entry_frame :
      (a : ℕ)
      → (a + 4 ≤ i * 16) ⊎ (i * 16 + 12 ≤ a)
      → load_u32 (write_entry t i tid start end) a ≡ load_u32 t a
  unfolding write_entry
  write_entry_frame a h =
      load_u32-store_u32_ne _ (i * 16 + 8) end a (omega arith)
      ∙ load_u32-store_u32_ne _ (i * 16 + 4) start a (omega arith)
      ∙ load_u32-store_u32_ne t (i * 16) tid a (omega arith)

  pub write_entry-IsEntry :
      tid < 2 ^ 32
      → start < 2 ^ 32
      → end < 2 ^ 32
      → IsEntry (write_entry t i tid start end) i tid start end
  unfolding write_entry entry_tid entry_start entry_end
  write_entry-IsEntry ht hs he = record {
    has_tid =
        load_u32-store_u32_ne _ (i * 16 + 8) end (i * 16) (omega arith)
        ∙ load_u32-store_u32_ne _ (i * 16 + 4) start (i * 16) (omega arith)
        ∙ load_u32-store_u32 t (i * 16) tid ht;
    has_start =
        load_u32-store_u32_ne _ (i * 16 + 8) end (i * 16 + 4) (omega arith)
        ∙ load_u32-store_u32 _ (i * 16 + 4) start hs;
    has_end = load_u32-store_u32 _ (i * 16 + 8) end he;
  }

  pub write_entry-SameEntry : (j : ℕ) → j ≢ i → SameEntry (write_entry t i tid start end) j t j
  unfolding entry_tid entry_start entry_end
  write_entry-SameEntry j ne = record {
    tid = write_entry_frame (j * 16) (omega arith);
    start = write_entry_frame (j * 16 + 4) (omega arith);
    end = write_entry_frame (j * 16 + 8) (omega arith);
  }

  pub write_entry_count : 0 < i → load_u32 (write_entry t i tid start end) 0 ≡ load_u32 t 0
  write_entry_count h = write_entry_frame 0 (omega arith)

pub store_count-SameEntry : (t : Memory) (c j : ℕ) → 0 < j → SameEntry (store_u32 t 0 c) j t j
unfolding entry_tid entry_start entry_end
store_count-SameEntry t c j h = record {
  tid = load_u32-store_u32_ne t 0 c (j * 16) (omega arith);
  start = load_u32-store_u32_ne t 0 c (j * 16 + 4) (omega arith);
  end = load_u32-store_u32_ne t 0 c (j * 16 + 8) (omega arith);
}

pub SameEntry-trans :
    {t u w : Memory} {i j k : ℕ} → SameEntry t i u j → SameEntry u j w k → SameEntry t i w k
SameEntry-trans p q = record { tid = p.tid ∙ q.tid; start = p.start ∙ q.start; end = p.end ∙ q.end }

copy_down_lem :
    (bytes edi : ℕ) (t : Memory) (a : ℕ)
    → copy_down bytes edi t a ≡ (if leb edi a && ltb a (edi + bytes) then t (a + 16) else t a)
unfolding copy_down store_u8
copy_down_lem zero edi t a = ground arith
copy_down_lem (suc bytes) edi t a =
    ground (arith, copy_down_lem bytes (edi + 1) (store_u8 t edi (t (edi + 16))) a)

copy_down-IsBytes : (bytes edi : ℕ) (t : Memory) → IsBytes t → IsBytes (copy_down bytes edi t)
unfolding copy_down
copy_down-IsBytes zero edi t h = h
copy_down-IsBytes (suc bytes) edi t h =
    copy_down-IsBytes bytes (edi + 1) _ (store_u8-IsBytes t edi _ h (h (edi + 16)))

module _ (bytes edi : ℕ) (t : Memory) (a : ℕ) where
  copied_dword :
      edi ≤ a → a + 4 ≤ edi + bytes → load_u32 (copy_down bytes edi t) a ≡ load_u32 t (a + 16)
  unfolding load_u32
  copied_dword lo hi = ground (
    arith,
    copy_down_lem bytes edi t a,
    copy_down_lem bytes edi t (a + 1),
    copy_down_lem bytes edi t (a + 2),
    copy_down_lem bytes edi t (a + 3),
  )

  kept_dword : a + 4 ≤ edi → load_u32 (copy_down bytes edi t) a ≡ load_u32 t a
  unfolding load_u32
  kept_dword lo = ground (
    arith,
    copy_down_lem bytes edi t a,
    copy_down_lem bytes edi t (a + 1),
    copy_down_lem bytes edi t (a + 2),
    copy_down_lem bytes edi t (a + 3),
  )

module _ (eax : ℕ) (t : Memory) (h : IsBytes t) (pos : 0 < eax) (fits : eax ≤ 255) where
  pub remove_entry-IsBytes : IsBytes (remove_entry eax t)
  unfolding remove_entry
  remove_entry-IsBytes =
      store_u32-IsBytes _ 0 _ (copy_down-IsBytes (sub_u32 256 eax * 16) (eax * 16) t h)

  pub remove_entry_count : 0 < load_u32 t 0 → load_u32 (remove_entry eax t) 0 + 1 ≡ load_u32 t 0
  unfolding remove_entry
  remove_entry_count some_entry = omega (
    arith,
    load_u32-store_u32 (copy_down (sub_u32 256 eax * 16) (eax * 16) t) 0
        (sub_u32 (load_u32 (copy_down (sub_u32 256 eax * 16) (eax * 16) t) 0) 1) (omega arith),
    kept_dword (sub_u32 256 eax * 16) (eax * 16) t 0 (omega arith),
    load_u32-lt t 0 h,
  )

  -- The entries below `eax` stay.
  pub remove_entry-SameEntry_below :
      (j : ℕ) → 0 < j → j < eax → SameEntry (remove_entry eax t) j t j
  unfolding remove_entry
  remove_entry-SameEntry_below j lo hi = SameEntry-trans (store_count-SameEntry _ _ j lo) kept
    where
      kept : SameEntry (copy_down (sub_u32 256 eax * 16) (eax * 16) t) j t j
      kept =
          unfold entry_tid entry_start entry_end in
          record {
            tid = kept_dword (sub_u32 256 eax * 16) (eax * 16) t (j * 16) (omega arith);
            start = kept_dword (sub_u32 256 eax * 16) (eax * 16) t (j * 16 + 4) (omega arith);
            end = kept_dword (sub_u32 256 eax * 16) (eax * 16) t (j * 16 + 8) (omega arith);
          }

  -- The entries behind `eax` move down by one place.
  pub remove_entry-SameEntry_above :
      (j : ℕ) → eax ≤ j → j ≤ 255 → SameEntry (remove_entry eax t) j t (suc j)
  unfolding remove_entry
  remove_entry-SameEntry_above j lo hi =
      SameEntry-trans (store_count-SameEntry _ _ j (omega arith)) moved
    where
      moved : SameEntry (copy_down (sub_u32 256 eax * 16) (eax * 16) t) j t (suc j)
      moved =
          unfold entry_tid entry_start entry_end in
          record {
            tid = ground (arith, copied_dword (sub_u32 256 eax * 16) (eax * 16) t (j * 16));
            start = ground (arith, copied_dword (sub_u32 256 eax * 16) (eax * 16) t (j * 16 + 4));
            end = ground (arith, copied_dword (sub_u32 256 eax * 16) (eax * 16) t (j * 16 + 8));
          }
