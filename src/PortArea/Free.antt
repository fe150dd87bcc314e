-- ===== src/PortArea/Free.antt =====
-- `free_port_area`: the entry with exactly this thread and range is taken out and its ports are
-- denied; without one the state stays.
use kolibri_os_reloaded.Base.{
  ℕ, zero, suc, ◌+◌, ◌-◌, ◌≤◌, ◌<◌, ◌≡◌, ◌≢◌, ◌⊎◌, inl, inr, refl, arith, ◌&&◌, leb, ltb,
  if◌then◌else◌, false, true, ◌==◌, Bool, Bool-cases,
}
use native.Mathlib.Decide.{dec_lt}
use kolibri_os_reloaded.Base.Memory.{IsBytes}
use kolibri_os_reloaded.Base.Bitmap.{map_bit}
use kolibri_os_reloaded.PortArea.{
  Ports, entry_tid, entry_start, entry_end, remove_entry, disable_range, free_walk, free_port_area,
}
use kolibri_os_reloaded.PortArea.Ranges.{disable_range-IsBytes, map_bit-disable_range}
use kolibri_os_reloaded.PortArea.Table.{
  SameEntry, IsEntry, remove_entry-IsBytes, remove_entry_count, remove_entry-SameEntry_below,
  remove_entry-SameEntry_above,
}
use kolibri_os_reloaded.PortArea.Invariant.{count, IsCovered, IsApart, IsValid}

-- Entry `i` of `s` is gone in `t`, the entries behind it moved down, and its ports are denied.
pub record IsFreed (s : Ports) (i start end : ℕ) (t : Ports) : Type 0 where
  pub one_less : count t + 1 ≡ count s
  pub before : (j : ℕ) → 0 < j → j < i → SameEntry t.reserved_ports j s.reserved_ports j
  pub behind : (j : ℕ) → i ≤ j → j ≤ count t → SameEntry t.reserved_ports j s.reserved_ports (suc j)
  pub denied :
      (p : ℕ) → map_bit t.io_map p ≡ (if leb start p && leb p end then 1 else map_bit s.io_map p)

abbrev without_entry : ℕ → ℕ → ℕ → Ports → Ports
without_entry start end i s = record {
  reserved_ports = remove_entry i s.reserved_ports;
  io_map = disable_range start end s.io_map;
}

without_entry-IsFreed :
    (mine : ℕ → Type 0) (s : Ports) (i start end : ℕ)
    → IsValid mine s
    → 0 < i
    → i ≤ count s
    → start ≤ end
    → end < 65536
    → IsFreed s i start end (without_entry start end i s)
without_entry-IsFreed mine s i start end v pos le order small =
    let fits : i ≤ 255 = omega (arith, v.count_le) in
    let fewer = remove_entry_count i s.reserved_ports v.table_bytes pos fits (omega arith) in
    record {
      one_less = fewer;
      before =
          λ j p q. remove_entry-SameEntry_below i s.reserved_ports v.table_bytes pos fits j p q;
      behind = λ j p q.
          remove_entry-SameEntry_above i s.reserved_ports v.table_bytes pos fits j p
            (omega (arith, fewer, v.count_le));
      denied = map_bit-disable_range start end s.io_map v.map_bytes order small;
    }

module _ (mine : ℕ → Type 0) (s t : Ports) (i start end : ℕ) (v : IsValid mine s) (pos : 0 < i)
    (le : i ≤ count s) (has_start : entry_start s.reserved_ports i ≡ start)
    (has_end : entry_end s.reserved_ports i ≡ end) (r : IsFreed s i start end t) where
  -- Where entry `j` of the new table stood in the old one.
  abbrev old_place : ℕ → ℕ
  old_place j = if ltb j i then j else suc j

  old_place_lem :
      (j : ℕ)
      → 0 < j
      → j ≤ count t
      → (old_place j ≤ count s)
        × (entry_start t.reserved_ports j ≡ entry_start s.reserved_ports (old_place j))
        × (entry_end t.reserved_ports j ≡ entry_end s.reserved_ports (old_place j))
        × (entry_tid t.reserved_ports j ≡ entry_tid s.reserved_ports (old_place j))
  old_place_lem j p q = elim (dec_lt j i) [
    | yes lt ↦
        let e = r.before j p lt in
        let same : old_place j ≡ j = ground arith in
        rw same (omega (arith, r.one_less), e.start, e.end, e.tid)
    | no ge ↦
        let e = r.behind j (omega arith) q in
        let moved : old_place j ≡ suc j = ground arith in
        rw moved (omega (arith, r.one_less), e.start, e.end, e.tid)
  ]

  -- Every other entry is apart from the freed one.
  other_apart :
      (j : ℕ)
      → 0 < j
      → j ≤ count t
      → (entry_end t.reserved_ports j < start) ⊎ (end < entry_start t.reserved_ports j)
  other_apart j p q = elim (dec_lt j i) [
    | yes lt ↦ ground (arith, old_place_lem j p q, v.apart j i p lt le, has_start, has_end)
    | no ge ↦ ground (
      arith,
      old_place_lem j p q,
      v.apart i (suc j) pos (omega arith) (omega (arith, r.one_less)),
      has_start,
      has_end,
    )
  ]

  IsFreed-granted :
      (j p : ℕ)
      → 0 < j
      → j ≤ count t
      → mine (entry_tid t.reserved_ports j)
      → IsCovered t j p
      → map_bit t.io_map p ≡ 0
  IsFreed-granted j p pj le_j owned cover =
      let place = old_place_lem j pj le_j in
      let owned_before = rw place.3 at owned in
      ground (
        arith,
        r.denied p,
        other_apart j pj le_j,
        v.granted (old_place j) p (ground arith) place.0 owned_before (omega (arith, place)),
      )

  IsFreed-only :
      (p : ℕ)
      → p < 65536
      → map_bit t.io_map p ≡ 0
      → (j : ℕ) × (0 < j) × (j ≤ count t) × mine (entry_tid t.reserved_ports j) × IsCovered t j p
  IsFreed-only p small e =
      let (k, pos_k, le_k, owned, cover) = v.only p small (ground (arith, r.denied p)) in
      let ne : k ≢ i = λ same. ground (arith, r.denied p, rw same at cover, has_start, has_end) in
      elim (dec_lt k i) [
        | yes lt ↦
            let e = r.before k pos_k lt in
            (
              k,
              pos_k,
              omega (arith, r.one_less),
              rw e.tid owned,
              (omega (arith, e.start), omega (arith, e.end)),
            )
        | no ge ↦
            let prev : suc (k - 1) ≡ k = omega arith in
            let e = r.behind (k - 1) (omega arith) (omega (arith, r.one_less)) in
            (
              k - 1,
              omega arith,
              omega (arith, r.one_less),
              rw (rw prev at (e.tid)) owned,
              (omega (arith, rw prev at (e.start)), omega (arith, rw prev at (e.end))),
            )
      ]

  IsFreed-is_range :
      (j : ℕ)
      → 0 < j
      → j ≤ count t
      → (entry_start t.reserved_ports j ≤ entry_end t.reserved_ports j)
        × (entry_end t.reserved_ports j < 65536)
  IsFreed-is_range j p q =
      let place = old_place_lem j p q in
      omega (arith, place, v.is_range (old_place j) (ground arith) place.0)

  IsFreed-IsApart :
      (j k : ℕ)
      → 0 < j
      → j < k
      → k ≤ count t
      → IsApart t (entry_start t.reserved_ports k) (entry_end t.reserved_ports k) j
  IsFreed-IsApart j k pos_j lt le_k =
      let place_j = old_place_lem j pos_j (omega arith) in
      let place_k = old_place_lem k (omega arith) le_k in
      omega (
        arith,
        place_j,
        place_k,
        v.apart (old_place j) (old_place k) (ground arith) (ground arith) place_k.0,
      )

  IsFreed-IsValid : IsBytes t.reserved_ports → IsBytes t.io_map → IsValid mine t
  IsFreed-IsValid tb mb = record {
    table_bytes = tb;
    map_bytes = mb;
    count_le = omega (arith, r.one_less, v.count_le);
    is_range = IsFreed-is_range;
    apart = IsFreed-IsApart;
    granted = IsFreed-granted;
    only = IsFreed-only;
  }

-- How a call of `free_port_area` ends: with result 0 and without the highest entry that is exactly
-- this range of this thread; or with result 1 and the state unchanged, where there is none.
pub data FreeOutcome (mine : ℕ → Type 0) (s : Ports) (start end tid : ℕ) (r : Ports × ℕ)
    : Type 0 where
  freed :
      (i : ℕ)
      → 0 < i
      → i ≤ count s
      → IsEntry s.reserved_ports i tid start end
      → r.1 ≡ 0
      → IsFreed s i start end r.0
      → IsValid mine r.0
      → FreeOutcome mine s start end tid r
  not_found :
      ((i : ℕ) → 0 < i → i ≤ count s → ¬ IsEntry s.reserved_ports i tid start end)
      → r ≡ (s, 1)
      → FreeOutcome mine s start end tid r

module _ (mine : ℕ → Type 0) (s : Ports) (start end tid : ℕ) (v : IsValid mine s) where
  abbrev found : ℕ → Bool
  found i =
      entry_tid s.reserved_ports i == tid
      && entry_start s.reserved_ports i == start
      && entry_end s.reserved_ports i == end

  found-IsEntry : (i : ℕ) → found i ≡ true → IsEntry s.reserved_ports i tid start end
  found-IsEntry i e = record {
    has_tid = ground arith;
    has_start = ground arith;
    has_end = ground arith;
  }

  other-IsEntry : (i : ℕ) → found i ≡ false → ¬ IsEntry s.reserved_ports i tid start end
  other-IsEntry i e x = ground (arith, x.has_tid, x.has_start, x.has_end)

  free_at :
      (i : ℕ)
      → 0 < i
      → i ≤ count s
      → IsEntry s.reserved_ports i tid start end
      → FreeOutcome mine s start end tid (without_entry start end i s, 0)
  free_at i pos le x =
      let range = v.is_range i pos le in
      let r =
        without_entry-IsFreed mine s i start end v pos le
          (omega (arith, range, x.has_start, x.has_end)) (omega (arith, range, x.has_end)) in
      freed i pos le x refl r (
        IsFreed-IsValid mine s (without_entry start end i s) i start end v pos le x.has_start
          x.has_end r
          (remove_entry-IsBytes i s.reserved_ports v.table_bytes pos (omega (arith, v.count_le)))
          (disable_range-IsBytes start end s.io_map v.map_bytes))

  free_walk_lem :
      (n : ℕ)
      → n ≤ count s
      → ((i : ℕ) → n < i → i ≤ count s → ¬ IsEntry s.reserved_ports i tid start end)
      → FreeOutcome mine s start end tid (free_walk start end tid s n)
  unfolding free_walk
  free_walk_lem zero le none_above = not_found none_above refl
  free_walk_lem (suc n) le none_above = elim (Bool-cases (found (suc n))) [
    | inl hit ↦ rw hit (free_at (suc n) (omega arith) le (found-IsEntry (suc n) hit))
    | inr miss ↦ rw miss (free_walk_lem n (omega arith) (none_from n miss none_above))
  ]
    where
      none_from :
          (n : ℕ)
          → found (suc n) ≡ false
          → ((i : ℕ) → suc n < i → i ≤ count s → ¬ IsEntry s.reserved_ports i tid start end)
          → (i : ℕ) → n < i
          → i ≤ count s
          → ¬ IsEntry s.reserved_ports i tid start end
      none_from n miss above i lt le = elim (dec_lt (suc n) i) [
        | yes gt ↦ above i gt le
        | no eq ↦ let here : i ≡ suc n = omega arith in rw here (other-IsEntry (suc n) miss)
      ]

  -- On a valid state `free_port_area` takes an entry out exactly when one has this thread and
  -- range, denies its ports and no other, and keeps the state valid.
  pub free_port_area_outcome : FreeOutcome mine s start end tid (free_port_area start end tid s)
  unfolding free_port_area
  free_port_area_outcome = free_walk_lem (count s) (omega arith) (λ i lt le. absurd (omega arith))
