-- ===== src/PortArea/Reserve.antt =====
-- `reserve_port_area`: a new range is entered exactly when it is a range of ports, there is room and
-- it is apart from every entry.
use kolibri_os_reloaded.Base.{
  ℕ, ◌+◌, ◌^◌, ◌≤◌, ◌<◌, ◌≡◌, ◌⊎◌, inl, inr, refl, ◌∙◌, arith, ◌&&◌, leb, if◌then◌else◌, u32, true,
  Bool-cases,
}
use native.Mathlib.Decide.{dec_lt, dec_le}
use kolibri_os_reloaded.Base.Memory.{IsBytes, store_u32, store_u32-IsBytes, load_u32-store_u32}
use kolibri_os_reloaded.Base.Bitmap.{map_bit}
use kolibri_os_reloaded.PortArea.{
  Ports, entry_tid, entry_start, entry_end, overlaps, write_entry, enable_range, reserve_port_area,
}
use kolibri_os_reloaded.PortArea.Ranges.{enable_range-IsBytes, map_bit-enable_range}
use kolibri_os_reloaded.PortArea.Table.{
  SameEntry, IsEntry, write_entry-IsBytes, write_entry-IsEntry, write_entry-SameEntry,
  write_entry_count, store_count-SameEntry, SameEntry-trans,
}
use kolibri_os_reloaded.PortArea.Invariant.{
  count, IsCovered, IsApart, IsValid, IsApart-of_no_overlap, no_overlap,
}

-- The range `start` to `end` can be reserved.
pub record CanReserve (s : Ports) (start end : ℕ) : Type 0 where
  pub in_order : start ≤ end
  pub is_port : end < 65536
  pub has_room : count s < 255
  pub is_apart : (i : ℕ) → 0 < i → i ≤ count s → IsApart s start end i

-- `t` is `s` with one more entry and the ports of its range allowed.
pub record IsReserved (s : Ports) (start end tid : ℕ) (t : Ports) : Type 0 where
  pub one_more : count t ≡ count s + 1
  pub last : IsEntry t.reserved_ports (count s + 1) tid start end
  pub others : (j : ℕ) → 0 < j → j ≤ count s → SameEntry t.reserved_ports j s.reserved_ports j
  pub allowed :
      (p : ℕ) → map_bit t.io_map p ≡ (if leb start p && leb p end then 0 else map_bit s.io_map p)

abbrev with_entry : ℕ → ℕ → ℕ → Ports → Ports
with_entry start end tid s = record {
  reserved_ports =
      write_entry (store_u32 s.reserved_ports 0 (u32 (count s + 1))) (u32 (count s + 1)) tid start
        end;
  io_map = enable_range start end s.io_map;
}

reserve_enters :
    (s : Ports) (start end tid : ℕ)
    → CanReserve s start end
    → reserve_port_area start end tid s ≡ (with_entry start end tid s, 0)
unfolding reserve_port_area
reserve_enters s start end tid c =
    let apart = no_overlap s start end (count s) c.is_apart in
    ground (arith, c.in_order, c.is_port, c.has_room, apart)

with_entry-IsReserved :
    (s : Ports) (start end tid : ℕ)
    → IsBytes s.io_map
    → tid < 2 ^ 32
    → CanReserve s start end
    → IsReserved s start end tid (with_entry start end tid s)
with_entry-IsReserved s start end tid bytes small c =
    let n : u32 (count s + 1) ≡ count s + 1 = omega (arith, c.has_room) in
    rw n (record {
      one_more =
          write_entry_count _ (count s + 1) tid start end (omega arith)
          ∙ load_u32-store_u32 s.reserved_ports 0 (count s + 1) (omega (arith, c.has_room));
      last =
          write_entry-IsEntry _ (count s + 1) tid start end small
            (omega (arith, c.in_order, c.is_port)) (omega (arith, c.is_port));
      others = λ j pos le.
          SameEntry-trans (write_entry-SameEntry _ (count s + 1) tid start end j (omega arith))
            (store_count-SameEntry s.reserved_ports (count s + 1) j pos);
      allowed = map_bit-enable_range start end s.io_map bytes c.in_order c.is_port;
    })

module _ (mine : ℕ → Type 0) (s t : Ports) (start end tid : ℕ) (v : IsValid mine s) (own : mine tid)
    (c : CanReserve s start end) (r : IsReserved s start end tid t) where
  -- An entry of the new table is the new one or the old one at its place.
  same_range :
      (i : ℕ)
      → 0 < i
      → i ≤ count s
      → (entry_start t.reserved_ports i ≡ entry_start s.reserved_ports i)
        × (entry_end t.reserved_ports i ≡ entry_end s.reserved_ports i)
  same_range i pos le = let e = r.others i pos le in (e.start, e.end)

  last_range :
      (i : ℕ)
      → i ≤ count t
      → ¬ (i ≤ count s)
      → (i ≡ count s + 1)
        × (entry_start t.reserved_ports i ≡ start)
        × (entry_end t.reserved_ports i ≡ end)
  last_range i le out =
      let here : i ≡ count s + 1 = omega (arith, r.one_more) in
      (here, rw here r.last.has_start, rw here r.last.has_end)

  IsReserved-is_range :
      (i : ℕ)
      → 0 < i
      → i ≤ count t
      → (entry_start t.reserved_ports i ≤ entry_end t.reserved_ports i)
        × (entry_end t.reserved_ports i < 65536)
  IsReserved-is_range i pos le = elim (dec_le i (count s)) [
    | yes old ↦ omega (arith, same_range i pos old, v.is_range i pos old)
    | no new ↦ omega (arith, last_range i le new, c.in_order, c.is_port)
  ]

  IsReserved-IsApart :
      (i j : ℕ)
      → 0 < i
      → i < j
      → j ≤ count t
      → IsApart t (entry_start t.reserved_ports j) (entry_end t.reserved_ports j) i
  IsReserved-IsApart i j pos lt le =
      let old : i ≤ count s = omega (arith, r.one_more) in
      elim (dec_le j (count s)) [
        | yes both ↦
            omega (
              arith,
              same_range i pos old,
              same_range j (omega arith) both,
              v.apart i j pos lt both,
            )
        | no new ↦ omega (arith, same_range i pos old, last_range j le new, c.is_apart i pos old)
      ]

  IsReserved-granted :
      (i p : ℕ)
      → 0 < i
      → i ≤ count t
      → mine (entry_tid t.reserved_ports i)
      → IsCovered t i p
      → map_bit t.io_map p ≡ 0
  IsReserved-granted i p pos le owned cover = elim (dec_le i (count s)) [
    | yes old ↦
        (let same = r.others i pos old in
          ground (
            arith,
            r.allowed p,
            v.granted i p pos old (rw same.tid at owned) (omega (arith, same_range i pos old)),
          ))
    | no new ↦ ground (arith, r.allowed p, last_range i le new)
  ]

  IsReserved-only :
      (p : ℕ)
      → p < 65536
      → map_bit t.io_map p ≡ 0
      → (i : ℕ) × (0 < i) × (i ≤ count t) × mine (entry_tid t.reserved_ports i) × IsCovered t i p
  IsReserved-only p small e = elim (Bool-cases (leb start p && leb p end)) [
    | inl inside ↦ (
      count s + 1,
      omega arith,
      omega (arith, r.one_more),
      rw r.last.has_tid own,
      (ground (arith, r.last.has_start), ground (arith, r.last.has_end)),
    )
    | inr outside ↦
        let (i, pos, le, owned, cover) = v.only p small (ground (arith, r.allowed p)) in
        (
          i,
          pos,
          omega (arith, r.one_more),
          rw (r.others i pos le).tid owned,
          (omega (arith, same_range i pos le), omega (arith, same_range i pos le)),
        )
  ]

  IsReserved-IsValid : IsBytes t.reserved_ports → IsBytes t.io_map → IsValid mine t
  IsReserved-IsValid tb mb = record {
    table_bytes = tb;
    map_bytes = mb;
    count_le = omega (arith, r.one_more, c.has_room);
    is_range = IsReserved-is_range;
    apart = IsReserved-IsApart;
    granted = IsReserved-granted;
    only = IsReserved-only;
  }

-- How a call of `reserve_port_area` ends: with result 0 and the new entry, on a range that can be
-- reserved; or with result 1 and the state unchanged, on one that cannot.
pub data ReserveOutcome (mine : ℕ → Type 0) (s : Ports) (start end tid : ℕ) (r : Ports × ℕ)
    : Type 0 where
  entered :
      CanReserve s start end
      → r.1 ≡ 0
      → IsReserved s start end tid r.0
      → IsValid mine r.0
      → ReserveOutcome mine s start end tid r
  refused : ¬ CanReserve s start end → r ≡ (s, 1) → ReserveOutcome mine s start end tid r

reserve_refused :
    (s : Ports) (start end tid : ℕ)
    → (end < start)
      ⊎ (65536 ≤ end)
      ⊎ (255 ≤ count s)
      ⊎ ((0 < count s) × (overlaps s.reserved_ports start end (count s) ≡ true))
    → reserve_port_area start end tid s ≡ (s, 1)
unfolding reserve_port_area
reserve_refused s start end tid h = ground arith

reserve_entered :
    (mine : ℕ → Type 0) (s : Ports) (start end tid : ℕ)
    → IsValid mine s
    → mine tid
    → tid < 2 ^ 32
    → CanReserve s start end
    → ReserveOutcome mine s start end tid (reserve_port_area start end tid s)
reserve_entered mine s start end tid v own small c =
    let r = with_entry-IsReserved s start end tid v.map_bytes small c in
    rw (reserve_enters s start end tid c) (
      entered c refl r (
        IsReserved-IsValid mine s (with_entry start end tid s) start end tid v own c r
          (write_entry-IsBytes _ _ tid start end
            (store_u32-IsBytes s.reserved_ports 0 _ v.table_bytes))
          (enable_range-IsBytes start end s.io_map v.map_bytes)))

by_overlap :
    (mine : ℕ → Type 0) (s : Ports) (start end tid : ℕ)
    → IsValid mine s
    → mine tid
    → tid < 2 ^ 32
    → start ≤ end
    → end < 65536
    → count s < 255
    → ReserveOutcome mine s start end tid (reserve_port_area start end tid s)
by_overlap mine s start end tid v own small in_order is_port has_room =
    elim (Bool-cases (overlaps s.reserved_ports start end (count s))) [
      | inr clear ↦ reserve_entered mine s start end tid v own small (record {
        in_order = in_order;
        is_port = is_port;
        has_room = has_room;
        is_apart = IsApart-of_no_overlap s start end (count s) clear;
      })
      | inl overlap ↦
          refused (λ c. cc (no_overlap s start end (count s) c.is_apart))
            (reserve_refused s start end tid (inr (inr (inr (nonempty overlap, overlap)))))
    ]
  where
    nonempty : overlaps s.reserved_ports start end (count s) ≡ true → 0 < count s
    nonempty overlap = elim (dec_lt 0 (count s)) [
      | yes pos ↦ pos
      | no empty ↦ cc (no_overlap s start end (count s) (λ i pos le. absurd (omega arith)))
    ]

-- On a valid state, and for one of the threads whose entries its bitmap allows, `reserve_port_area` enters the range exactly when it is in order and below
-- 65536, the table has room and the range is apart from every entry; the state stays valid.
pub reserve_port_area_outcome :
    (mine : ℕ → Type 0) (s : Ports) (start end tid : ℕ)
    → IsValid mine s
    → mine tid
    → tid < 2 ^ 32
    → ReserveOutcome mine s start end tid (reserve_port_area start end tid s)
reserve_port_area_outcome mine s start end tid v own small = elim (dec_le start end) [
  | no reversed ↦ refused (λ c. reversed c.in_order) (reserve_refused s start end tid (omega arith))
  | yes in_order ↦ elim (dec_lt end 65536) [
    | no high ↦ refused (λ c. high c.is_port) (reserve_refused s start end tid (omega arith))
    | yes is_port ↦ elim (dec_lt (count s) 255) [
      | no full ↦ refused (λ c. full c.has_room) (reserve_refused s start end tid (omega arith))
      | yes has_room ↦ by_overlap mine s start end tid v own small in_order is_port has_room
    ]
  ]
]
