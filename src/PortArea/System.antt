-- ===== src/PortArea/System.antt =====
-- A call of system call 46, and a reservation followed by its release.
use kolibri_os_reloaded.Base.{ℕ, ◌+◌, ◌^◌, ◌≤◌, ◌<◌, ◌≡◌, inl, inr, arith, ◌==◌, Bool-cases}
use native.Mathlib.Decide.{dec_lt, dec_le}
use kolibri_os_reloaded.Base.Bitmap.{map_bit, map_bit-le}
use kolibri_os_reloaded.PortArea.{Ports, r_f_port_area, reserve_port_area, free_port_area}
use kolibri_os_reloaded.PortArea.Table.{SameEntry, IsEntry, SameEntry-trans}
use kolibri_os_reloaded.PortArea.Invariant.{count, IsValid}
use kolibri_os_reloaded.PortArea.Reserve.{
  CanReserve, IsReserved, ReserveOutcome, entered, refused, reserve_port_area_outcome,
}
use kolibri_os_reloaded.PortArea.Free.{FreeOutcome, freed, not_found, free_port_area_outcome}

ReserveOutcome-IsValid :
    (mine : ℕ → Type 0) (s : Ports) (start end tid : ℕ) (r : Ports × ℕ)
    → IsValid mine s
    → ReserveOutcome mine s start end tid r
    → IsValid mine r.0
ReserveOutcome-IsValid mine s start end tid r v (entered c e x w) = w
ReserveOutcome-IsValid mine s start end tid r v (refused c e) = rw e v

FreeOutcome-IsValid :
    (mine : ℕ → Type 0) (s : Ports) (start end tid : ℕ) (r : Ports × ℕ)
    → IsValid mine s
    → FreeOutcome mine s start end tid r
    → IsValid mine r.0
FreeOutcome-IsValid mine s start end tid r v (freed i pos le x e y w) = w
FreeOutcome-IsValid mine s start end tid r v (not_found n e) = rw e v

-- Any call of system call 46 by one of the bitmap's threads keeps the state valid.
pub r_f_port_area-IsValid :
    (mine : ℕ → Type 0) (op start end tid : ℕ) (s : Ports)
    → mine tid
    → tid < 2 ^ 32
    → IsValid mine s
    → IsValid mine (r_f_port_area op start end tid s).0
unfolding r_f_port_area
r_f_port_area-IsValid mine op start end tid s own small v = elim (Bool-cases (op == 0)) [
  | inl reserve ↦ rw reserve (
      ReserveOutcome-IsValid mine s start end tid _ v
        (reserve_port_area_outcome mine s start end tid v own small))
  | inr release ↦
      rw release (
        FreeOutcome-IsValid mine s start end tid _ v
          (free_port_area_outcome mine s start end tid v))
]

-- `u` has the entries and the permissions of `s`.
pub record IsRestored (s u : Ports) : Type 0 where
  pub same_count : count u ≡ count s
  pub same_entries : (j : ℕ) → 0 < j → j ≤ count s → SameEntry u.reserved_ports j s.reserved_ports j
  pub same_access : (p : ℕ) → map_bit u.io_map p ≡ map_bit s.io_map p

module _ (mine : ℕ → Type 0) (s t : Ports) (start end tid : ℕ) (v : IsValid mine s)
    (c : CanReserve s start end) (r : IsReserved s start end tid t) where
  -- The freed entry can only be the new one, which is apart from all others.
  freed_last :
      (i : ℕ) → 0 < i → i ≤ count t → IsEntry t.reserved_ports i tid start end → i ≡ count s + 1
  freed_last i pos le x = elim (dec_le i (count s)) [
    | no new ↦ omega (arith, r.one_more)
    | yes old ↦
        let e = r.others i pos old in
        absurd
          (omega (arith, c.is_apart i pos old, c.in_order, e.start, e.end, x.has_start, x.has_end))
  ]

  -- The ports of a range that can be reserved are denied before.
  denied_before : (p : ℕ) → start ≤ p → p ≤ end → map_bit s.io_map p ≡ 1
  denied_before p lo hi = elim (dec_lt 0 (map_bit s.io_map p)) [
    | yes set ↦ omega (arith, map_bit-le s.io_map p)
    | no clear ↦
        let (i, pos, le, owned, cover) = v.only p (omega (arith, c.is_port)) (omega arith) in
        absurd (omega (arith, c.is_apart i pos le, cover))
  ]

  after_release :
      (z : Ports × ℕ) → FreeOutcome mine t start end tid z → (z.1 ≡ 0) × IsRestored s z.0
  after_release z (not_found none_there e) =
      absurd (none_there (count s + 1) (omega arith) (omega (arith, r.one_more)) r.last)
  after_release z (freed i pos le x e f w) =
      let here = freed_last i pos le x in
      (
        e,
        record {
          same_count = omega (arith, f.one_less, r.one_more);
          same_entries = λ j p q. SameEntry-trans (f.before j p (omega arith)) (r.others j p q);
          same_access = λ p. ground (arith, f.denied p, r.allowed p, denied_before p);
        },
      )

after_reserve :
    (mine : ℕ → Type 0) (s : Ports) (start end tid : ℕ) (y : Ports × ℕ)
    → IsValid mine s
    → CanReserve s start end
    → ReserveOutcome mine s start end tid y
    → ((free_port_area start end tid y.0).1 ≡ 0) × IsRestored s (free_port_area start end tid y.0).0
after_reserve mine s start end tid y v c (refused no_way e) = absurd (no_way c)
after_reserve mine s start end tid y v c (entered _ e r w) =
    after_release mine s y.0 start end tid v c r (free_port_area start end tid y.0)
      (free_port_area_outcome mine y.0 start end tid w)

-- On a valid state, one of the threads of the bitmap that reserves a range which can be reserved and
-- then frees it succeeds, and the table's entries, its count and
-- the permission of every port are as they were before.
pub free_port_area-reserve_port_area :
    (mine : ℕ → Type 0) (s : Ports) (start end tid : ℕ)
    → IsValid mine s
    → mine tid
    → tid < 2 ^ 32
    → CanReserve s start end
    → let t = (reserve_port_area start end tid s).0 in
      ((free_port_area start end tid t).1 ≡ 0) × IsRestored s (free_port_area start end tid t).0
free_port_area-reserve_port_area mine s start end tid v own small c =
    after_reserve mine s start end tid (reserve_port_area start end tid s) v c
      (reserve_port_area_outcome mine s start end tid v own small)
