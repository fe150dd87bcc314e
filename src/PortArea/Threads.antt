-- ===== src/PortArea/Threads.antt =====
-- Sequences of calls of system call 46 by several threads. The table of reservations is the
-- kernel's, and each thread has a permission bitmap of its own: the scheduler of the kernel puts the
-- bitmap of a thread into the task state segment when it switches to it (`APPDATA.io_map`), so that a
-- call works on the bitmap of the thread that makes it.
use kolibri_os_reloaded.Base.{
  ℕ, ◌+◌, ◌-◌, ◌^◌, ◌≤◌, ◌<◌, ◌≡◌, ◌≢◌, refl, true, false, sym, ◌∙◌, arith, List, [], ◌∷◌, ◌==◌,
  if◌then◌else◌, suc, Bool-cases, inl, inr, eq_cases,
}
use native.Mathlib.Decide.{dec_lt, dec_le}
use kolibri_os_reloaded.Base.Memory.{Memory}
use kolibri_os_reloaded.PortArea.{Ports, r_f_port_area}
use kolibri_os_reloaded.PortArea.Table.{IsEntry}
use kolibri_os_reloaded.PortArea.Invariant.{count, IsValid}
use kolibri_os_reloaded.PortArea.Reserve.{
  IsReserved, ReserveOutcome, entered, refused, reserve_port_area_outcome,
}
use kolibri_os_reloaded.PortArea.Free.{
  IsFreed, FreeOutcome, freed, not_found, free_port_area_outcome,
}
use kolibri_os_reloaded.PortArea.System.{r_f_port_area-IsValid}

pub record Request : Type 0 where
  pub op : ℕ
  pub start : ℕ
  pub end : ℕ
  pub tid : ℕ

pub record KernelPorts : Type 0 where
  pub table : Memory
  pub io_maps : ℕ → Memory

-- What a thread's call works on.
abbrev pub ports_of : KernelPorts → ℕ → Ports
ports_of k tid = record { reserved_ports = k.table; io_map = k.io_maps tid }

unfoldable pub call : Request → KernelPorts → KernelPorts
call q k =
    let after = (r_f_port_area q.op q.start q.end q.tid (ports_of k q.tid)).0 in
    record {
      table = after.reserved_ports;
      io_maps = λ tid. if tid == q.tid then after.io_map else k.io_maps tid;
    }

unfoldable pub serve : List Request → KernelPorts → KernelPorts
serve [] k = k
serve (q ∷ qs) k = serve qs (call q k)

abbrev HasThreads : (ℕ → Type 0) → List Request → Type 0
HasThreads callers [] = Unit {0}
HasThreads callers (q ∷ qs) = callers q.tid × (q.tid < 2 ^ 32) × HasThreads callers qs

-- The bitmap of each of the callers allows exactly the ports of this thread's entries, and the
-- entries, of all threads, are apart.
abbrev pub IsFair : (ℕ → Type 0) → KernelPorts → Type 0
IsFair callers k = (tid : ℕ) → callers tid → IsValid (λ t. t ≡ tid) (ports_of k tid)

-- The ports of a thread that does not make the call: the caller's table and its own bitmap.
abbrev beside : Ports → Ports → Ports
beside t u = record { reserved_ports = t.reserved_ports; io_map = u.io_map }

module _ (s u : Ports) (tid other : ℕ) (ne : other ≢ tid)
    (same_table : u.reserved_ports ≡ s.reserved_ports) (v : IsValid (λ t. t ≡ other) u) where
  reserved-IsValid :
      (t : Ports) (start end : ℕ)
      → IsReserved s start end tid t
      → IsValid (λ t. t ≡ tid) t
      → IsValid (λ t. t ≡ other) (beside t u)
  reserved-IsValid t start end r w = record {
    table_bytes = w.table_bytes;
    map_bytes = v.map_bytes;
    count_le = w.count_le;
    is_range = w.is_range;
    apart = w.apart;
    granted = λ i p pos le owned cover. elim (dec_le i (count s)) [
      | yes old ↦
          (let same = r.others i pos old in
            v.granted i p pos (rw same_table old) (rw same_table (sym same.tid ∙ owned))
              (rw same_table (omega (arith, same.start, same.end, cover))))
      | no new ↦
          (let here : i ≡ count s + 1 = omega (arith, r.one_more) in
            absurd (ne (sym (rw here at owned) ∙ r.last.has_tid)))
    ];
    only = λ p small e.
        (let (i, pos, le, owned, cover) = v.only p small e in
          let old = rw same_table at le in
          let same = r.others i pos old in
          (
            i,
            pos,
            omega (arith, r.one_more),
            same.tid ∙ (rw same_table at owned),
            (
              omega (arith, same.start, rw same_table at cover),
              omega (arith, same.end, rw same_table at cover),
            ),
          ));
  }

  freed-IsValid :
      (t : Ports) (k start end : ℕ)
      → 0 < k
      → k ≤ count s
      → IsEntry s.reserved_ports k tid start end
      → IsFreed s k start end t
      → IsValid (λ t. t ≡ tid) t
      → IsValid (λ t. t ≡ other) (beside t u)
  freed-IsValid t k start end pos_k le_k x r w = record {
    table_bytes = w.table_bytes;
    map_bytes = v.map_bytes;
    count_le = w.count_le;
    is_range = w.is_range;
    apart = w.apart;
    granted = λ i p pos le owned cover. elim (dec_lt i k) [
      | yes low ↦
          (let same = r.before i pos low in
            v.granted i p pos (rw same_table (omega (arith, r.one_less)))
              (rw same_table (sym same.tid ∙ owned))
              (rw same_table (omega (arith, same.start, same.end, cover))))
      | no high ↦
          (let same = r.behind i (omega arith) le in
            v.granted (suc i) p (omega arith) (rw same_table (omega (arith, r.one_less)))
              (rw same_table (sym same.tid ∙ owned))
              (rw same_table (omega (arith, same.start, same.end, cover))))
    ];
    only = λ p small e.
        (let (i, pos, le, owned, cover) = v.only p small e in
          let old = rw same_table at le in
          let mine = rw same_table at owned in
          let inside = rw same_table at cover in
          let not_freed : i ≢ k = λ e. ne (sym mine ∙ (rw (sym e) at x.has_tid)) in
          elim (dec_lt i k) [
            | yes low ↦
                (let same = r.before i pos low in
                  (
                    i,
                    pos,
                    omega (arith, r.one_less),
                    same.tid ∙ mine,
                    (omega (arith, same.start, inside), omega (arith, same.end, inside)),
                  ))
            | no high ↦
                (let prev : suc (i - 1) ≡ i = omega arith in
                  let same = r.behind (i - 1) (omega arith) (omega (arith, r.one_less)) in
                  (
                    i - 1,
                    omega arith,
                    omega (arith, r.one_less),
                    (rw prev at (same.tid)) ∙ mine,
                    (
                      omega (arith, rw prev at (same.start), inside),
                      omega (arith, rw prev at (same.end), inside),
                    ),
                  ))
          ]);
  }

module _ (callers : ℕ → Type 0) (k : KernelPorts) (q : Request) (other : ℕ) (ne : other ≢ q.tid)
    (own : callers q.tid) (its : callers other) (fair : IsFair callers k) where
  after_reserve :
      (r : Ports × ℕ)
      → ReserveOutcome (λ t. t ≡ q.tid) (ports_of k q.tid) q.start q.end q.tid r
      → IsValid (λ t. t ≡ other) (beside r.0 (ports_of k other))
  after_reserve r (entered c e x w) =
      reserved-IsValid (ports_of k q.tid) (ports_of k other) q.tid other ne refl (fair other its)
        r.0 q.start q.end x w
  after_reserve r (refused c e) = rw e (fair other its)

  after_free :
      (r : Ports × ℕ)
      → FreeOutcome (λ t. t ≡ q.tid) (ports_of k q.tid) q.start q.end q.tid r
      → IsValid (λ t. t ≡ other) (beside r.0 (ports_of k other))
  after_free r (freed i pos le x e y w) =
      freed-IsValid (ports_of k q.tid) (ports_of k other) q.tid other ne refl (fair other its) r.0 i
        q.start q.end pos le x y w
  after_free r (not_found n e) = rw e (fair other its)

  -- A call by another thread leaves the bitmap of this thread right for the table after the call.
  other-IsValid :
      q.tid < 2 ^ 32
      → IsValid
          (λ t. t ≡ other)
          (beside
            ((r_f_port_area q.op q.start q.end q.tid (ports_of k q.tid)).0)
            (ports_of k other))
  unfolding r_f_port_area
  other-IsValid small = elim (Bool-cases (q.op == 0)) [
    | inl reserve ↦ rw reserve (
        after_reserve _ (
          reserve_port_area_outcome (λ t. t ≡ q.tid) (ports_of k q.tid) q.start q.end q.tid
            (fair q.tid own) refl small))
    | inr release ↦ rw release (
        after_free _ (
          free_port_area_outcome (λ t. t ≡ q.tid) (ports_of k q.tid) q.start q.end q.tid
            (fair q.tid own)))
  ]

call-IsFair :
    (callers : ℕ → Type 0) (q : Request) (k : KernelPorts)
    → callers q.tid
    → q.tid < 2 ^ 32
    → IsFair callers k
    → IsFair callers (call q k)
unfolding call
call-IsFair callers q k own small fair tid its = elim (eq_cases tid q.tid) [
  | inl same ↦
      (let caller : ((q.tid == q.tid) ≡ true) = ground arith in
        rw (same, caller)
          (r_f_port_area-IsValid (λ t. t ≡ q.tid) q.op q.start q.end q.tid (ports_of k q.tid) refl
            small (fair q.tid own)))
  | inr ne ↦
      (let another : ((tid == q.tid) ≡ false) = ground arith in
        rw another (other-IsValid callers k q tid ne own its fair small))
]

-- When the bitmap of each of the threads `callers` allows exactly the ports of the thread's own
-- entries, and the entries are apart, that is still so after any sequence of calls by these threads,
-- with numbers of 32 bits and any ranges, each of which works on the table and on the bitmap of its own thread. The table
-- may hold entries of other threads, as those that the kernel puts there when it starts.
pub serve-IsFair :
    (callers : ℕ → Type 0) (qs : List Request) (k : KernelPorts)
    → HasThreads callers qs
    → IsFair callers k
    → IsFair callers (serve qs k)
unfolding serve
serve-IsFair callers [] k h fair = fair
serve-IsFair callers (q ∷ qs) k (own, small, rest) fair =
    serve-IsFair callers qs (call q k) rest (call-IsFair callers q k own small fair)
