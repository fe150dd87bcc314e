-- ===== src/Device/Wait.antt =====
-- `ahci_port_wait`: the wait for a port ends.
use kolibri_os_reloaded.Base.{
  ℕ, zero, suc, ◌+◌, ◌-◌, ◌≤◌, ◌<◌, bit_and, ◌≡◌, ◌≢◌, ◌⊎◌, inl, inr, refl, arith, Option, some,
  true, false, leb, ◌==◌, eq_cases, u32,
}
use native.Mathlib.Decide.{dec_le}
use kolibri_os_reloaded.Device.{ahci_port_wait, wait_rounds}

-- The register is busy or asks for data.
abbrev IsBusy : (ℕ → ℕ) → ℕ → Type 0
IsBusy read_tfd i = bit_and (read_tfd i) 0x88 ≢ 0

-- How a wait ends: the device is ready in a round before which it was busy and the time was not
-- up, or it was busy in each round until the time was up.
abbrev pub Waited : (ℕ → ℕ) → (ℕ → ℕ) → ℕ → ℕ → Option ℕ → Type 0
Waited read_tfd read_ticks deadline i result =
    (k : ℕ) × ((j : ℕ) → j < k → IsBusy read_tfd (i + j) × (read_ticks (i + j + 1) < deadline))
    × (((result ≡ some 0) × (bit_and (read_tfd (i + k)) 0x88 ≡ 0))
        ⊎ ((result ≡ some 1) × IsBusy read_tfd (i + k) × (deadline ≤ read_ticks (i + k + 1))))

wait_rounds-Waited :
    (fuel i : ℕ) (read_tfd read_ticks : ℕ → ℕ) (deadline n : ℕ)
    → n < fuel
    → deadline ≤ read_ticks (i + n + 1)
    → Waited read_tfd read_ticks deadline i (wait_rounds read_tfd read_ticks deadline fuel i)
unfolding wait_rounds
wait_rounds-Waited zero i read_tfd read_ticks deadline n enough late = absurd (omega arith)
wait_rounds-Waited (suc fuel) i read_tfd read_ticks deadline n enough late =
    let here : i + 0 ≡ i = omega arith in
    elim (eq_cases (bit_and (read_tfd i) 0x88) 0) [
      | inl ready ↦ rw ready (0, λ j less. absurd (omega arith), inl (refl, rw here ready))
      | inr busy ↦
          (let not_ready : ((bit_and (read_tfd i) 0x88 == 0) ≡ false) = ground arith in
            elim (dec_le deadline (read_ticks (i + 1))) [
              | yes up ↦
                  (let time_up : (leb deadline (read_ticks (i + 1)) ≡ true) = ground arith in
                    rw (not_ready, time_up)
                      (0, λ j less. absurd (omega arith), inr (refl, rw here busy, rw here up)))
              | no early ↦
                  (let time_left : (leb deadline (read_ticks (i + 1)) ≡ false) = ground arith in
                    let later : 0 < n = elim (eq_cases n 0) [
                      | inl z ↦ absurd (early (rw (z, here) at late))
                      | inr p ↦ omega arith
                    ] in
                    let shift : i + n + 1 ≡ i + 1 + (n - 1) + 1 = omega arith in
                    let (k, before, end) =
                      wait_rounds-Waited fuel (i + 1) read_tfd read_ticks deadline (n - 1)
                        (omega arith) (rw shift at late) in
                    let there : i + 1 + k ≡ i + suc k = omega arith in
                    rw (not_ready, time_left)
                      (
                        suc k,
                        λ j less. elim (eq_cases j 0) [
                          | inl z ↦ rw (z, here) (busy, omega arith)
                          | inr p ↦
                              (let back : i + j ≡ i + 1 + (j - 1) = omega arith in
                                rw back (before (j - 1) (omega arith)))
                        ],
                        rw there at end,
                      ))
            ])
    ]

-- As soon as some reading of the ticks is at the deadline or past it, the wait ends: with 0 in the
-- first round that finds the device neither busy nor asking for data, if the time was not up
-- before, and else with 1 in the first round behind the deadline. `fuel` rounds are enough when the
-- reading after round `n` is that late and `n` is below it.
pub ahci_port_wait-Waited :
    (read_tfd read_ticks : ℕ → ℕ) (timeout fuel n : ℕ)
    → n < fuel
    → u32 (read_ticks 0 + timeout) ≤ read_ticks (n + 1)
    → Waited read_tfd read_ticks
        (u32 (read_ticks 0 + timeout))
        0
        (ahci_port_wait read_tfd read_ticks timeout fuel)
unfolding ahci_port_wait
ahci_port_wait-Waited read_tfd read_ticks timeout fuel n enough late =
    let start : 0 + n + 1 ≡ n + 1 = omega arith in
    wait_rounds-Waited fuel 0 read_tfd read_ticks (u32 (read_ticks 0 + timeout)) n enough
      (rw start late)
