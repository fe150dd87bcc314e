-- ===== src/FatName/Walk.antt =====
-- The stores of `fat_next_short_name` on a base name whose tilde is followed by digits and spaces.
use kolibri_os_reloaded.Base.{
  ℕ, zero, suc, ◌+◌, ◌-◌, ◌≤◌, ◌<◌, ◌≡◌, ◌≢◌, ◌⊎◌, refl, arith, some, false, ◌&&◌, ltb, leb, ◌==◌,
  if◌then◌else◌,
}
use kolibri_os_reloaded.Base.Memory.{Memory, store_u8}
use kolibri_os_reloaded.FatName.{zero_from, zerofill_to_end, walk, last_tilde}
use kolibri_os_reloaded.FatName.Digits.{IsDigit}

zero_from_lem :
    (start i name : ℕ) (m : Memory) (b : ℕ)
    → zero_from start i name m b ≡ (if leb start i && name + i == b then b'0' else m b)
unfolding zero_from store_u8
zero_from_lem start i name m b = ground arith

-- The first `k` of the guarded stores.
unfoldable fill : ℕ → ℕ → ℕ → Memory → Memory
fill zero start name m = m
fill (suc k) start name m = zero_from start k name (fill k start name m)

fill_lem :
    (k start name : ℕ) (m : Memory) (b : ℕ)
    → fill k start name m b
      ≡ (if leb start (b - name) && (leb name b && ltb b (name + k)) then b'0' else m b)
unfolding fill
fill_lem zero start name m b = ground arith
fill_lem (suc k) start name m b =
    ground (arith, zero_from_lem start k name (fill k start name m) b, fill_lem k start name m b)

zerofill_to_end_lem :
    (m : Memory) (name start b : ℕ)
    → zerofill_to_end m name start b
      ≡ (if leb start (b - name) && (leb name b && ltb b (name + 8)) then b'0' else m b)
unfolding zerofill_to_end fill
zerofill_to_end_lem m name start b = fill_lem 8 start name m b

pub zerofill_to_end_in :
    (m : Memory) (name start j : ℕ)
    → start ≤ j
    → j < 8
    → zerofill_to_end m name start (name + j) ≡ b'0'
zerofill_to_end_in m name start j le less =
    let back : name + j - name ≡ j = omega arith in
    ground (arith, rw back at (zerofill_to_end_lem m name start (name + j)))

pub zerofill_to_end_out :
    (m : Memory) (name start b : ℕ)
    → (b < name + start) ⊎ (name + 8 ≤ b)
    → zerofill_to_end m name start b ≡ m b
zerofill_to_end_out m name start b out = ground (arith, zerofill_to_end_lem m name start b)

-- The digits after a tilde at `t`, and what stands there: the tilde, `d` digits, then spaces.
abbrev pub digits_after : Memory → ℕ → ℕ → ℕ → ℕ
digits_after m name t i = m (name + (t + 1 + i))

pub record Numbered (m : Memory) (name t d : ℕ) : Type 0 where
  pub fits : t + 1 + d ≤ 8
  pub tilde : m (name + t) ≡ b'~'
  pub digits : (i : ℕ) → i < d → IsDigit (digits_after m name t i)
  pub spaces : (j : ℕ) → t + 1 + d ≤ j → j < 8 → m (name + j) ≡ b' '

-- The walk passes the spaces and counts them.
pub walk_spaces :
    (g e : ℕ) (m : Memory) (name c : ℕ)
    → ((j : ℕ) → e ≤ j → j < e + g → m (name + j) ≡ b' ')
    → walk (e + g) m name c ≡ walk e m name (c + g)
unfolding walk
walk_spaces zero e m name c spaces =
    let end : e + zero ≡ e = omega arith in
    let count : c + zero ≡ c = omega arith in rw (end, count) refl
walk_spaces (suc g) e m name c spaces =
    let more : e + suc g ≡ suc (e + g) = omega arith in
    let here = spaces (e + g) (omega arith) (omega arith) in
    let count : c + suc g ≡ c + 1 + g = omega arith in
    rw (more, here, count) (walk_spaces g e m name (c + 1) λ j le less. spaces j le (omega arith))

-- The search finds the tilde.
pub found_tilde :
    (g t : ℕ) (m : Memory) (name : ℕ)
    → m (name + t) ≡ b'~'
    → ((i : ℕ) → i < g → m (name + (t + 1 + i)) ≢ b'~')
    → last_tilde (t + 1 + g) m name ≡ some t
unfolding last_tilde
found_tilde zero t m name tilde others =
    let end : t + 1 + zero ≡ suc t = omega arith in rw (end, tilde) refl
found_tilde (suc g) t m name tilde others =
    let more : t + 1 + suc g ≡ suc (t + 1 + g) = omega arith in
    let no_tilde : ((m (name + (t + 1 + g)) == b'~') ≡ false) =
      ground (arith, others g (omega arith)) in
    rw (more, no_tilde) (found_tilde g t m name tilde λ i less. others i (omega arith))
