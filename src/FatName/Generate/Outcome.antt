-- ===== src/FatName/Generate/Outcome.antt =====
-- The short name that `fat_gen_short_name` makes.
use kolibri_os_reloaded.Base.{
  ℕ, zero, suc, ◌+◌, ◌^◌, ◌≤◌, ◌<◌, bit_and, ◌≡◌, ◌≢◌, ◌⊎◌, inl, inr, refl, ◌∙◌, arith, Option,
  none, some, Bool, false, ◌&&◌, ltb, leb, ◌==◌, eq_cases, if◌then◌else◌, ◌>>=◌,
}
use kolibri_os_reloaded.Base.Memory.{
  Memory, store_u8, first_cell, next_cell, store_u8_same, store_u8_other,
}
use kolibri_os_reloaded.Base.Fields.{bit_and_bit}
use kolibri_os_reloaded.FatName.{fat_next_short_name}
use kolibri_os_reloaded.FatName.Frame.{Framed, fat_next_short_name-Framed}
use kolibri_os_reloaded.FatName.Generate.{
  Gen, fill_spaces, gen_step, gen_loop, gen_start, numbered, fat_gen_short_name,
}
use kolibri_os_reloaded.FatName.Generate.Safe.{IsShort, Sound}
use kolibri_os_reloaded.FatName.Generate.Loop.{gen_step-Sound}

pub filled :
    (left i : ℕ) (m : Memory) (out b : ℕ)
    → fill_spaces left i m out b
      ≡ (if leb (out + i) b && ltb b (out + (i + left)) then b' ' else m b)
unfolding fill_spaces
filled zero i m out b = ground arith
filled (suc left) i m out b =
    let rest = filled left (i + 1) (store_u8 m (out + i) b' ') out b in
    elim (eq_cases (out + i) b) [
      | inl e ↦ ground (arith, rest, rw e at (store_u8_same m (out + i) b' '))
      | inr e ↦ ground (arith, rest, store_u8_other m (out + i) b' ' b e)
    ]

start-Sound : (m : Memory) (out : ℕ) → Sound (fill_spaces 12 0 m out) out (gen_start m out)
start-Sound m out =
    let none_set = bit_and_bit 1 0 in
    record {
      room = omega arith;
      field = omega arith;
      flags = omega arith;
      no_dot = λ e. refl;
      dotted = λ e. absurd (omega arith);
      short = λ j less. inl (ground (arith, filled 12 0 m out (out + j)));
      frame = λ b outside. refl;
    }

-- The string, which the name does not overlap, is what the loop reads, up to its NUL.
looped :
    (n fuel : ℕ) (m : Memory) (src out : ℕ) (g : Gen)
    → n < fuel
    → (src + n < out) ⊎ (out + 11 ≤ src)
    → ((i : ℕ) → i < n → m (src + i) ≢ 0)
    → m (src + n) ≡ 0
    → Sound m out g
    → (g' : Gen) × (gen_loop fuel src g out ≡ some g') × Sound m out g'
unfolding gen_loop
looped n zero m src out g enough apart bytes nul sound = absurd (omega arith)
looped zero (suc fuel) m src out g enough apart bytes nul sound =
    let end : g.mem src ≡ 0 = sound.frame src (omega arith) ∙ rw (first_cell src) at nul in
    (g, rw end refl, sound)
looped (suc n) (suc fuel) m src out g enough apart bytes nul sound =
    let read : g.mem src ≡ m src = sound.frame src (omega arith) in
    let given = rw (first_cell src) at (bytes 0 (omega arith)) in
    let no_nul : ((g.mem src == 0) ≡ false) = ground arith in
    rw no_nul (
      looped n fuel m (src + 1) out (gen_step (g.mem src) g out) (omega arith) (omega arith)
        (λ i less. rw (next_cell src i) at (bytes (suc i) (omega arith)))
        (rw (next_cell src n) at nul) (gen_step-Sound (g.mem src) m out g sound))

-- A result that differs from the memory before in twelve cells at most, with an extension of
-- characters of a short name.
abbrev KeepsRest : Memory → ℕ → Option Memory → Type 0
KeepsRest m out none = Unit
KeepsRest m out (some m') =
    ((b : ℕ) → (b < out) ⊎ (out + 12 ≤ b) → m' b ≡ m b)
    × ((j : ℕ) → 8 ≤ j → j < 11 → IsShort (m' (out + j)))

-- A name that the loop makes, and the result: the name itself, or the name with a number.
abbrev Made : Memory → ℕ → Option Memory → Type 0
Made m out result =
    (g : Gen) × Sound (fill_spaces 12 0 m out) out g
    × (((bit_and g.bh 1 ≡ 0) × (result ≡ some g.mem))
        ⊎ ((bit_and g.bh 1 ≢ 0)
            × (result ≡ (do (m', ok) ← fat_next_short_name g.mem out; some m'))))
    × KeepsRest m out result

numbered-KeepsRest :
    (m : Memory) (out : ℕ) (g : Gen) (next : Option (Memory × Bool))
    → ((b : ℕ) → (b < out) ⊎ (out + 12 ≤ b) → g.mem b ≡ m b)
    → ((j : ℕ) → j < 11 → IsShort (g.mem (out + j)))
    → Framed g.mem out next
    → KeepsRest m out (do (m', ok) ← next; some m')
numbered-KeepsRest m out g none frame short framed = tt
numbered-KeepsRest m out g (some (m', ok)) frame short framed = (
  λ b outside. framed b (omega arith) ∙ frame b outside,
  λ j le less. rw (framed (out + j) (omega arith)) (short j less),
)

not_zero : (x : ℕ) → x ≢ 0 → (x == 0) ≡ false
not_zero x h = ground arith

pub numbered_exact : (g : Gen) (out : ℕ) → bit_and g.bh 1 ≡ 0 → numbered g out ≡ some g.mem
unfolding numbered
numbered_exact g out exact = rw exact refl

numbered_lossy :
    (g : Gen) (out : ℕ)
    → bit_and g.bh 1 ≢ 0
    → numbered g out ≡ (do (m', ok) ← fat_next_short_name g.mem out; some m')
unfolding numbered
numbered_lossy g out lost = rw (not_zero (bit_and g.bh 1) lost) refl

-- The numbering at the end.
closed :
    (m m0 : Memory) (out : ℕ) (g : Gen)
    → Sound m0 out g
    → ((b : ℕ) → (b < out) ⊎ (out + 12 ≤ b) → g.mem b ≡ m b)
    → (((bit_and g.bh 1 ≡ 0) × (numbered g out ≡ some g.mem))
        ⊎ ((bit_and g.bh 1 ≢ 0)
            × (numbered g out ≡ (do (m', ok) ← fat_next_short_name g.mem out; some m'))))
      × KeepsRest m out (numbered g out)
closed m m0 out g sound frame = elim (eq_cases (bit_and g.bh 1) 0) [
  | inl exact ↦
      (let same = numbered_exact g out exact in
        (inl (exact, same), rw same (frame, λ j le less. sound.short j (omega arith))))
  | inr lost ↦
      (let same = numbered_lossy g out lost in
        (
          inr (lost, same),
          rw same (
              numbered-KeepsRest m out g (fat_next_short_name g.mem out) frame sound.short
                (fat_next_short_name-Framed g.mem out)),
        ))
]

-- From a long name that ends with a NUL and does not overlap the short one, the loop makes a short
-- name: eleven bytes, each a space or an allowed character that is no dot and no small letter. That
-- is the result when the loop set no flag of a lossy conversion; else it is numbered. The twelve bytes
-- at `out` are all that changes, and the extension still has characters of a short name.
fat_gen_short_name-Made :
    (m : Memory) (src out n : ℕ)
    → n < 2 ^ 32
    → (src + n < out) ⊎ (out + 12 ≤ src)
    → ((i : ℕ) → i < n → m (src + i) ≢ 0)
    → m (src + n) ≡ 0
    → Made m out (fat_gen_short_name m src out)
unfolding fat_gen_short_name
fat_gen_short_name-Made m src out n small apart bytes nul =
    let m0 = fill_spaces 12 0 m out in
    let kept : (b : ℕ) → (b < out) ⊎ (out + 12 ≤ b) → m0 b ≡ m b =
      λ b outside. ground (arith, filled 12 0 m out b) in
    let (g, result, sound) =
      looped n (2 ^ 32) m0 src out (gen_start m out) small (omega arith)
        (λ i less. rw (kept (src + i) (omega arith)) (bytes i less))
        (kept (src + n) (omega arith) ∙ nul) (start-Sound m out) in
    let frame : (b : ℕ) → (b < out) ⊎ (out + 12 ≤ b) → g.mem b ≡ m b =
      λ b outside. sound.frame b (omega arith) ∙ kept b outside in
    let (choice, kept_rest) = closed m m0 out g sound frame in
    rw result (g, sound, choice, kept_rest)
