-- ===== src/Strings/Copy.antt =====
-- `strncpy`: exactly `n` bytes are written, those of the source up to its NUL, then zeros.
use kolibri_os_reloaded.Base.{
  ℕ, zero, suc, ◌+◌, ◌^◌, ◌≤◌, ◌<◌, ◌≡◌, ◌≢◌, ◌⊎◌, inl, refl, sym, arith, ◌∙◌, ◌==◌, ltb, ◌||◌,
  lt→ltb, ltb-false, Bool, true, false, if◌then◌else◌, u32,
}
use native.Mathlib.Decide.{dec_lt}
use kolibri_os_reloaded.Base.Memory.{Memory, store_u8, first_cell, store_u8_same, store_u8_other}
use kolibri_os_reloaded.Strings.{copy_or_pad, strncpy}

-- A round of the loop.
copy_round :
    (left : ℕ) (m : Memory) (s1 s2 i : ℕ) (saw_nul : Bool)
    → i + 1 < 2 ^ 32
    → copy_or_pad (suc left) m s1 s2 i saw_nul
      ≡ copy_or_pad left
          (store_u8 m (s1 + i) (if saw_nul then 0 else m (s2 + i)))
          s1
          s2
          (i + 1)
          (saw_nul || m (s2 + i) == 0)
unfolding copy_or_pad
copy_round left m s1 s2 i saw_nul h = let next : u32 (i + 1) ≡ i + 1 = omega arith in rw next refl

copy_frame :
    (left : ℕ) (m : Memory) (s1 s2 i : ℕ) (saw_nul : Bool) (a : ℕ)
    → i + left < 2 ^ 32
    → (a < s1 + i) ⊎ (s1 + i + left ≤ a)
    → copy_or_pad left m s1 s2 i saw_nul a ≡ m a
copy_frame zero m s1 s2 i saw_nul a h out = unfold copy_or_pad in refl
copy_frame (suc left) m s1 s2 i saw_nul a h out =
    rw (copy_round left m s1 s2 i saw_nul (omega arith)) (
      copy_frame left _ s1 s2 (i + 1) _ a (omega arith) (ground arith)
      ∙ store_u8_other m (s1 + i) _ a (ground arith))

-- After the NUL every byte that is left to write becomes 0.
pad_at :
    (left : ℕ) (m : Memory) (s1 s2 i k : ℕ)
    → i + left < 2 ^ 32
    → k < left
    → copy_or_pad left m s1 s2 i true (s1 + i + k) ≡ 0
pad_at zero m s1 s2 i k h less = absurd (omega arith)
pad_at (suc left) m s1 s2 i zero h less =
    rw (copy_round left m s1 s2 i true (omega arith), first_cell (s1 + i))
      (copy_frame left _ s1 s2 (i + 1) _ (s1 + i) (omega arith) (inl (omega arith))
        ∙ store_u8_same m (s1 + i) 0)
pad_at (suc left) m s1 s2 i (suc k) h less =
    let at : s1 + i + suc k ≡ s1 + (i + 1) + k = omega arith in
    rw (copy_round left m s1 s2 i true (omega arith), at)
      (pad_at left _ s1 s2 (i + 1) k (omega arith) (omega arith))

-- The two windows of `n` bytes do not meet.
abbrev pub IsApart : ℕ → ℕ → ℕ → Type 0
IsApart s1 s2 n = (s1 + n ≤ s2) ⊎ (s2 + n ≤ s1)

copy_next :
    (left : ℕ) (m : Memory) (s1 s2 i : ℕ)
    → i + suc left < 2 ^ 32
    → m (s2 + i) ≢ 0
    → copy_or_pad (suc left) m s1 s2 i false
      ≡ copy_or_pad left (store_u8 m (s1 + i) (m (s2 + i))) s1 s2 (i + 1) false
copy_next left m s1 s2 i h filled =
    let test : (m (s2 + i) == 0) ≡ false = ground arith in
    copy_round left m s1 s2 i false (omega arith) ∙ rw test refl

copy_first :
    (left : ℕ) (m : Memory) (s1 s2 i : ℕ) (saw_nul : Bool)
    → i + suc left < 2 ^ 32
    → copy_or_pad (suc left) m s1 s2 i saw_nul (s1 + i) ≡ (if saw_nul then 0 else m (s2 + i))
copy_first left m s1 s2 i saw_nul h = rw (copy_round left m s1 s2 i saw_nul (omega arith)) (
    copy_frame left _ s1 s2 (i + 1) _ (s1 + i) (omega arith) (inl (omega arith))
    ∙ store_u8_same m (s1 + i) _)

-- A byte before the NUL of the source is copied.
copy_at :
    (left : ℕ) (m : Memory) (s1 s2 i k : ℕ)
    → i + left < 2 ^ 32
    → IsApart s1 s2 (i + left)
    → k < left
    → ((j : ℕ) → j < k → m (s2 + i + j) ≢ 0)
    → copy_or_pad left m s1 s2 i false (s1 + i + k) ≡ m (s2 + i + k)
copy_at zero m s1 s2 i k h apart less filled = absurd (omega arith)
copy_at (suc left) m s1 s2 i zero h apart less filled =
    rw (first_cell (s1 + i), first_cell (s2 + i)) (copy_first left m s1 s2 i false h)
copy_at (suc left) m s1 s2 i (suc k) h apart less filled =
    let at : s1 + i + suc k ≡ s1 + (i + 1) + k = omega arith in
    let from : s2 + i + suc k ≡ s2 + (i + 1) + k = omega arith in
    rw (copy_next left m s1 s2 i h (rw (first_cell (s2 + i)) at (filled 0 (omega arith))), at, from)
      (copy_at left _ s1 s2 (i + 1) k (omega arith) (ground arith) (omega arith) (λ j lt.
          (let there : s2 + (i + 1) + j ≡ s2 + i + suc j = omega arith in
            rw (there, store_u8_other m (s1 + i) (m (s2 + i)) (s2 + i + suc j) (ground arith))
              (filled (suc j) (omega arith))))
        ∙ store_u8_other m (s1 + i) _ (s2 + (i + 1) + k) (ground arith))

-- Behind the NUL of the source the window is padded with zeros.
pad_behind :
    (left : ℕ) (m : Memory) (s1 s2 i len k : ℕ)
    → i + left < 2 ^ 32
    → IsApart s1 s2 (i + left)
    → k < left
    → len < k
    → ((j : ℕ) → j < len → m (s2 + i + j) ≢ 0)
    → m (s2 + i + len) ≡ 0
    → copy_or_pad left m s1 s2 i false (s1 + i + k) ≡ 0
pad_behind zero m s1 s2 i len k h apart less behind filled ended = absurd (omega arith)
pad_behind (suc left) m s1 s2 i len zero h apart less behind filled ended = absurd (omega arith)
pad_behind (suc left) m s1 s2 i zero (suc k) h apart less behind filled ended =
    let at : s1 + i + suc k ≡ s1 + (i + 1) + k = omega arith in
    let nul : (m (s2 + i) == 0) ≡ true = ground (arith, rw (first_cell (s2 + i)) at ended) in
    rw (copy_round left m s1 s2 i false (omega arith), nul, at)
      (pad_at left _ s1 s2 (i + 1) k (omega arith) (omega arith))
pad_behind (suc left) m s1 s2 i (suc len) (suc k) h apart less behind filled ended =
    let at : s1 + i + suc k ≡ s1 + (i + 1) + k = omega arith in
    rw (copy_next left m s1 s2 i h (rw (first_cell (s2 + i)) at (filled 0 (omega arith))), at)
      (pad_behind left _ s1 s2 (i + 1) len k (omega arith) (ground arith) (omega arith)
        (omega arith)
        (λ j lt.
          (let there : s2 + (i + 1) + j ≡ s2 + i + suc j = omega arith in
            rw (there, store_u8_other m (s1 + i) (m (s2 + i)) (s2 + i + suc j) (ground arith))
              (filled (suc j) (omega arith))))
        (let there : s2 + (i + 1) + len ≡ s2 + i + suc len = omega arith in
          rw (there, store_u8_other m (s1 + i) (m (s2 + i)) (s2 + i + suc len) (ground arith))
            ended))

-- The source has `len` bytes before its NUL, or at least the `n` bytes that are copied.
pub record IsSource (m : Memory) (s2 n len : ℕ) : Type 0 where
  pub filled : (j : ℕ) → j < len → m (s2 + j) ≢ 0
  pub ended : (n ≤ len) ⊎ (m (s2 + len) ≡ 0)

-- If the two windows of `n` bytes do not meet, `strncpy` fills the window at `s1` with the
-- bytes of the source before its NUL and with zeros behind them, leaves every other byte as it
-- was, and returns `s1`.
strncpy_lem :
    (m : Memory) (s1 s2 n len : ℕ)
    → n < 2 ^ 32
    → IsApart s1 s2 n
    → IsSource m s2 n len
    → ((k : ℕ) → k < n → (strncpy m s1 s2 n).0 (s1 + k) ≡ (if ltb k len then m (s2 + k) else 0))
      × ((a : ℕ) → (a < s1) ⊎ (s1 + n ≤ a) → (strncpy m s1 s2 n).0 a ≡ m a)
      × ((strncpy m s1 s2 n).1 ≡ s1)
unfolding strncpy
strncpy_lem m s1 s2 n len h apart source = (written, frame, refl)
  where
    shift : (s j : ℕ) → s + 0 + j ≡ s + j
    shift s j = omega arith

    filled : (j : ℕ) → j < len → m (s2 + 0 + j) ≢ 0
    filled j lt = rw (shift s2 j) (source.filled j lt)

    frame : (a : ℕ) → (a < s1) ⊎ (s1 + n ≤ a) → copy_or_pad n m s1 s2 0 false a ≡ m a
    frame a out = copy_frame n m s1 s2 0 false a (omega arith) (ground arith)

    written :
        (k : ℕ)
        → k < n
        → copy_or_pad n m s1 s2 0 false (s1 + k) ≡ (if ltb k len then m (s2 + k) else 0)
    written k lt =
        let copied = copy_at n m s1 s2 0 k (omega arith) (ground arith) lt in
        let padded = pad_behind n m s1 s2 0 len k (omega arith) (ground arith) lt in
        elim (dec_lt k len) [
          | yes inside ↦
              rw (lt→ltb k len inside, sym (shift s1 k), sym (shift s2 k))
                (copied (λ j below. filled j (omega arith)))
          | no outside ↦
              (let nul : m (s2 + len) ≡ 0 = ground (arith, source.ended) in
                rw (ltb-false k len (omega arith), sym (shift s1 k))
                  (elim (dec_lt len k) [
                    | yes behind ↦ padded behind filled (rw (shift s2 len) nul)
                    | no edge ↦
                        (let same : k ≡ len = omega arith in
                          copied (λ j below. filled j (omega arith)) ∙ rw (shift s2 k, same) nul)
                  ]))
        ]
