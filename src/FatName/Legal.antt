-- ===== src/FatName/Legal.antt =====
-- `fat_name_is_legal`, and the characters of long and short names that fat_name.rs tests.
use kolibri_os_reloaded.Base.{
  ℕ, zero, suc, ◌+◌, ◌-◌, ◌^◌, ◌<◌, ◌≡◌, ◌≢◌, ◌⊎◌, inl, inr, refl, sym, arith, Option, none, some,
  Bool, true, false, ◌&&◌, ◌||◌, leb, ◌==◌, Bool-cases, eq_cases, if◌then◌else◌, ◌>>=◌,
}
use kolibri_os_reloaded.Base.Memory.{Memory, first_cell, next_cell}

unfoldable pub fat_short_char_ok : ℕ → Bool
fat_short_char_ok c =
    if c == b'!'
    then true
    else if leb b'#' c && leb c b')'
    then true
    else if c == b'-' || c == b'.'
    then true
    else if leb b'0' c && leb c b'9'
    then true
    else if leb b'@' c && leb c b'Z'
    then true
    else if c == b'^' || c == b'_'
    then true
    else if leb b'`' c && leb c b'z'
    then true
    else if c == b'{' || (c == b'}' || c == b'~')
    then true
    else false

unfoldable pub fat_lfn_char_ok : ℕ → Bool
fat_lfn_char_ok c =
    if c == b' ' || c == b'!'
    then true
    else if c == b'"'
    then false
    else if leb b'#' c && leb c b')'
    then true
    else if c == b'*'
    then false
    else if c == b'+' || c == b','
    then true
    else if c == b'-' || c == b'.'
    then true
    else if c == b'/'
    then false
    else if leb b'0' c && leb c b'9'
    then true
    else if c == b':'
    then false
    else if c == b';'
    then true
    else if c == b'<'
    then false
    else if c == b'='
    then true
    else if c == b'>' || c == b'?'
    then false
    else if leb b'@' c && leb c b'Z'
    then true
    else if c == b'[' || c == b']'
    then true
    else if c == b'\\'
    then false
    else if c == b'^' || c == b'_'
    then true
    else if leb b'`' c && leb c b'{'
    then true
    else if c == b'|'
    then false
    else if c == b'}' || c == b'~'
    then true
    else false

-- The scan of a long name.
unfoldable scan_legal : ℕ → Memory → ℕ → Option Bool
scan_legal zero m p = none
scan_legal (suc fuel) m p =
    let al = m p in
    let rest = scan_legal fuel m (p + 1) in
    if leb 128 al then rest else if fat_lfn_char_ok al then rest else some (al == 0)

unfoldable pub fat_name_is_legal : Memory → ℕ → Option Bool
unfolding scan_legal
fat_name_is_legal m name = scan_legal (2 ^ 32) m name

unfoldable fat_name_is_legal_ptr : Memory → ℕ → Option ℕ
unfolding fat_name_is_legal
fat_name_is_legal_ptr m name = do legal ← fat_name_is_legal m name; some (if legal then 1 else 0)

-- What a long name may not contain, as FAT's documentation lists it: control characters, the DEL
-- and the nine signs that stand for something in a path or a pattern.
abbrev IsForbidden : ℕ → Type 0
IsForbidden c =
    (c < 32)
    ⊎ ((c ≡ 127)
        ⊎ ((c ≡ b'"')
            ⊎ ((c ≡ b'*')
                ⊎ ((c ≡ b'/')
                    ⊎ ((c ≡ b':')
                        ⊎ ((c ≡ b'<')
                            ⊎ ((c ≡ b'>') ⊎ ((c ≡ b'?') ⊎ ((c ≡ b'\\') ⊎ (c ≡ b'|'))))))))))

fat_lfn_char_ok-false : (c : ℕ) → c < 128 → fat_lfn_char_ok c ≡ false → IsForbidden c
unfolding fat_lfn_char_ok
fat_lfn_char_ok-false c ascii e = ground arith

fat_lfn_char_ok-true : (c : ℕ) → c < 128 → IsForbidden c → fat_lfn_char_ok c ≡ false
unfolding fat_lfn_char_ok
fat_lfn_char_ok-true c ascii e = ground arith

-- What a name of `n` bytes is found to be.
abbrev pub Judged : Memory → ℕ → ℕ → Option Bool → Type 0
Judged m name n result =
    ((result ≡ some true) × ((i : ℕ) → i < n → ¬ IsForbidden (m (name + i))))
    ⊎ ((result ≡ some false) × ((k : ℕ) × (k < n) × IsForbidden (m (name + k))))

passes :
    (n : ℕ) (m : Memory) (p : ℕ) (result : Option Bool)
    → ¬ IsForbidden (m p)
    → Judged m (p + 1) n result
    → Judged m p (suc n) result
passes n m p result allowed (inl (legal, all)) = inl (
  legal,
  λ i less bad. elim (eq_cases i 0) [
    | inl e ↦ (let here : p + i ≡ p = omega arith in allowed (rw here at bad))
    | inr e ↦
        (let there : p + i ≡ p + 1 + (i - 1) = omega arith in
          all (i - 1) (omega arith) (rw there at bad))
  ],
)
passes n m p result allowed (inr (illegal, (k, less, bad))) =
    let there : p + 1 + k ≡ p + suc k = omega arith in
    inr (illegal, (suc k, omega arith, rw there at bad))

scanned :
    (n fuel : ℕ) (m : Memory) (p : ℕ)
    → n < fuel
    → ((i : ℕ) → i < n → m (p + i) ≢ 0)
    → m (p + n) ≡ 0
    → Judged m p n (scan_legal fuel m p)
unfolding scan_legal
scanned n zero m p enough bytes nul = absurd (omega arith)
scanned zero (suc fuel) m p enough bytes nul =
    let end : m p ≡ 0 = rw (first_cell p) at nul in
    let ascii : (leb 128 (m p) ≡ false) = ground arith in
    let bad : fat_lfn_char_ok (m p) ≡ false =
      fat_lfn_char_ok-true (m p) (omega arith) (inl (omega arith)) in
    inl (rw (ascii, bad) (rw end refl), λ i less. absurd (omega arith))
scanned (suc n) (suc fuel) m p enough bytes nul =
    let given = rw (first_cell p) at (bytes 0 (omega arith)) in
    let no_nul : ((m p == 0) ≡ false) = ground arith in
    let rest =
      scanned n fuel m (p + 1) (omega arith)
        (λ i less. rw (next_cell p i) at (bytes (suc i) (omega arith)))
        (rw (next_cell p n) at nul) in
    elim (Bool-cases (leb 128 (m p))) [
      | inl high ↦ rw high (passes n m p _ (λ bad. ground arith) rest)
      | inr ascii ↦
          (let small : m p < 128 = ground arith in
            elim (Bool-cases (fat_lfn_char_ok (m p))) [
              | inl ok ↦
                  rw (ascii, ok)
                    (passes n m p _ (λ bad. ground (arith, fat_lfn_char_ok-true (m p) small bad))
                      rest)
              | inr not_ok ↦
                  rw (ascii, not_ok)
                    (inr (
                      rw no_nul refl,
                      (
                        0,
                        omega arith,
                        rw (sym (first_cell p)) at (fat_lfn_char_ok-false (m p) small not_ok),
                      ),
                    ))
            ])
    ]

-- A name that ends with its first NUL before the address space does is legal exactly when none of
-- its bytes is forbidden in a long name; bytes from 128 on never are.
pub fat_name_is_legal_outcome :
    (m : Memory) (name n : ℕ)
    → n < 2 ^ 32
    → ((i : ℕ) → i < n → m (name + i) ≢ 0)
    → m (name + n) ≡ 0
    → Judged m name n (fat_name_is_legal m name)
unfolding fat_name_is_legal
fat_name_is_legal_outcome m name n small bytes nul = scanned n (2 ^ 32) m name small bytes nul
