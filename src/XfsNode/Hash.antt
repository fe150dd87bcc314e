-- ===== src/XfsNode/Hash.antt =====
-- `xfs_hashname`: the hash of a name.
use kolibri_os_reloaded.Base.{
  ℕ, zero, suc, ◌+◌, ◌-◌, ◌*◌, ◌/◌, ◌%◌, ◌^◌, ◌<◌, ◌≡◌, ◌≢◌, refl, sym, ◌∙◌, arith, false, ◌==◌,
  u32, ◌<<<◌,
}
use kolibri_os_reloaded.Base.Memory.{Memory, IsBytes, first_cell, next_cell}
use kolibri_os_reloaded.Base.Fields.{with_low}
use kolibri_os_reloaded.Base.{bit_xor}
use kolibri_os_reloaded.Base.Flips.{bit_xor-lt, bit_xor_cancel, bit_xor_cancel_right}
use kolibri_os_reloaded.XfsNode.{rotate_left_7, hash_bytes, xfs_hashname}

-- The hash goes on from the hash of the front of a name.
hash_bytes-append :
    (a b : ℕ) (m : Memory) (name eax : ℕ)
    → hash_bytes (a + b) m name eax ≡ hash_bytes b m (name + a) (hash_bytes a m name eax)
unfolding hash_bytes
hash_bytes-append zero b m name eax =
    let start : name + 0 ≡ name = omega arith in
    let none_more : zero + b ≡ b = omega arith in rw (start, none_more) refl
hash_bytes-append (suc a) b m name eax =
    let next : name + suc a ≡ name + 1 + a = omega arith in
    let more : suc a + b ≡ suc (a + b) = omega arith in
    rw (next, more) (hash_bytes-append a b m (name + 1) _)

rotate_left_7_lem : (x : ℕ) → x < 2 ^ 32 → rotate_left_7 x ≡ x % 2 ^ 25 * 2 ^ 7 + x / 2 ^ 25
unfolding rotate_left_7
rotate_left_7_lem x h =
    let high : u32 (x <<< 7) ≡ x % 2 ^ 25 * 2 ^ 7 = omega arith in
    rw high (with_low 7 (x % 2 ^ 25) (x / 2 ^ 25) (omega arith))

rotate_left_7_inj : (x y : ℕ) → x < 2 ^ 32 → y < 2 ^ 32 → rotate_left_7 x ≡ rotate_left_7 y → x ≡ y
rotate_left_7_inj x y h k e = omega (arith, rotate_left_7_lem x h, rotate_left_7_lem y k)

-- One round, whose result stays a u32.
round-lt : (eax byte : ℕ) → eax < 2 ^ 32 → byte < 256 → bit_xor (rotate_left_7 eax) byte < 2 ^ 32
round-lt eax byte h k =
    bit_xor-lt 32 (rotate_left_7 eax) byte (omega (arith, rotate_left_7_lem eax h)) (omega arith)

-- Equal rounds on one byte begin alike, and equal rounds from one state have one byte.
round_state :
    (x y byte : ℕ)
    → x < 2 ^ 32
    → y < 2 ^ 32
    → byte < 256
    → bit_xor (rotate_left_7 x) byte ≡ bit_xor (rotate_left_7 y) byte
    → x ≡ y
round_state x y byte h k l e =
    let rx = rotate_left_7_lem x h in
    let ry = rotate_left_7_lem y k in
    let back = bit_xor_cancel_right 32 (rotate_left_7 x) byte (omega arith) (omega arith) in
    let back' = bit_xor_cancel_right 32 (rotate_left_7 y) byte (omega arith) (omega arith) in
    rotate_left_7_inj x y h k (sym back ∙ rw e back')

round_byte :
    (x b c : ℕ)
    → x < 2 ^ 32
    → b < 256
    → c < 256
    → bit_xor (rotate_left_7 x) b ≡ bit_xor (rotate_left_7 x) c
    → b ≡ c
round_byte x b c h k l e =
    let rx = rotate_left_7_lem x h in
    let back = bit_xor_cancel 32 (rotate_left_7 x) b (omega arith) (omega arith) in
    let back' = bit_xor_cancel 32 (rotate_left_7 x) c (omega arith) (omega arith) in
    sym back ∙ rw e back'

hash_bytes-lt :
    (left : ℕ) (m : Memory) (name eax : ℕ)
    → IsBytes m
    → eax < 2 ^ 32
    → hash_bytes left m name eax < 2 ^ 32
unfolding hash_bytes
hash_bytes-lt zero m name eax bytes h = h
hash_bytes-lt (suc left) m name eax bytes h =
    hash_bytes-lt left m (name + 1) _ bytes (round-lt eax (m name) h (bytes name))

hash_bytes_inj :
    (left : ℕ) (m : Memory) (name x y : ℕ)
    → IsBytes m
    → x < 2 ^ 32
    → y < 2 ^ 32
    → hash_bytes left m name x ≡ hash_bytes left m name y
    → x ≡ y
unfolding hash_bytes
hash_bytes_inj zero m name x y bytes h k e = e
hash_bytes_inj (suc left) m name x y bytes h k e = round_state x y (m name) h k (bytes name) (
    hash_bytes_inj left m (name + 1) _ _ bytes (round-lt x (m name) h (bytes name))
      (round-lt y (m name) k (bytes name)) e)

hash_bytes_same :
    (left : ℕ) (m m' : Memory) (name eax : ℕ)
    → ((i : ℕ) → i < left → m (name + i) ≡ m' (name + i))
    → hash_bytes left m name eax ≡ hash_bytes left m' name eax
unfolding hash_bytes
hash_bytes_same zero m m' name eax same = refl
hash_bytes_same (suc left) m m' name eax same =
    let here : m name ≡ m' name = rw (first_cell name) at (same 0 (omega arith)) in
    rw here (
      hash_bytes_same left m m' (name + 1) _
        λ i less. rw (next_cell name i) at (same (suc i) (omega arith)))

-- When the hashes of two names of one length are equal, and all bytes but the one at `k`, that byte
-- is equal too.
xfs_hashname-one_byte :
    (m m' : Memory) (name len k : ℕ)
    → IsBytes m
    → IsBytes m'
    → k < len
    → ((i : ℕ) → i < len → i ≢ k → m (name + i) ≡ m' (name + i))
    → xfs_hashname m name len ≡ xfs_hashname m' name len
    → m (name + k) ≡ m' (name + k)
unfolding xfs_hashname hash_bytes
xfs_hashname-one_byte m m' name len k bytes bytes' less same e =
    let given : ((len == 0) ≡ false) = ground arith in
    let rest = len - k - 1 in
    let cut : len ≡ k + suc rest = omega arith in
    let whole : hash_bytes (k + suc rest) m name 0 ≡ hash_bytes (k + suc rest) m' name 0 =
      rw cut at (rw given at e) in
    let front : hash_bytes k m name 0 ≡ hash_bytes k m' name 0 =
      hash_bytes_same k m m' name 0 λ i h. same i (omega arith) (omega arith) in
    let state = hash_bytes-lt k m' name 0 bytes' (omega arith) in
    let split = hash_bytes-append k (suc rest) m name 0 in
    let split' = hash_bytes-append k (suc rest) m' name 0 in
    let after : hash_bytes rest m (name + k + 1)
          (bit_xor (rotate_left_7 (hash_bytes k m' name 0)) (m (name + k)))
        ≡ hash_bytes rest m' (name + k + 1)
            (bit_xor (rotate_left_7 (hash_bytes k m' name 0)) (m' (name + k))) =
      rw front at (sym split) ∙ whole ∙ split' in
    let behind =
      hash_bytes_same rest m m' (name + k + 1)
        (bit_xor (rotate_left_7 (hash_bytes k m' name 0)) (m (name + k)))
        λ i h.
          (let there : name + k + 1 + i ≡ name + (k + 1 + i) = omega arith in
            rw there (same (k + 1 + i) (omega arith) (omega arith))) in
    round_byte (hash_bytes k m' name 0) (m (name + k)) (m' (name + k)) state (bytes (name + k))
      (bytes' (name + k))
      (hash_bytes_inj rest m' (name + k + 1) _ _ bytes'
        (round-lt _ (m (name + k)) state (bytes (name + k)))
        (round-lt _ (m' (name + k)) state (bytes' (name + k))) (sym behind ∙ after))

-- Two names of one length that differ in exactly one byte have different hashes.
pub xfs_hashname-differs :
    (m m' : Memory) (name len k : ℕ)
    → IsBytes m
    → IsBytes m'
    → k < len
    → ((i : ℕ) → i < len → i ≢ k → m (name + i) ≡ m' (name + i))
    → m (name + k) ≢ m' (name + k)
    → xfs_hashname m name len ≢ xfs_hashname m' name len
xfs_hashname-differs m m' name len k bytes bytes' less same other e =
    other (xfs_hashname-one_byte m m' name len k bytes bytes' less same e)
