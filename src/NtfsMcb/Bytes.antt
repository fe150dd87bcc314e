-- ===== src/NtfsMcb/Bytes.antt =====
-- Little-endian numbers of any length in memory, and the loops that read and write them.
use kolibri_os_reloaded.Base.{
  ℕ, zero, suc, ◌+◌, ◌*◌, ◌/◌, ◌%◌, ◌^◌, ◌≤◌, ◌<◌, ◌≡◌, ◌⊎◌, inl, refl, sym, ◌∙◌, arith,
}
use native.Mathlib.Nat.{pow-suc}
use kolibri_os_reloaded.Base.Memory.{
  Memory, IsBytes, store_u8, store_u8_same, store_u8_other, store_u8-IsBytes,
}
use kolibri_os_reloaded.Base.Fields.{bit_or_above}
use kolibri_os_reloaded.NtfsMcb.{write_le_bytes_ptr, gather_length, gather_cluster}

pub pow_byte : (i : ℕ) → 2 ^ (8 * suc i) ≡ 256 * 2 ^ (8 * i)
pow_byte i =
    let eight : 8 * suc i ≡ suc (suc (suc (suc (suc (suc (suc (suc (8 * i)))))))) = omega arith in
    rw eight (
      omega (
        arith,
        pow-suc 2 (8 * i),
        pow-suc 2 (suc (8 * i)),
        pow-suc 2 (suc (suc (8 * i))),
        pow-suc 2 (suc (suc (suc (8 * i)))),
        pow-suc 2 (suc (suc (suc (suc (8 * i))))),
        pow-suc 2 (suc (suc (suc (suc (suc (8 * i)))))),
        pow-suc 2 (suc (suc (suc (suc (suc (suc (8 * i))))))),
        pow-suc 2 (suc (suc (suc (suc (suc (suc (suc (8 * i)))))))),
      ))

-- The number in the `n` bytes at `p`, lowest first.
unfoldable pub le_value : Memory → ℕ → ℕ → ℕ
le_value m p zero = 0
le_value m p (suc n) = m p + 256 * le_value m (p + 1) n

pub le_value_same :
    (m m' : Memory) (p n : ℕ)
    → ((a : ℕ) → p ≤ a → a < p + n → m a ≡ m' a)
    → le_value m p n ≡ le_value m' p n
unfolding le_value
le_value_same m m' p zero h = refl
le_value_same m m' p (suc n) h = omega (
  arith,
  h p (omega arith) (omega arith),
  le_value_same m m' (p + 1) n (λ a ge lt. h a (omega arith) (omega arith)),
)

-- One more byte above a number of `i` bytes, where `p` is the weight of the byte.
joined_fits : (c b p : ℕ) → c < p → b < 256 → c + b * p < 256 * p
joined_fits c b p h k = grind arith

joined_value : (c b v p q : ℕ) → q ≡ 256 * p → c + b * p + v * q ≡ c + (b + 256 * v) * p
joined_value c b v p q h = rw h (grind arith)

pub write_le_frame :
    (n : ℕ) (m : Memory) (p v a : ℕ) → (a < p) ⊎ (p + n ≤ a) → write_le_bytes_ptr n m p v a ≡ m a
unfolding write_le_bytes_ptr
write_le_frame zero m p v a out = refl
write_le_frame (suc n) m p v a out =
    write_le_frame n _ (p + 1) (v / 256) a (ground arith) ∙ store_u8_other m p _ a (ground arith)

pub le_value-write_le :
    (n : ℕ) (m : Memory) (p v : ℕ) → v < 2 ^ (8 * n) → le_value (write_le_bytes_ptr n m p v) p n ≡ v
unfolding le_value write_le_bytes_ptr
le_value-write_le zero m p v h = omega arith
le_value-write_le (suc n) m p v h =
    let first = write_le_frame n (store_u8 m p (v % 256)) (p + 1) (v / 256) p (inl (omega arith)) in
    let rest =
      le_value-write_le n (store_u8 m p (v % 256)) (p + 1) (v / 256) (omega (arith, pow_byte n)) in
    omega (arith, first, store_u8_same m p (v % 256), rest)

pub write_le-IsBytes :
    (n : ℕ) (m : Memory) (p v : ℕ) → IsBytes m → IsBytes (write_le_bytes_ptr n m p v)
unfolding write_le_bytes_ptr
write_le-IsBytes zero m p v h = h
write_le-IsBytes (suc n) m p v h =
    write_le-IsBytes n _ (p + 1) (v / 256) (store_u8-IsBytes m p (v % 256) h (omega arith))

pow_byte_next : (i : ℕ) → 2 ^ (8 * (i + 1)) ≡ 256 * 2 ^ (8 * i)
pow_byte_next i = let next : i + 1 ≡ suc i = omega arith in rw next (pow_byte i)

next_fits : (i c b : ℕ) → c < 2 ^ (8 * i) → b < 256 → c + b * 2 ^ (8 * i) < 2 ^ (8 * (i + 1))
next_fits i c b h k = rw (pow_byte_next i) (joined_fits c b (2 ^ (8 * i)) h k)

gather_cluster_step :
    (left i : ℕ) (m : Memory) (esi c : ℕ)
    → c < 2 ^ (8 * i)
    → gather_cluster (suc left) i m esi c
      ≡ gather_cluster left (i + 1) m (esi + 1) (c + m esi * 2 ^ (8 * i))
gather_cluster_step left i m esi c h =
    rw (sym (bit_or_above (8 * i) (m esi) c h)) (unfold gather_cluster in refl)

pub gather_cluster_lem :
    (left i : ℕ) (m : Memory) (esi c : ℕ)
    → IsBytes m
    → c < 2 ^ (8 * i)
    → gather_cluster left i m esi c ≡ (esi + left, c + le_value m esi left * 2 ^ (8 * i))
gather_cluster_lem zero i m esi c bytes h = unfold gather_cluster le_value in ground arith
gather_cluster_lem (suc left) i m esi c bytes h =
    let rest =
      gather_cluster_lem left (i + 1) m (esi + 1) (c + m esi * 2 ^ (8 * i)) bytes
        (next_fits i c (m esi) h (bytes esi)) in
    let end : esi + 1 + left ≡ esi + suc left = omega arith in
    let value =
      joined_value c (m esi) (le_value m (esi + 1) left) (2 ^ (8 * i)) (2 ^ (8 * (i + 1)))
        (pow_byte_next i) in
    gather_cluster_step left i m esi c h ∙ rest ∙ rw (end, value) (unfold le_value in refl)

gather_length_step :
    (left i : ℕ) (m : Memory) (esi c buffer : ℕ)
    → c < 2 ^ (8 * i)
    → gather_length (suc left) i m esi c buffer
      ≡ gather_length left
          (i + 1)
          (store_u8 m (buffer + i) (m esi))
          (esi + 1)
          (c + m esi * 2 ^ (8 * i))
          buffer
gather_length_step left i m esi c buffer h =
    rw (sym (bit_or_above (8 * i) (m esi) c h)) (unfold gather_length in refl)

-- The bytes of the length and the eight bytes of the buffer for it do not meet.
abbrev IsClear : ℕ → ℕ → ℕ → Type 0
IsClear esi n buffer = (esi + n ≤ buffer) ⊎ (buffer + 8 ≤ esi)

-- What the first loop leaves: the advanced pointer, the number, and memory changed in the buffer
-- only.
pub record Gathered (m : Memory) (esi left i c buffer : ℕ) (r : Memory × ℕ × ℕ) : Type 0 where
  pub advanced : r.1 ≡ esi + left
  pub number : r.2 ≡ c + le_value m esi left * 2 ^ (8 * i)
  pub kept : (a : ℕ) → (a < buffer) ⊎ (buffer + 8 ≤ a) → r.0 a ≡ m a
  pub bytes : IsBytes r.0

pub gather_length-Gathered :
    (left i : ℕ) (m : Memory) (esi c buffer : ℕ)
    → IsBytes m
    → c < 2 ^ (8 * i)
    → i + left ≤ 8
    → IsClear esi left buffer
    → Gathered m esi left i c buffer (gather_length left i m esi c buffer)
gather_length-Gathered zero i m esi c buffer bytes h fits apart =
    unfold gather_length le_value in
    (record { advanced = omega arith; number = omega arith; kept = λ a out. refl; bytes = bytes })
gather_length-Gathered (suc left) i m esi c buffer bytes h fits apart =
    let m1 : Memory = store_u8 m (buffer + i) (m esi) in
    let rest =
      gather_length-Gathered left (i + 1) m1 (esi + 1) (c + m esi * 2 ^ (8 * i)) buffer
        (store_u8-IsBytes m (buffer + i) (m esi) bytes (bytes esi))
        (next_fits i c (m esi) h (bytes esi)) (omega arith) (ground arith) in
    let same =
      le_value_same m1 m (esi + 1) left
        (λ a ge lt. store_u8_other m (buffer + i) (m esi) a (ground arith)) in
    let value =
      joined_value c (m esi) (le_value m (esi + 1) left) (2 ^ (8 * i)) (2 ^ (8 * (i + 1)))
        (pow_byte_next i) in
    rw (gather_length_step left i m esi c buffer h) (record {
      advanced = omega (arith, rest.advanced);
      number = rest.number ∙ rw (same, value) (unfold le_value in refl);
      kept = λ a out. rest.kept a out ∙ store_u8_other m (buffer + i) (m esi) a (ground arith);
      bytes = rest.bytes;
    })
