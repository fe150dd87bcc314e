-- ===== src/FatName/Frame.antt =====
-- The cells that `fat_next_short_name` leaves alone, whatever the name.
use kolibri_os_reloaded.Base.{
  ℕ, zero, suc, ◌+◌, ◌-◌, ◌≤◌, ◌<◌, ◌≡◌, ◌≢◌, ◌⊎◌, inl, inr, refl, sym, ◌∙◌, arith, Option, none,
  some, Bool, true, false, ◌&&◌, ◌==◌, Bool-cases, eq_cases, u8,
}
use kolibri_os_reloaded.Base.Memory.{Memory, store_u8, store_u8_other}
use kolibri_os_reloaded.FatName.{
  content_end, insert_tilde, expand, shrink, walk, last_tilde, mutate, fat_next_short_name,
}
use kolibri_os_reloaded.FatName.Walk.{zerofill_to_end_out}

abbrev OutsideBase : ℕ → ℕ → Type 0
OutsideBase name b = (b < name) ⊎ (name + 8 ≤ b)

-- A result, if there is one, that differs from the memory before only in the base name.
abbrev pub Framed : Memory → ℕ → Option (Memory × Bool) → Type 0
Framed m name none = Unit
Framed m name (some (m', ok)) = (b : ℕ) → OutsideBase name b → m' b ≡ m b

expand-Framed :
    (fuel : ℕ) (m m0 : Memory) (name pos al s : ℕ)
    → ((b : ℕ) → OutsideBase name b → m b ≡ m0 b)
    → pos ≤ s
    → s < 8
    → m (name + s) ≡ b' '
    → Framed m0 name (expand fuel m name pos al)
unfolding expand
expand-Framed zero m m0 name pos al s same le less space = tt
expand-Framed (suc fuel) m m0 name pos al s same le less space =
    let m1 = store_u8 m (name + pos) al in
    let same1 : (b : ℕ) → OutsideBase name b → m1 b ≡ m0 b =
      λ b out. store_u8_other m (name + pos) al b (omega arith) ∙ same b out in
    elim (Bool-cases (m (name + pos) == b' ')) [
      | inl e ↦ rw e same1
      | inr e ↦
          (let later : pos ≢ s = λ p. ground (arith, rw (sym p) at space) in
            rw e (
              expand-Framed fuel m1 m0 name (pos + 1) b'0' s same1 (omega arith) less
                (store_u8_other m (name + pos) al (name + s) (omega arith) ∙ space)))
    ]

shrink-Framed : (m : Memory) (name edi : ℕ) → edi < 8 → Framed m name (some (shrink m name edi))
unfolding shrink
shrink-Framed m name edi small = elim (eq_cases edi 1) [
  | inl e ↦ rw e (λ b out. refl)
  | inr e ↦
      (let no : ((edi == 1) ≡ false) = ground arith in
        elim (eq_cases edi 0) [
          | inl z ↦ rw z (λ b out. refl)
          | inr z ↦
              (let no' : ((edi == 0) ≡ false) = ground arith in
                rw (no, no')
                  (λ b out.
                    zerofill_to_end_out _ name (edi - 1 + 2) b (omega arith)
                    ∙ (store_u8_other _ (name + (edi - 1 + 1)) b'1' b (omega arith)
                        ∙ store_u8_other m (name + (edi - 1)) b'~' b (omega arith))))
        ])
]

walk-Framed :
    (edi : ℕ) (m : Memory) (name c : ℕ)
    → edi ≤ 8
    → (0 < c → (s : ℕ) × (edi ≤ s) × (s < 8) × (m (name + s) ≡ b' '))
    → Framed m name (walk edi m name c)
unfolding walk
walk-Framed zero m name c small seen = tt
walk-Framed (suc edi) m name c small seen = elim (Bool-cases (m (name + edi) == b'~')) [
  | inl tilde ↦ elim (eq_cases c 0) [
    | inl z ↦ rw (tilde, z) (shrink-Framed m name edi (omega arith))
    | inr z ↦
        (let some_space : ((c == 0) ≡ false) = ground arith in
          let (s, le, less, space) = seen (omega arith) in
          rw (tilde, some_space)
            (expand-Framed 8 m m name (edi + 1) b'1' s (λ b out. refl) (omega arith) less space))
  ]
  | inr no_tilde ↦ elim (eq_cases (m (name + edi)) b' ') [
    | inl space ↦
        (let is_space : ((m (name + edi) == b' ') ≡ true) = ground arith in
          rw (no_tilde, is_space)
            (walk-Framed edi m name (c + 1) (omega arith)
              λ p. (edi, omega arith, omega arith, space)))
    | inr other ↦
        (let no_space : ((m (name + edi) == b' ') ≡ false) = ground arith in
          elim (Bool-cases (m (name + edi) == b'9')) [
            | inl nine ↦
                rw (no_tilde, no_space, nine)
                  (walk-Framed edi m name c (omega arith)
                    λ p. (let (s, le, less, space) = seen p in (s, omega arith, less, space)))
            | inr no_nine ↦
                rw (no_tilde, no_space, no_nine)
                  (λ b out.
                    zerofill_to_end_out _ name (edi + 1) b (omega arith)
                    ∙ store_u8_other m (name + edi) (u8 (m (name + edi) + 1)) b (omega arith))
          ])
  ]
]

inserted-Framed :
    (m : Memory) (name pos : ℕ)
    → pos ≤ 6
    → Framed m name (some (store_u8 (store_u8 m (name + pos) b'~') (name + (pos + 1)) b'1', true))
inserted-Framed m name pos small b out =
    store_u8_other _ (name + (pos + 1)) b'1' b (omega arith)
    ∙ store_u8_other m (name + pos) b'~' b (omega arith)

content_end_cases :
    (p : ℕ) (m : Memory) (name : ℕ)
    → (content_end p m name ≡ none) ⊎ ((e : ℕ) × (content_end p m name ≡ some e) × (e ≤ p))
unfolding content_end
content_end_cases zero m name = inl refl
content_end_cases (suc p) m name = elim (Bool-cases (m (name + p) == b' ')) [
  | inr e ↦ inr (suc p, rw e refl, omega arith)
  | inl e ↦ elim (content_end_cases p m name) [
    | inl missed ↦ inl (rw e missed)
    | inr (k, found, le) ↦ inr (k, rw e found, omega arith)
  ]
]

insert_tilde-Framed : (m : Memory) (name : ℕ) → Framed m name (insert_tilde m name)
unfolding insert_tilde
insert_tilde-Framed m name = elim (Bool-cases (m (name + 6) == b' ' && m (name + 7) == b' ')) [
  | inr e ↦ rw e (inserted-Framed m name 6 (omega arith))
  | inl e ↦ elim (content_end_cases 6 m name) [
    | inl missed ↦ rw (e, missed) tt
    | inr (k, found, le) ↦ rw (e, found) (inserted-Framed m name k le)
  ]
]

-- Whatever a call does to a name, it changes the eight bytes of the base name alone: neither the
-- extension nor a cell outside the name.
pub fat_next_short_name-Framed :
    (m : Memory) (name : ℕ) → Framed m name (fat_next_short_name m name)
unfolding fat_next_short_name mutate
fat_next_short_name-Framed m name =
    elim (last_tilde 8 m name) as (λ found. Framed m name (mutate found m name)) [
      | none ↦ insert_tilde-Framed m name
      | some at ↦ walk-Framed 8 m name 0 (omega arith) (λ p. absurd (omega arith))
    ]
