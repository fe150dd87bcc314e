-- ===== src/Device/Transfers.antt =====
-- `usb_td_to_virt`: transfer descriptors are found again in the pages they were allocated in.
use kolibri_os_reloaded.Base.{
  ℕ, zero, suc, ◌+◌, ◌/◌, ◌%◌, ◌^◌, ◌≤◌, ◌<◌, bit_and, ◌≡◌, ◌≢◌, ◌⊎◌, inl, inr, refl, arith, Option,
  some, false, ◌==◌, lt→ltb, ltb-false, u32, sub_u32, List, [], ◌∷◌,
}
use native.Mathlib.Decide.{dec_lt}
use kolibri_os_reloaded.Base.Memory.{Memory, IsBytes, load_u32}
use kolibri_os_reloaded.Base.Fields.{bit_and_mask}
use kolibri_os_reloaded.Base.Lists.{length}
use kolibri_os_reloaded.Device.{get_pg_addr, usb_td_to_virt}
use kolibri_os_reloaded.Device.Pages.{get_pg_addr_aligned}

-- The pages that hang on one another, up to the null pointer.
unfoldable pub HasPages : Memory → ℕ → List ℕ → Type 0
HasPages m page [] = page ≡ 0
HasPages m page (x ∷ xs) = (page ≡ x) × (x ≢ 0) × HasPages m (load_u32 m (u32 (x + 4092))) xs

pub data IsIn (x : ℕ) : List ℕ → Type 0 where
  first : {xs : List ℕ} → IsIn x (x ∷ xs)
  later : {y : ℕ} {xs : List ℕ} → IsIn x xs → IsIn x (y ∷ xs)

-- A descriptor at a virtual address in one of the pages, whose frame and offset make up the
-- physical address; or none of the pages has it.
abbrev pub Located : Memory → List ℕ → ℕ → ℕ → ℕ → Option (ℕ × ℕ) → Type 0
Located m pages td_phys page_tabs os_base result =
    ((result ≡ some (0, td_phys))
      × ((page : ℕ)
          → IsIn page pages
          → td_phys / 4096 ≢ get_pg_addr m page page_tabs os_base / 4096))
    ⊎ ((page : ℕ) × IsIn page pages
        × (result ≡ some (u32 (page + td_phys % 4096), td_phys % 4096))
        × (td_phys ≡ get_pg_addr m page page_tabs os_base + td_phys % 4096))

same_frame :
    (td_phys frame : ℕ)
    → td_phys < 2 ^ 32
    → frame < 2 ^ 32
    → frame % 4096 ≡ 0
    → sub_u32 td_phys frame < 4096
    → td_phys ≡ frame + td_phys % 4096
same_frame td_phys frame h k aligned near = omega arith

other_frame :
    (td_phys frame : ℕ)
    → td_phys < 2 ^ 32
    → frame < 2 ^ 32
    → frame % 4096 ≡ 0
    → 4096 ≤ sub_u32 td_phys frame
    → td_phys / 4096 ≢ frame / 4096
other_frame td_phys frame h k aligned far = omega arith

not_zero : (x : ℕ) → x ≢ 0 → (x == 0) ≡ false
not_zero x h = ground arith

in_front :
    (x : ℕ) (pages : List ℕ) (P : ℕ → Type 0)
    → P x
    → ((page : ℕ) → IsIn page pages → P page)
    → (page : ℕ) → IsIn page (x ∷ pages)
    → P page
in_front x pages P here rest page first = here
in_front x pages P here rest page (later h) = rest page h

-- With the list of the pages, and more fuel than it has pages, the search ends: with the virtual
-- address of the descriptor in a page whose frame the physical address lies in, or with the null
-- pointer, when no page has that frame.
pub usb_td_to_virt-Located :
    (pages : List ℕ) (m : Memory) (page td_phys page_tabs os_base fuel : ℕ)
    → IsBytes m
    → td_phys < 2 ^ 32
    → HasPages m page pages
    → length pages < fuel
    → Located m pages td_phys page_tabs os_base
        (usb_td_to_virt fuel m page td_phys page_tabs os_base)
unfolding HasPages usb_td_to_virt
usb_td_to_virt-Located pages m page td_phys page_tabs os_base zero bytes small chain enough =
    absurd (omega arith)
usb_td_to_virt-Located [] m page td_phys page_tabs os_base (suc fuel) bytes small chain enough =
    rw chain (inl (refl, λ page h. elim h [ ]))
usb_td_to_virt-Located (x ∷ xs) m page td_phys page_tabs os_base (suc fuel) bytes small
      (e, live, chain) enough =
    let frame = get_pg_addr m x page_tabs os_base in
    let (aligned, fits) = get_pg_addr_aligned m x page_tabs os_base bytes in
    let not_null : ((x == 0) ≡ false) = not_zero x live in
    let offset : bit_and td_phys 4095 ≡ td_phys % 4096 = omega (arith, bit_and_mask 12 td_phys) in
    rw (e, not_null, offset)
      (elim (dec_lt (sub_u32 td_phys frame) 4096) [
        | yes near ↦
            rw (lt→ltb (sub_u32 td_phys frame) 4096 near)
              (inr (x, IsIn.first, refl, same_frame td_phys frame small fits aligned near))
        | no far ↦
            (let rest =
                usb_td_to_virt-Located xs m (load_u32 m (u32 (x + 4092))) td_phys page_tabs os_base
                  fuel bytes small chain (omega arith) in
              rw (ltb-false (sub_u32 td_phys frame) 4096 (omega arith)) (elim rest [
                | inl (missed, all) ↦ inl (
                  missed,
                  in_front x xs (λ p. td_phys / 4096 ≢ get_pg_addr m p page_tabs os_base / 4096)
                      (other_frame td_phys frame small fits aligned (omega arith)) all,
                )
                | inr (p, member, found, split) ↦ inr (p, IsIn.later member, found, split)
              ]))
      ])
