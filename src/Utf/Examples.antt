-- ===== src/Utf/Examples.antt =====
-- Units of one, two and three bytes, a string without room, and witnesses.
use kolibri_os_reloaded.Base.{ℕ, ◌+◌, ◌%◌, ◌≡◌, refl, arith, some, List, [], ◌∷◌}
use kolibri_os_reloaded.Base.Memory.{Memory, IsBytes, store_u8}
use kolibri_os_reloaded.Base.Lists.{get_or, get_or-below}
use kolibri_os_reloaded.Utf.{
  Utf16To8StringResult, utf16_to_8, utf16_to_8_string, utf8to16_ptr, encode_3byte, dec_ecx,
  stored_3byte,
}
use kolibri_os_reloaded.Utf.RoundTrip.{utf8to16_ptr-utf16_to_8}
use kolibri_os_reloaded.Utf.Text.{StringOutcome, utf16_to_8_string_outcome}

-- The units of "A\u{416}\u{20AC}" and a zero.
abbrev text_bytes : List ℕ
text_bytes = 0x41 ∷ 0 ∷ 0x16 ∷ 0x04 ∷ 0xac ∷ 0x20 ∷ 0 ∷ 0 ∷ []

abbrev text : Memory
text a = get_or text_bytes a 0

text-IsBytes : IsBytes text
text-IsBytes a = get_or-below 256 text_bytes a (omega arith) refl

euro_lead : (utf16_to_8 text 0x20ac 100 5).0 100 ≡ 0xe2
unfolding utf16_to_8 dec_ecx stored_3byte encode_3byte store_u8
euro_lead = refl

utf8to16_ptr-utf16_to_8_example :
    (e : ℕ) × (utf8to16_ptr 2 (utf16_to_8 text 0x20ac 100 3).0 100 0xdeadbeef
      ≡ some (e, 100 + (utf16_to_8 text 0x20ac 100 3).1.edi_delta))
    × (e % 65536 ≡ 0x20ac)
utf8to16_ptr-utf16_to_8_example =
    utf8to16_ptr-utf16_to_8 text 0x20ac 100 3 0xdeadbeef 0 (omega arith) (omega arith) (omega arith)
      (omega arith)

utf16_to_8_string_outcome_example :
    (r : Memory × Utf16To8StringResult) × (utf16_to_8_string 6 text 0 100 5 0 ≡ some r)
    × StringOutcome text 100 5 r
utf16_to_8_string_outcome_example =
    utf16_to_8_string_outcome 6 text 0 100 5 0 text-IsBytes (omega arith) (omega arith)
      (omega arith)
