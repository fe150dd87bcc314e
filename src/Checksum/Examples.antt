-- ===== src/Checksum/Examples.antt =====
-- The checksum functions on a small packet, and witnesses.
use kolibri_os_reloaded.Base.{ℕ, ◌+◌, ◌/◌, ◌%◌, ◌≤◌, ◌<◌, ◌≡◌, refl, arith, List, [], ◌∷◌}
use kolibri_os_reloaded.Base.Memory.{Memory, IsBytes, store_u16}
use kolibri_os_reloaded.Checksum.{
  checksum_1, checksum_2, finish_odd, adc_edx, adc_dh, rem_2, add_word, add_dl, rem_4, add_two,
  whole_qwords, add_qwords,
}
use kolibri_os_reloaded.Checksum.Sum.{data_sum, words_sum}
use kolibri_os_reloaded.Checksum.Inet.{checksum_1_outcome, checksum-accepts}
use kolibri_os_reloaded.Base.Lists.{get_or, get_or-below}

abbrev packet_bytes : List ℕ
packet_bytes =
    0x45 ∷ 0x00 ∷ 0xff ∷ 0xff ∷ 0 ∷ 0 ∷ 0x80 ∷ 0x11 ∷ 0xfe ∷ 0xdc ∷ 0xba ∷ 0x98 ∷ 0x76 ∷ 0x54 ∷ 0x32
    ∷ []

-- Fifteen bytes with an empty checksum field at offset 4.
abbrev packet : Memory
packet a = get_or packet_bytes a 0

packet-IsBytes : IsBytes packet
packet-IsBytes a = get_or-below 256 packet_bytes a (omega arith) refl

packet_sum-positive : 0 < 0 + data_sum 15 packet 0
unfolding data_sum words_sum
packet_sum-positive = omega arith

odd_packet_sum : checksum_1 packet 0 0 15 ≡ 9948
unfolding checksum_1 finish_odd adc_edx adc_dh rem_2 add_word add_dl rem_4 add_two whole_qwords
    add_qwords
odd_packet_sum = refl

checksum_1_outcome_example :
    (checksum_1 packet 0x10000 0 15 % 65535 ≡ (0x10000 + data_sum 15 packet 0) % 65535)
    × (0 < 0x10000 + data_sum 15 packet 0 → 0 < checksum_1 packet 0x10000 0 15)
    × (checksum_1 packet 0x10000 0 15 / 65536 ≤ 0x10000 / 65536 + 15 / 8 + 3)
checksum_1_outcome_example = checksum_1_outcome packet 0x10000 0 15 packet-IsBytes (omega arith)

-- Nothing but zeros: the value is not the complement of zero.
zeros_value : checksum_2 0 ≡ 0xfeff
unfolding checksum_2
zeros_value = refl

checksum-accepts_example :
    let sent = store_u16 packet 4 (checksum_2 (checksum_1 packet 0 0 15)) in
    checksum_2 (checksum_1 sent 0 0 15) ≡ 0
checksum-accepts_example =
    checksum-accepts packet 0 0 15 2 packet-IsBytes (omega arith) (omega arith) refl refl
      packet_sum-positive
