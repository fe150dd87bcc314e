-- ===== src/Tcp.antt =====
-- Three leaf routines of the TCP code, rust_kernel/kolibri_utils/src/tcp.rs, on a TCP_SOCKET in
-- memory: the round-trip estimators, the persist timer and the header flags of a state.
pub mod Timers
pub mod Estimators
mod Examples
use kolibri_os_reloaded.Base.{
  ℕ, ◌+◌, ◌-◌, ◌*◌, ◌/◌, ◌%◌, ◌^◌, bit_and, bit_or, bit_xor, Bool, not, ◌||◌, ltb, ◌==◌,
  if◌then◌else◌, u32, sub_u32, lt_i32, ◌<<<◌, ◌>>>◌, List, [], ◌∷◌,
}
use kolibri_os_reloaded.Base.Lists.{get_or}
use kolibri_os_reloaded.Base.Memory.{Memory, load_u32, store_u32, store_u8}

-- Offsets of the fields of a TCP_SOCKET.
abbrev tcp_off_t_state : ℕ
tcp_off_t_state = 114

abbrev tcp_off_t_rxtshift : ℕ
tcp_off_t_rxtshift = 118

abbrev tcp_off_t_rtt : ℕ
tcp_off_t_rtt = 202

abbrev tcp_off_t_srtt : ℕ
tcp_off_t_srtt = 210

abbrev tcp_off_t_rttvar : ℕ
tcp_off_t_rttvar = 214

abbrev tcp_off_timer_flags : ℕ
tcp_off_timer_flags = 254

abbrev tcp_off_timer_persist : ℕ
tcp_off_timer_persist = 262

abbrev tcp_rtt_shift : ℕ
tcp_rtt_shift = 3

abbrev tcp_rttvar_shift : ℕ
tcp_rttvar_shift = 2

abbrev tcp_time_pers_min : ℕ
tcp_time_pers_min = 8

abbrev tcp_time_pers_max : ℕ
tcp_time_pers_max = 94

abbrev tcp_max_rxtshift : ℕ
tcp_max_rxtshift = 12

abbrev timer_flag_retransmission : ℕ
timer_flag_retransmission = 1

abbrev timer_flag_persist : ℕ
timer_flag_persist = 8

unfoldable pub tcpt_rangeset : ℕ → ℕ → ℕ → ℕ
tcpt_rangeset value low high = if ltb value low then low else if ltb high value then high else value

-- An addition whose result is replaced by 1 when it carries or is zero.
unfoldable pub add_ja_clamp : ℕ → ℕ → ℕ
add_ja_clamp old delta =
    let sum = u32 (old + delta) in
    let cf = not (ltb (old + delta) (2 ^ 32)) in if cf || (sum == 0) then 1 else sum

unfoldable pub abs_cdq : ℕ → ℕ
abs_cdq eax = let edx = if lt_i32 eax 0 then 0xffffffff else 0 in sub_u32 (bit_xor eax edx) edx

-- The estimators on register values: the old values give the new ones.
unfoldable pub updated_srtt : ℕ → ℕ → ℕ × ℕ
updated_srtt rtt srtt =
    let eax = sub_u32 (sub_u32 rtt (srtt >>> tcp_rtt_shift)) 1 in (add_ja_clamp srtt eax, eax)

unfoldable pub updated_rttvar : ℕ → ℕ → ℕ
updated_rttvar eax rttvar =
    add_ja_clamp rttvar (sub_u32 (abs_cdq eax) (rttvar >>> tcp_rttvar_shift))

unfoldable pub tcp_xmit_timer : ℕ → Memory → Memory
tcp_xmit_timer rtt socket =
    let t_rtt = load_u32 socket tcp_off_t_rtt in
    let first = store_u32 socket tcp_off_t_srtt (u32 (rtt <<< tcp_rtt_shift)) in
    let (new_srtt, eax) = updated_srtt rtt (load_u32 socket tcp_off_t_srtt) in
    let with_srtt = store_u32 socket tcp_off_t_srtt new_srtt in
    if t_rtt == 0
    then store_u32 first tcp_off_t_rttvar (u32 (rtt <<< (tcp_rttvar_shift - 1)))
    else store_u32 with_srtt tcp_off_t_rttvar
        (updated_rttvar eax (load_u32 with_srtt tcp_off_t_rttvar))

-- The time that the persist timer is set to, before it is brought into range: `wrapping_shl` takes
-- the count modulo 32.
unfoldable pub persist_time : Memory → ℕ
persist_time socket =
    let srtt = load_u32 socket tcp_off_t_srtt in
    let rttvar = load_u32 socket tcp_off_t_rttvar in
    u32 ((u32 ((srtt >>> 2) + rttvar) >>> 1) <<< (socket tcp_off_t_rxtshift % 32))

unfoldable pub tcp_set_persist : Memory → Memory
tcp_set_persist socket =
    let flags = load_u32 socket tcp_off_timer_flags in
    let persist = tcpt_rangeset (persist_time socket) tcp_time_pers_min tcp_time_pers_max in
    let timed = store_u32 socket tcp_off_timer_persist persist in
    let armed = store_u32 timed tcp_off_timer_flags (bit_or flags timer_flag_persist) in
    let rxtshift = armed tcp_off_t_rxtshift in
    if bit_and flags timer_flag_retransmission == 0
    then (if ltb rxtshift tcp_max_rxtshift
        then store_u8 armed tcp_off_t_rxtshift ((rxtshift + 1) % 256)
        else armed)
    else socket

abbrev th_fin : ℕ
th_fin = 1

abbrev th_syn : ℕ
th_syn = 2

abbrev th_rst : ℕ
th_rst = 4

abbrev th_ack : ℕ
th_ack = 16

abbrev tcps_time_wait : ℕ
tcps_time_wait = 10

abbrev tcp_outflags_table : List ℕ
tcp_outflags_table =
    bit_or th_rst th_ack
    ∷ 0
    ∷ th_syn
    ∷ bit_or th_syn th_ack
    ∷ th_ack
    ∷ th_ack
    ∷ bit_or th_fin th_ack
    ∷ bit_or th_fin th_ack
    ∷ bit_or th_fin th_ack
    ∷ th_ack
    ∷ th_ack
    ∷ []

unfoldable pub tcp_outflags : Memory → ℕ
tcp_outflags socket =
    let state = load_u32 socket tcp_off_t_state in
    if ltb tcps_time_wait state then 0 else get_or tcp_outflags_table state 0
