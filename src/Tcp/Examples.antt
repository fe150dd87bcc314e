-- ===== src/Tcp/Examples.antt =====
-- A socket with its estimators and a backoff, and witnesses.
use kolibri_os_reloaded.Base.{ℕ, ◌≤◌, ◌<◌, ◌≡◌, ◌⊎◌, refl, arith, ◌==◌, if◌then◌else◌}
use kolibri_os_reloaded.Base.Memory.{Memory, IsBytes, load_u32, store_u32, store_u8}
use kolibri_os_reloaded.Tcp.{
  tcp_xmit_timer, tcp_set_persist, tcp_outflags, updated_srtt, add_ja_clamp,
}
use kolibri_os_reloaded.Tcp.Timers.{TimersAreExclusive, tcp_set_persist-TimersAreExclusive}
use kolibri_os_reloaded.Tcp.Estimators.{smoothed_srtt, smoothed_rttvar, tcp_xmit_timer_outcome}

-- A smoothed time of 80, a deviation of 20, a sample in flight and a backoff of three.
abbrev socket : Memory
socket a =
    if a == 210
    then 80
    else if a == 214
    then 20
    else if a == 202
    then 1
    else if a == 118
    then 3
    else if a == 114
    then 6
    else 0

socket-IsBytes : IsBytes socket
socket-IsBytes a = ground arith

fin_wait_1_flags : tcp_outflags socket ≡ 17
unfolding tcp_outflags load_u32
fin_wait_1_flags = refl

socket_fields : (load_u32 socket 210 ≡ 80) × (load_u32 socket 214 ≡ 20)
unfolding load_u32
socket_fields = (refl, refl)

tcp_xmit_timer_outcome_example :
    (load_u32 (tcp_xmit_timer 30 socket) 210
      ≡ smoothed_srtt (load_u32 socket 202) 30 (load_u32 socket 210))
    × (load_u32 (tcp_xmit_timer 30 socket) 214
        ≡ smoothed_rttvar (load_u32 socket 202) 30 (load_u32 socket 210) (load_u32 socket 214))
    × ((a : ℕ) → (a < 210) ⊎ (218 ≤ a) → tcp_xmit_timer 30 socket a ≡ socket a)
tcp_xmit_timer_outcome_example =
    tcp_xmit_timer_outcome socket 30 socket-IsBytes (omega arith) (omega (arith, socket_fields))
      (omega (arith, socket_fields)) (omega (arith, socket_fields)) (omega (arith, socket_fields))

-- A shorter sample takes the estimate of 80 down to 1.
shorter_sample : load_u32 (tcp_xmit_timer 9 socket) 210 ≡ 1
unfolding load_u32 tcp_xmit_timer updated_srtt add_ja_clamp store_u32 store_u8
shorter_sample = refl

socket-TimersAreExclusive : TimersAreExclusive socket
unfolding TimersAreExclusive load_u32
socket-TimersAreExclusive idle = refl

tcp_set_persist-TimersAreExclusive_example : TimersAreExclusive (tcp_set_persist socket)
tcp_set_persist-TimersAreExclusive_example =
    tcp_set_persist-TimersAreExclusive socket socket-IsBytes socket-TimersAreExclusive
