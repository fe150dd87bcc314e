-- ===== src/Network/Examples.antt =====
-- Two devices, a list of two sockets and a table of fragments, and witnesses.
use kolibri_os_reloaded.Base.{◌≡◌, refl, arith, some, ◌==◌, if◌then◌else◌, [], ◌∷◌}
use kolibri_os_reloaded.Base.Memory.{Memory, load_u32}
use kolibri_os_reloaded.Base.Scan.{first_hit}
use kolibri_os_reloaded.Network.{Tables, ipv4_route, on_link, got_it, socket_check, has_gateway}
use kolibri_os_reloaded.Network.Routes.{AutomaticRoute, ipv4_route_automatic}
use kolibri_os_reloaded.Network.Sockets.{IsChain, is_member, socket_check_outcome}

-- Device 1 has the address 192.168.0.2 on a network of 24 bits and the gateway 192.168.0.1. The
-- sockets at 2100 and 2200 hang on the sentinel at 2000.
abbrev memory : Memory
memory a =
    if a == 1004
    then 192
    else if a == 1005
    then 168
    else if a == 1007
    then 2
    else if a == 1104
    then 255
    else if a == 1105
    then 255
    else if a == 1106
    then 255
    else if a == 1204
    then 192
    else if a == 1205
    then 168
    else if a == 1207
    then 1
    else if a == 1305
    then 5
    else if a == 2000
    then 52
    else if a == 2001
    then 8
    else if a == 2100
    then 152
    else if a == 2101
    then 8
    else 0

abbrev tables : Tables
tables = record {
  ipv4_address = 1000;
  ipv4_subnet = 1100;
  ipv4_gateway = 1200;
  net_device_list = 1300;
}

-- 192.168.0.7 is on the network of device 1, 8.8.8.8 goes by its gateway.
on_link_route : (ipv4_route memory tables 0x0700a8c0 0 0).device_idx4 ≡ 4
unfolding ipv4_route first_hit on_link load_u32 got_it
on_link_route = refl

gateway_route : (ipv4_route memory tables 0x08080808 0 0).dest_ip ≡ 0x0100a8c0
unfolding ipv4_route first_hit on_link load_u32 got_it has_gateway
gateway_route = refl

ipv4_route_automatic_example :
    AutomaticRoute memory tables 0x08080808 0 (ipv4_route memory tables 0x08080808 0 0)
ipv4_route_automatic_example =
    ipv4_route_automatic memory tables 0x08080808 0 (λ e. absurd (omega arith))

two_sockets-IsChain : IsChain memory (load_u32 memory 2000) (2100 ∷ 2200 ∷ [])
unfolding IsChain load_u32
two_sockets-IsChain = (refl, λ e. absurd (omega arith), (refl, λ e. absurd (omega arith), refl))

socket_check_outcome_example :
    socket_check 3 memory 2200 2000 ≡ some (if is_member 2200 (2100 ∷ 2200 ∷ []) then 2200 else 0)
socket_check_outcome_example =
    socket_check_outcome memory 2200 2000 3 (2100 ∷ 2200 ∷ []) two_sockets-IsChain (omega arith)
