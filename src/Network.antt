-- ===== src/Network.antt =====
-- Lookups of the network stack: the egress device of a packet (ipv4_route.rs), the number of a
-- device (net_ptr_to_num4.rs), the reassembly slot of a fragment (ipv4_find_fragment_slot.rs) and
-- the list of sockets (socket_check.rs), all in rust_kernel/kolibri_utils/src. Pointers are addresses
-- in one memory; a device index is a byte offset into tables of 16 dwords.
pub mod Routes
pub mod Devices
pub mod Sockets
mod Examples
use kolibri_os_reloaded.Base.{
  ℕ, zero, suc, ◌+◌, ◌*◌, ◌/◌, ◌%◌, ◌^◌, bit_and, Bool, true, false, not, ◌&&◌, ◌==◌, if◌then◌else◌,
  u32, Option, none, some,
}
use kolibri_os_reloaded.Base.Memory.{Memory, load_u16, load_u32}
use kolibri_os_reloaded.Base.Scan.{first_hit}

abbrev pub net_devices_max : ℕ
net_devices_max = 16

abbrev off_link_state : ℕ
off_link_state = 24

abbrev pub ipv4_broadcast : ℕ
ipv4_broadcast = 0xffffffff

-- The addresses of the four tables that the router reads.
pub record Tables : Type 0 where
  pub ipv4_address : ℕ
  pub ipv4_subnet : ℕ
  pub ipv4_gateway : ℕ
  pub net_device_list : ℕ

pub record Ipv4RouteResult : Type 0 where
  pub dest_ip : ℕ
  pub source_ip : ℕ
  pub device_idx4 : ℕ

-- The link state of the device in a slot, if the slot has one.
unfoldable pub device_link_state : Memory → ℕ → ℕ → Option ℕ
device_link_state m list idx4 =
    let dev = load_u32 m (list + idx4) in
    if dev == 0 then none else some (load_u32 m (dev + off_link_state))

unfoldable pub find_device_idx4 : Memory → ℕ → ℕ → Option ℕ
find_device_idx4 m device_ptr list =
    if device_ptr == 0
    then none
    else first_hit (λ edi. load_u32 m (list + edi) == device_ptr) 4 net_devices_max 0

unfoldable pub got_it : Memory → ℕ → ℕ → ℕ → ℕ → Ipv4RouteResult
got_it m dest source edi address = record {
  dest_ip = dest;
  source_ip = if source == 0 then load_u32 m (address + edi) else source;
  device_idx4 = edi;
}

abbrev is_linked : Option ℕ → Bool
is_linked none = false
is_linked (some link) = not (link == 0)

-- The tests of the four loops.
unfoldable pub idle_link : Memory → Tables → ℕ → Bool
idle_link m t edi =
    is_linked (device_link_state m t.net_device_list edi)
    && (load_u32 m (t.ipv4_address + edi) == 0)

unfoldable pub active_link : Memory → Tables → ℕ → Bool
active_link m t edi = is_linked (device_link_state m t.net_device_list edi)

unfoldable pub on_link : Memory → Tables → ℕ → ℕ → Bool
on_link m t dest edi =
    let subnet = load_u32 m (t.ipv4_subnet + edi) in
    let masked_local = bit_and (load_u32 m (t.ipv4_address + edi)) subnet in
    not (masked_local == 0) && (masked_local == bit_and dest subnet)

unfoldable pub has_gateway : Memory → Tables → ℕ → Bool
has_gateway m t edi = not (load_u32 m (t.ipv4_gateway + edi) == 0)

-- What a search ends in: the slot that it found, or the next attempt.
abbrev pub or_else {ℓ} : {A : Type ℓ} → Option ℕ → (ℕ → A) → A → A
or_else none found otherwise = otherwise
or_else (some edi) found otherwise = found edi

-- Slot 0 is the loopback device: the two loops start at byte offset 4.
unfoldable pub ipv4_route_broadcast : Memory → Tables → ℕ → ℕ → Ipv4RouteResult
ipv4_route_broadcast m t dest source =
    or_else (first_hit (idle_link m t) 4 15 4) (λ edi. got_it m dest source edi t.ipv4_address)
      (or_else (first_hit (active_link m t) 4 15 4) (λ edi. got_it m dest source edi t.ipv4_address)
        (got_it m dest source 0 t.ipv4_address))

unfoldable pub route_to_device : Memory → Tables → ℕ → ℕ → Ipv4RouteResult
route_to_device m t dest edi =
    let subnet = load_u32 m (t.ipv4_subnet + edi) in
    let local = bit_and (load_u32 m (t.ipv4_address + edi)) subnet in
    let remote = bit_and dest subnet in
    record {
      dest_ip =
          if dest == ipv4_broadcast
          then dest
          else if remote == local
          then dest
          else load_u32 m (t.ipv4_gateway + edi);
      source_ip = load_u32 m (t.ipv4_address + edi);
      device_idx4 = edi;
    }

unfoldable pub ipv4_route_got_device : Memory → Tables → ℕ → ℕ → ℕ → Ipv4RouteResult
ipv4_route_got_device m t dest device_ptr source =
    or_else (find_device_idx4 m device_ptr t.net_device_list) (route_to_device m t dest)
      (record { dest_ip = 0; source_ip = source; device_idx4 = 0xffffffff })

unfoldable pub ipv4_route : Memory → Tables → ℕ → ℕ → ℕ → Ipv4RouteResult
ipv4_route m t dest device_ptr source =
    if device_ptr == 0
    then (if dest == ipv4_broadcast
        then ipv4_route_broadcast m t dest source
        else or_else (first_hit (on_link m t dest) 4 16 0)
            (λ edi. got_it m dest source edi t.ipv4_address)
            (or_else (first_hit (has_gateway m t) 4 15 4)
              (λ edi. got_it m (load_u32 m (t.ipv4_gateway + edi)) source edi t.ipv4_address)
              (got_it m dest source 0 t.ipv4_address)))
    else ipv4_route_got_device m t dest device_ptr source

-- The public lookup of a device number.
abbrev pub net_ptr_to_num4_miss : ℕ
net_ptr_to_num4_miss = 0xffffffff

unfoldable pub net_ptr_to_num4 : Memory → ℕ → ℕ → ℕ → ℕ
net_ptr_to_num4 m device list max =
    if device == 0
    then net_ptr_to_num4_miss
    else or_else (first_hit (λ i. load_u32 m (list + 4 * i) == device) 1 max 0) (λ i. u32 (i * 4))
        net_ptr_to_num4_miss

-- The reassembly slot with the identification and the addresses of a packet.
unfoldable pub slot_matches : Memory → ℕ → ℕ → ℕ → Bool
slot_matches m packet fragments i =
    (load_u16 m (fragments + 16 * i + 2) == load_u16 m (packet + 4))
    && (load_u32 m (fragments + 16 * i + 4) == load_u32 m (packet + 12))
    && (load_u32 m (fragments + 16 * i + 8) == load_u32 m (packet + 16))

unfoldable pub ipv4_find_fragment_slot : Memory → ℕ → ℕ → ℕ → ℕ
ipv4_find_fragment_slot m packet fragments count =
    or_else (first_hit (slot_matches m packet fragments) 1 count 0)
      (λ i. u32 (fragments + u32 (i * 16))) 0xffffffff

-- The walk over the sockets, with fuel; `none` means that the fuel ran out.
unfoldable pub socket_check_from_first : ℕ → Memory → ℕ → ℕ → Option ℕ
socket_check_from_first zero m candidate node = none
socket_check_from_first (suc fuel) m candidate node =
    let rest = socket_check_from_first fuel m candidate (load_u32 m node) in
    if node == 0 then some node else if node == candidate then some node else rest

unfoldable pub socket_check : ℕ → Memory → ℕ → ℕ → Option ℕ
socket_check fuel m candidate net_sockets =
    if candidate == 0
    then some 0
    else socket_check_from_first fuel m candidate (load_u32 m net_sockets)
