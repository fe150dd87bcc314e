-- ===== src/Network/Routes.antt =====
-- The routes that the router chooses.
use kolibri_os_reloaded.Base.{
  ℕ, ◌+◌, ◌-◌, ◌*◌, ◌^◌, ◌<◌, bit_and, ◌≡◌, ◌≢◌, ◌↔◌, ◌⊎◌, inl, inr, refl, arith, Bool, true, false,
  ◌||◌, ◌==◌, if◌then◌else◌,
}
use kolibri_os_reloaded.Base.Memory.{Memory, load_u32}
use kolibri_os_reloaded.Base.Scan.{NoHit, first_hit_outcome}
use kolibri_os_reloaded.Network.{
  Tables, Ipv4RouteResult, ipv4_route, ipv4_route_broadcast, ipv4_route_got_device, route_to_device,
  got_it, idle_link, active_link, on_link, has_gateway, find_device_idx4, ipv4_broadcast,
}

-- The source address of an automatic route: the caller's, or the device's where that is zero.
abbrev chosen_source : Memory → Tables → ℕ → ℕ → ℕ
chosen_source m t source edi = if source == 0 then load_u32 m (t.ipv4_address + edi) else source

abbrev IsRoute : Memory → Tables → ℕ → ℕ → ℕ → Ipv4RouteResult → Type 0
IsRoute m t dest source edi r =
    (r.dest_ip ≡ dest) × (r.source_ip ≡ chosen_source m t source edi) × (r.device_idx4 ≡ edi)

got_it-IsRoute :
    (m : Memory) (t : Tables) (dest source edi : ℕ)
    → IsRoute m t dest source edi (got_it m dest source edi t.ipv4_address)
unfolding got_it
got_it-IsRoute m t dest source edi = (refl, refl, refl)

-- The device of a slot has an address whose network part is not zero and is that of the destination.
abbrev IsOnNetwork : Memory → Tables → ℕ → ℕ → Type 0
IsOnNetwork m t dest edi =
    (bit_and (load_u32 m (t.ipv4_address + edi)) (load_u32 m (t.ipv4_subnet + edi)) ≢ 0)
    × (bit_and (load_u32 m (t.ipv4_address + edi)) (load_u32 m (t.ipv4_subnet + edi))
        ≡ bit_and dest (load_u32 m (t.ipv4_subnet + edi)))

-- A gateway is set for the slot.
abbrev IsGateway : Memory → Tables → ℕ → Type 0
IsGateway m t edi = load_u32 m (t.ipv4_gateway + edi) ≢ 0

on_link_outcome :
    (m : Memory) (t : Tables) (dest edi : ℕ)
    → (on_link m t dest edi ≡ true) ↔ IsOnNetwork m t dest edi
unfolding on_link
on_link_outcome m t dest edi = ground arith

has_gateway_outcome :
    (m : Memory) (t : Tables) (edi : ℕ) → (has_gateway m t edi ≡ true) ↔ IsGateway m t edi
unfolding has_gateway
has_gateway_outcome m t edi = ground arith

-- No slot from the offset `at` on, for the given number of slots, has the property.
abbrev NoSlot : (ℕ → Type 0) → ℕ → ℕ → Type 0
NoSlot holds rounds at = (i : ℕ) → i < rounds → ¬ holds (at + 4 * i)

NoHit-NoSlot :
    (test : ℕ → Bool) (holds : ℕ → Type 0) (rounds at : ℕ)
    → ((edi : ℕ) → (test edi ≡ true) ↔ holds edi)
    → NoHit test 4 rounds at
    → NoSlot holds rounds at
unfolding NoHit
NoHit-NoSlot test holds rounds at same none_hit i less there =
    let hit = (same (at + 4 * i)).1 there in let miss = none_hit i less in ground (arith, hit, miss)

-- The route of a packet without a device: the slot of the first device on the network of the
-- destination, else of the first gateway, else the loopback device's.
abbrev pub AutomaticRoute : Memory → Tables → ℕ → ℕ → Ipv4RouteResult → Type 0
AutomaticRoute m t dest source r =
    ((k : ℕ) × (k < 16)
      × IsOnNetwork m t dest (0 + 4 * k)
      × NoSlot (IsOnNetwork m t dest) k 0
      × IsRoute m t dest source (0 + 4 * k) r)
    ⊎ (NoSlot (IsOnNetwork m t dest) 16 0
        × (((k : ℕ) × (k < 15)
              × IsGateway m t (4 + 4 * k)
              × NoSlot (IsGateway m t) k 4
              × IsRoute m t (load_u32 m (t.ipv4_gateway + (4 + 4 * k))) source (4 + 4 * k) r)
            ⊎ (NoSlot (IsGateway m t) 15 4 × IsRoute m t dest source 0 r)))

-- A packet without a device and not to all: the first device whose address, under the slot's subnet
-- mask, is not zero and agrees with the destination; without one the first slot after the loopback
-- device with a gateway, which becomes the destination; and without that too the loopback device.
-- The source address is the caller's, or the device's where that is zero.
pub ipv4_route_automatic :
    (m : Memory) (t : Tables) (dest source : ℕ)
    → dest ≢ ipv4_broadcast
    → AutomaticRoute m t dest source (ipv4_route m t dest 0 source)
unfolding ipv4_route
ipv4_route_automatic m t dest source h =
    let to_one : ((dest == ipv4_broadcast) ≡ false) = ground arith in
    let on = on_link_outcome m t dest in
    let gateway = has_gateway_outcome m t in
    let off : (n : ℕ) → NoHit (on_link m t dest) 4 n 0 → NoSlot (IsOnNetwork m t dest) n 0 =
      λ n. NoHit-NoSlot (on_link m t dest) (IsOnNetwork m t dest) n 0 on in
    let without : (n : ℕ) → NoHit (has_gateway m t) 4 n 4 → NoSlot (IsGateway m t) n 4 =
      λ n. NoHit-NoSlot (has_gateway m t) (IsGateway m t) n 4 gateway in
    elim (first_hit_outcome (on_link m t dest) 4 16 0) [
      | inr (k, found, below, holds, before) ↦ inl (
        k,
        below,
        (on (0 + 4 * k)).0 holds,
        off k before,
        rw (to_one, found) (got_it-IsRoute m t dest source (0 + 4 * k)),
      )
      | inl (missed, all) ↦ elim (first_hit_outcome (has_gateway m t) 4 15 4) [
        | inr (k, found, below, holds, before) ↦ inr (
          off 16 all,
          inl (
            k,
            below,
            (gateway (4 + 4 * k)).0 holds,
            without k before,
            rw (to_one, missed, found)
                (got_it-IsRoute m t (load_u32 m (t.ipv4_gateway + (4 + 4 * k))) source (4 + 4 * k)),
          ),
        )
        | inl (missed', all') ↦ inr (
          off 16 all,
          inr (without 15 all', rw (to_one, missed, missed') (got_it-IsRoute m t dest source 0)),
        )
      ]
    ]

-- The route of a packet to all: the slot of the first linked device without an address, else of the
-- first linked device, else the loopback device's.
abbrev RouteToAll : Memory → Tables → ℕ → Ipv4RouteResult → Type 0
RouteToAll m t source r =
    ((k : ℕ) × (k < 15)
      × (idle_link m t (4 + 4 * k) ≡ true)
      × NoHit (idle_link m t) 4 k 4
      × IsRoute m t ipv4_broadcast source (4 + 4 * k) r)
    ⊎ (NoHit (idle_link m t) 4 15 4
        × (((k : ℕ) × (k < 15)
              × (active_link m t (4 + 4 * k) ≡ true)
              × NoHit (active_link m t) 4 k 4
              × IsRoute m t ipv4_broadcast source (4 + 4 * k) r)
            ⊎ (NoHit (active_link m t) 4 15 4 × IsRoute m t ipv4_broadcast source 0 r)))

-- A packet to all without a device: the first device after loopback that is linked and has no address
-- yet; without one the first that is linked; and without that the loopback device. The destination
-- stays the broadcast address.
ipv4_route_to_all :
    (m : Memory) (t : Tables) (source : ℕ)
    → RouteToAll m t source (ipv4_route m t ipv4_broadcast 0 source)
unfolding ipv4_route ipv4_route_broadcast
ipv4_route_to_all m t source = elim (first_hit_outcome (idle_link m t) 4 15 4) [
  | inr (k, found, below, holds, before) ↦
      inl (k, below, holds, before, rw found (got_it-IsRoute m t ipv4_broadcast source (4 + 4 * k)))
  | inl (missed, all) ↦ elim (first_hit_outcome (active_link m t) 4 15 4) [
    | inr (k, found, below, holds, before) ↦ inr (
      all,
      inl (
        k,
        below,
        holds,
        before,
        rw (missed, found) (got_it-IsRoute m t ipv4_broadcast source (4 + 4 * k)),
      ),
    )
    | inl (missed', all') ↦
        inr (all, inr (all', rw (missed, missed') (got_it-IsRoute m t ipv4_broadcast source 0)))
  ]
]

chosen_dest :
    (a b : Bool) (x y : ℕ) → (if a then x else if b then x else y) ≡ (if a || b then x else y)
chosen_dest true b x y = refl
chosen_dest false true x y = refl
chosen_dest false false x y = refl

-- The route to a device: by its first slot, or the refusal.
abbrev RouteByDevice : Memory → Tables → ℕ → ℕ → ℕ → Ipv4RouteResult → Type 0
RouteByDevice m t dest device source r =
    let holds : ℕ → Bool = λ edi. load_u32 m (t.net_device_list + edi) == device in
    ((k : ℕ) × (k < 16)
      × (holds (0 + 4 * k) ≡ true)
      × NoHit holds 4 k 0
      × (r.device_idx4 ≡ 0 + 4 * k)
      × (r.source_ip ≡ load_u32 m (t.ipv4_address + (0 + 4 * k)))
      × (r.dest_ip ≡ (
          if (dest == ipv4_broadcast)
            || (bit_and dest (load_u32 m (t.ipv4_subnet + (0 + 4 * k)))
                == bit_and (load_u32 m (t.ipv4_address + (0 + 4 * k)))
                    (load_u32 m (t.ipv4_subnet + (0 + 4 * k))))
          then dest
          else load_u32 m (t.ipv4_gateway + (0 + 4 * k)))))
    ⊎ (NoHit holds 4 16 0 × (r.dest_ip ≡ 0) × (r.source_ip ≡ source) × (r.device_idx4 ≡ 2 ^ 32 - 1))

-- A packet for a given device goes by the first slot that holds the device, with that device's source
-- address, straight to the destination when that is everyone or on the device's network and else to
-- the device's gateway; a device that is in no slot gives destination 0 and index -1.
ipv4_route_by_device :
    (m : Memory) (t : Tables) (dest device source : ℕ)
    → device ≢ 0
    → RouteByDevice m t dest device source (ipv4_route m t dest device source)
unfolding ipv4_route ipv4_route_got_device route_to_device find_device_idx4
ipv4_route_by_device m t dest device source h =
    let given : ((device == 0) ≡ false) = ground arith in
    let holds : ℕ → Bool = λ edi. load_u32 m (t.net_device_list + edi) == device in
    elim (first_hit_outcome holds 4 16 0) [
      | inr (k, found, below, here, before) ↦ inl (
        k,
        below,
        here,
        before,
        rw (given, found) refl,
        rw (given, found) refl,
        rw (given, found)
            (chosen_dest (dest == ipv4_broadcast)
              (bit_and dest (load_u32 m (t.ipv4_subnet + (0 + 4 * k)))
                == bit_and (load_u32 m (t.ipv4_address + (0 + 4 * k)))
                    (load_u32 m (t.ipv4_subnet + (0 + 4 * k))))
              dest (load_u32 m (t.ipv4_gateway + (0 + 4 * k)))),
      )
      | inl (missed, all) ↦
          inr (all, rw (given, missed) refl, rw (given, missed) refl, rw (given, missed) refl)
    ]
