-- ===== src/Discovery/Plan.antt =====
-- `buildDiscoveryPlan` and `classifyResolveFailure` of pkg/petlibro/discovery.go. An IPv4 address is a
-- big-endian number and `none` stands for one that `To4` refuses; a subnet is its
-- network address and the number of leading ones of its mask, or `none` where `ParseCIDR` refuses it.
pub mod Unique
use Prim.Native.Nat.{bit_or}
use ha_addon_petlibro_local.Prelude.{
  ℕ, ◌+◌, ◌-◌, ◌^◌, Bool, true, false, not, ◌&&◌, ◌||◌, Option, none, some, List, [], ◌∷◌, ◌++◌,
  if◌then◌else◌, ltb, ◌==◌, contains, length, add64,
}
use ha_addon_petlibro_local.Discovery.{subnet_discovery_targets}

-- `discoveryPlan`, with the map `seen` of `buildDiscoveryPlan`.
pub record Plan : Type 0 where
  pub cached : List ℕ
  pub broadcasts : List ℕ
  pub candidates : List ℕ
  pub unicasts : List ℕ
  pub seen : List ℕ

-- A network interface: its flags, and its IPv4 addresses with their masks.
pub record Interface : Type 0 where
  pub up : Bool
  pub loopback : Bool
  pub broadcast : Bool
  pub point_to_point : Bool
  pub addrs : List (ℕ × ℕ)

-- The four lists that `add` is called for.
pub data Target : Type 0 where
  to_cached to_broadcasts to_candidates to_unicasts : Target

unfoldable pub append_to : Plan → Target → ℕ → Plan
append_to p to_cached ip = record p { cached = p.cached ++ (ip ∷ []); seen = ip ∷ p.seen }
append_to p to_broadcasts ip = record p {
  broadcasts = p.broadcasts ++ (ip ∷ []);
  seen = ip ∷ p.seen;
}
append_to p to_candidates ip = record p {
  candidates = p.candidates ++ (ip ∷ []);
  seen = ip ∷ p.seen;
}
append_to p to_unicasts ip = record p { unicasts = p.unicasts ++ (ip ∷ []); seen = ip ∷ p.seen }

-- The closure `add`.
unfoldable pub add : Target → Plan → Option ℕ → Plan
add t p none = p
add t p (some ip) = if ip == 0 || contains p.seen ip then p else append_to p t ip

unfoldable pub add_all : Target → Plan → List (Option ℕ) → Plan
add_all t p [] = p
add_all t p (ip ∷ ips) = add_all t (add t p ip) ips

unfoldable pub broadcast_ip : ℕ → ℕ → ℕ
broadcast_ip ip ones = bit_or ip (2 ^ (32 - ones) - 1)

abbrev pub max_automatic_discovery_targets : ℕ
max_automatic_discovery_targets = 1024

unfoldable pub add_hosts : Plan → List ℕ → Plan
add_hosts p [] = p
add_hosts p (h ∷ hs) = add_hosts (add to_unicasts p (some h)) hs

unfoldable pub add_directed : Plan → List (Option (ℕ × ℕ)) → Plan
add_directed p [] = p
add_directed p (none ∷ rest) = add_directed p rest
add_directed p (some (ip, ones) ∷ rest) =
    add_directed (add to_broadcasts p (some (broadcast_ip ip ones))) rest

unfoldable pub add_subnets : Plan → List (Option (ℕ × ℕ)) → Plan
add_subnets p [] = p
add_subnets p (none ∷ rest) = add_subnets p rest
add_subnets p (some (ip, ones) ∷ rest) =
    add_subnets (add_hosts p (subnet_discovery_targets ip ones 65536)) rest

-- The loop over an interface's addresses; `scan` tells that no subnet was configured.
unfoldable pub add_addrs : Bool → Plan → List (ℕ × ℕ) → Plan
add_addrs scan p [] = p
add_addrs scan p ((ip, ones) ∷ rest) =
    let p' = add to_broadcasts p (some (broadcast_ip ip ones)) in
    let hosts =
      if scan then subnet_discovery_targets ip ones max_automatic_discovery_targets else [] in
    add_addrs scan (add_hosts p' hosts) rest

unfoldable pub is_usable : Interface → Bool
is_usable i = i.up && not i.loopback && i.broadcast && not i.point_to_point

unfoldable pub add_interfaces : Bool → Plan → List Interface → Plan
unfolding is_usable
add_interfaces scan p [] = p
add_interfaces scan p (i ∷ rest) =
    add_interfaces scan (add_addrs scan p (if is_usable i then i.addrs else [])) rest

abbrev pub empty_plan : Plan
empty_plan = record { cached = []; broadcasts = []; candidates = []; unicasts = []; seen = [] }

-- `interfaces` is empty when `net.Interfaces` fails.
unfoldable pub build_discovery_plan :
    Option ℕ → List (Option (ℕ × ℕ)) → List (Option ℕ) → List Interface → Plan
build_discovery_plan cached_ip subnets candidates interfaces =
    let p = add to_broadcasts (add to_cached empty_plan cached_ip) (some 4294967295) in
    let p' = add_all to_candidates (add_directed p subnets) candidates in
    add_interfaces (length subnets == 0) (add_subnets p' subnets) interfaces

-- `ResolveStats`.
pub record ResolveStats : Type 0 where
  pub lan_search_w3_1_sent : ℕ
  pub lan_search_w3_2_sent : ℕ
  pub knock2_sent : ℕ
  pub lan_search_r_received : ℕ
  pub knock_rr2_received : ℕ
  pub wrong_uid_rejected : ℕ
  pub nonce_mismatch_rejected : ℕ
  pub broadcasts_sent : ℕ
  pub unicasts_sent : ℕ
  pub packets_received : ℕ
  pub responses_rejected : ℕ
  pub send_errors : ℕ
  pub deadline_exceeded : Bool

pub data FailureCode : Type 0 where
  send_failed invalid_response past_deadline not_found : FailureCode

-- `by_deadline` tells whether the cause is `context.DeadlineExceeded`.
unfoldable pub classify_resolve_failure : Bool → ResolveStats → FailureCode
classify_resolve_failure by_deadline s =
    if add64 s.broadcasts_sent s.unicasts_sent == 0 && ltb 0 s.send_errors
    then send_failed
    else if ltb 0 s.packets_received && s.responses_rejected == s.packets_received
    then invalid_response
    else if by_deadline
    then past_deadline
    else not_found
