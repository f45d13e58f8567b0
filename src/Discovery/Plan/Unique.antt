-- ===== src/Discovery/Plan/Unique.antt =====
-- A discovery plan probes each address once.
use ha_addon_petlibro_local.Prelude.{
  ℕ, ◌+◌, ◌≤◌, ◌≡◌, refl, ◌∙◌, inl, inr, Bool, false, ◌||◌, Bool-cases, Option, none, some, List,
  [], ◌∷◌, ◌++◌, if◌then◌else◌, ◌==◌, contains, length, arith,
}
use ha_addon_petlibro_local.Discovery.{subnet_discovery_targets}
use ha_addon_petlibro_local.Discovery.Plan.{
  Plan, Interface, Target, to_cached, to_broadcasts, to_candidates, to_unicasts, append_to, add,
  add_all, broadcast_ip, max_automatic_discovery_targets, add_hosts, add_directed, add_subnets,
  add_addrs, is_usable, add_interfaces, empty_plan, build_discovery_plan,
}

-- How often an address stands in a list.
abbrev pub count : List ℕ → ℕ → ℕ
count [] x = 0
count (y ∷ ys) x = (if x == y then 1 else 0) + count ys x

count-append : (xs ys : List ℕ) (x : ℕ) → count (xs ++ ys) x ≡ count xs x + count ys x
count-append [] ys x = omega arith
count-append (y ∷ xs) ys x = omega (arith, count-append xs ys x)

-- How often a plan probes an address.
abbrev pub probes : Plan → ℕ → ℕ
probes p x = count p.cached x + count p.broadcasts x + count p.candidates x + count p.unicasts x

-- The plan probes exactly what it has seen, each once, and not the unspecified address.
record Planned (p : Plan) : Type 0 where
  once : (x : ℕ) → probes p x ≡ (if contains p.seen x then 1 else 0)
  specified : contains p.seen 0 ≡ false

append_to-probes :
    (p : Plan) (t : Target) (ip x : ℕ)
    → probes (append_to p t ip) x ≡ probes p x + (if x == ip then 1 else 0)
unfolding append_to
append_to-probes p to_cached ip x = omega (arith, count-append p.cached (ip ∷ []) x)
append_to-probes p to_broadcasts ip x = omega (arith, count-append p.broadcasts (ip ∷ []) x)
append_to-probes p to_candidates ip x = omega (arith, count-append p.candidates (ip ∷ []) x)
append_to-probes p to_unicasts ip x = omega (arith, count-append p.unicasts (ip ∷ []) x)

append_to-seen : (p : Plan) (t : Target) (ip : ℕ) → (append_to p t ip).seen ≡ ip ∷ p.seen
unfolding append_to
append_to-seen p to_cached ip = refl
append_to-seen p to_broadcasts ip = refl
append_to-seen p to_candidates ip = refl
append_to-seen p to_unicasts ip = refl

seen_step :
    (seen : List ℕ) (ip x : ℕ)
    → contains seen ip ≡ false
    → (if contains seen x then 1 else 0) + (if x == ip then 1 else 0)
      ≡ (if contains (ip ∷ seen) x then 1 else 0)
seen_step seen ip x fresh = elim (Bool-cases (x == ip)) [
  | inl same ↦
      let e : x ≡ ip = ground arith in
      let new : contains seen x ≡ false = rw e fresh in rw (same, new) (omega arith)
  | inr other ↦ rw other (omega arith)
]

add-Planned : (t : Target) (p : Plan) (ip : Option ℕ) → Planned p → Planned (add t p ip)
unfolding add
add-Planned t p none v = v
add-Planned t p (some ip) v = elim (Bool-cases (ip == 0 || contains p.seen ip)) [
  | inl known ↦ rw known v
  | inr fresh ↦
      let seen = append_to-seen p t ip in
      rw fresh (record {
        once = λ x.
            append_to-probes p t ip x ∙ rw (v.once x, seen) (seen_step p.seen ip x (ground arith));
        specified = rw seen (ground (arith, v.specified));
      })
]

add_all-Planned :
    (ips : List (Option ℕ)) (t : Target) (p : Plan) → Planned p → Planned (add_all t p ips)
unfolding add_all
add_all-Planned [] t p v = v
add_all-Planned (ip ∷ ips) t p v = add_all-Planned ips t (add t p ip) (add-Planned t p ip v)

add_hosts-Planned : (hs : List ℕ) (p : Plan) → Planned p → Planned (add_hosts p hs)
unfolding add_hosts
add_hosts-Planned [] p v = v
add_hosts-Planned (h ∷ hs) p v =
    add_hosts-Planned hs (add to_unicasts p (some h)) (add-Planned to_unicasts p (some h) v)

add_directed-Planned :
    (subnets : List (Option (ℕ × ℕ))) (p : Plan) → Planned p → Planned (add_directed p subnets)
unfolding add_directed
add_directed-Planned [] p v = v
add_directed-Planned (none ∷ rest) p v = add_directed-Planned rest p v
add_directed-Planned (some (ip, ones) ∷ rest) p v =
    let to = some (broadcast_ip ip ones) in
    add_directed-Planned rest (add to_broadcasts p to) (add-Planned to_broadcasts p to v)

add_subnets-Planned :
    (subnets : List (Option (ℕ × ℕ))) (p : Plan) → Planned p → Planned (add_subnets p subnets)
unfolding add_subnets
add_subnets-Planned [] p v = v
add_subnets-Planned (none ∷ rest) p v = add_subnets-Planned rest p v
add_subnets-Planned (some (ip, ones) ∷ rest) p v =
    let hosts = subnet_discovery_targets ip ones 65536 in
    add_subnets-Planned rest (add_hosts p hosts) (add_hosts-Planned hosts p v)

add_addrs-Planned :
    (addrs : List (ℕ × ℕ)) (scan : Bool) (p : Plan) → Planned p → Planned (add_addrs scan p addrs)
unfolding add_addrs
add_addrs-Planned [] scan p v = v
add_addrs-Planned ((ip, ones) ∷ rest) scan p v =
    let to = some (broadcast_ip ip ones) in
    let hosts =
      if scan then subnet_discovery_targets ip ones max_automatic_discovery_targets else [] in
    let p' = add to_broadcasts p to in
    add_addrs-Planned rest scan (add_hosts p' hosts)
      (add_hosts-Planned hosts p' (add-Planned to_broadcasts p to v))

add_interfaces-Planned :
    (interfaces : List Interface) (scan : Bool) (p : Plan)
    → Planned p
    → Planned (add_interfaces scan p interfaces)
unfolding add_interfaces
add_interfaces-Planned [] scan p v = v
add_interfaces-Planned (i ∷ rest) scan p v =
    let addrs = if is_usable i then i.addrs else [] in
    add_interfaces-Planned rest scan (add_addrs scan p addrs) (add_addrs-Planned addrs scan p v)

empty_plan-Planned : Planned empty_plan
empty_plan-Planned = record { once = λ x. refl; specified = refl }

build-Planned :
    (cached_ip : Option ℕ) (subnets : List (Option (ℕ × ℕ))) (candidates : List (Option ℕ))
    (interfaces : List Interface)
    → Planned (build_discovery_plan cached_ip subnets candidates interfaces)
unfolding build_discovery_plan
build-Planned cached_ip subnets candidates interfaces =
    let p0 = add-Planned to_cached empty_plan cached_ip empty_plan-Planned in
    let p1 = add-Planned to_broadcasts _ (some 4294967295) p0 in
    let p2 = add_directed-Planned subnets _ p1 in
    let p3 = add_all-Planned candidates to_candidates _ p2 in
    let p4 = add_subnets-Planned subnets _ p3 in
    add_interfaces-Planned interfaces (length subnets == 0) _ p4

-- Whatever the options and the network interfaces are, a discovery plan holds no address twice, in one
-- list or in two, and never the unspecified address.
pub build_discovery_plan-probes :
    (cached_ip : Option ℕ) (subnets : List (Option (ℕ × ℕ))) (candidates : List (Option ℕ))
    (interfaces : List Interface) (x : ℕ)
    → let p = build_discovery_plan cached_ip subnets candidates interfaces in
      (probes p x ≤ 1) × (probes p 0 ≡ 0)
build_discovery_plan-probes cached_ip subnets candidates interfaces x =
    let p = build_discovery_plan cached_ip subnets candidates interfaces in
    let v = build-Planned cached_ip subnets candidates interfaces in
    (at_most_one (contains p.seen x) (v.once x), never (contains p.seen 0) (v.once 0) v.specified)
  where
    at_most_one : (b : Bool) {n : ℕ} → n ≡ (if b then 1 else 0) → n ≤ 1
    at_most_one b h = ground arith

    never : (b : Bool) {n : ℕ} → n ≡ (if b then 1 else 0) → b ≡ false → n ≡ 0
    never b h e = ground arith
