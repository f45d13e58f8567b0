-- ===== src/Discovery/Options.antt =====
-- `validateResolveOptions` of pkg/petlibro/discovery.go. Durations are nanoseconds, and a duration or
-- rate that is not positive is 0, since the code treats all these alike.
use ha_addon_petlibro_local.Prelude.{
  ℕ, ◌≤◌, ◌<◌, ◌≡◌, Bool, true, false, not, Option, none, some, List, [], ◌∷◌, if◌then◌else◌, ltb,
  ◌==◌, length,
}

-- A subnet is `none` where `ParseCIDR` refuses it or its address is not of IPv4.
pub record ResolveOptions : Type 0 where
  pub uid : List ℕ
  pub subnets : List (Option (ℕ × ℕ))
  pub cached_ip : Option ℕ
  pub candidates : List (Option ℕ)
  pub timeout : ℕ
  pub broadcast_duration : ℕ
  pub max_unicast_per_second : ℕ

abbrev pub default_broadcast_duration : ℕ
default_broadcast_duration = 750000000

abbrev pub default_max_unicast_per_second : ℕ
default_max_unicast_per_second = 32

pub data OptionError : Type 0 where
  uid_length no_timeout bad_subnet rate_too_high : OptionError

pub data Validated : Type 0 where
  valid : ResolveOptions → Validated
  invalid : OptionError → Validated

unfoldable pub all_ipv4 : List (Option (ℕ × ℕ)) → Bool
all_ipv4 [] = true
all_ipv4 (none ∷ more) = false
all_ipv4 (some subnet ∷ more) = all_ipv4 more

unfoldable pub bound_broadcast : ResolveOptions → ResolveOptions
bound_broadcast o =
    let d =
      if o.broadcast_duration == 0 then default_broadcast_duration else o.broadcast_duration in
    record o { broadcast_duration = if ltb o.timeout d then o.timeout else d }

unfoldable pub bound_rate : ResolveOptions → Validated
bound_rate o =
    if o.max_unicast_per_second == 0
    then valid (record o { max_unicast_per_second = default_max_unicast_per_second })
    else if ltb 512 o.max_unicast_per_second
    then invalid rate_too_high
    else valid o

unfoldable pub validate_resolve_options : ResolveOptions → Validated
unfolding all_ipv4 bound_broadcast bound_rate
validate_resolve_options o =
    if not (length o.uid == 20)
    then invalid uid_length
    else if o.timeout == 0
    then invalid no_timeout
    else if not (all_ipv4 o.subnets)
    then invalid bad_subnet
    else bound_rate (bound_broadcast o)

-- What the search relies on: a UID, a deadline, a broadcast phase that fits in it, and a rate that
-- leaves a positive wait between two probes.
pub record Usable (o o' : ResolveOptions) : Type 0 where
  pub uid : (length o'.uid ≡ 20) × (o'.uid ≡ o.uid)
  pub timeout : (0 < o'.timeout) × (o'.timeout ≡ o.timeout)
  pub broadcast : (0 < o'.broadcast_duration) × (o'.broadcast_duration ≤ o'.timeout)
  pub rate : (0 < o'.max_unicast_per_second) × (o'.max_unicast_per_second ≤ 512)
  pub targets : (o'.subnets ≡ o.subnets) × (o'.candidates ≡ o.candidates)

pub data HasBad : List (Option (ℕ × ℕ)) → Type 0 where
  here : {more : List (Option (ℕ × ℕ))} → HasBad (none ∷ more)
  there : {s : Option (ℕ × ℕ)} {more : List (Option (ℕ × ℕ))} → HasBad more → HasBad (s ∷ more)

-- What each outcome says of the options that were given.
unfoldable pub Explains : ResolveOptions → Validated → Type 0
Explains o (valid o') = Usable o o'
Explains o (invalid uid_length) = ¬ (length o.uid ≡ 20)
Explains o (invalid no_timeout) = (length o.uid ≡ 20) × (o.timeout ≡ 0)
Explains o (invalid bad_subnet) = HasBad o.subnets
Explains o (invalid rate_too_high) = 512 < o.max_unicast_per_second
