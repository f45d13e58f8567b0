-- ===== src/Tests/Searches.antt =====
-- The search for a camera of pkg/petlibro/discovery.go on small examples.
use ha_addon_petlibro_local.Prelude.{
  ℕ, ◌*◌, refl, true, false, none, some, List, [], ◌∷◌, replicate,
}
use ha_addon_petlibro_local.Discovery.Counters.{no_counts}
use ha_addon_petlibro_local.Discovery.Plan.{Plan}
use ha_addon_petlibro_local.Discovery.Options.{ResolveOptions}
use ha_addon_petlibro_local.Discovery.Receive.{Reading, failed, packet}
use ha_addon_petlibro_local.Discovery.Search.{nothing, Env}
use ha_addon_petlibro_local.Discovery.Resolve.{resolve_with_plan, new_hunt}
use ha_addon_petlibro_local.Discovery.Resolve.Order.{Outcome, resolve_with_plan-Outcome}

abbrev uid : List ℕ
uid = replicate 20 65

-- A broadcast phase longer than the timeout, and no rate.
abbrev options : ResolveOptions
options = record {
  uid = uid;
  subnets = some (3232235776, 24) ∷ [];
  cached_ip = some 3232235781;
  candidates = some 3232235782 ∷ none ∷ [];
  timeout = 500000000;
  broadcast_duration = 0;
  max_unicast_per_second = 0;
}

abbrev plain : List ℕ → List ℕ
plain b = b

-- A packet without a source, one of another kind, a time-out, and the knock's answer.
abbrev answer : List ℕ
answer = replicate 44 65

abbrev reads : List Reading
reads =
    packet 0 answer true
    ∷ packet 3232235782 answer true
    ∷ failed false
    ∷ packet 3232235781 (replicate 60 7) true
    ∷ []

-- The cached address and the broadcasts are not answered, and the second host of the subnet is.
abbrev plan : Plan
plan = record {
  cached = 3232235781 ∷ [];
  broadcasts = 4294967295 ∷ 3232236031 ∷ [];
  candidates = 3232235782 ∷ [];
  unicasts = 3232235777 ∷ 3232235778 ∷ 3232235779 ∷ [];
  seen = [];
}

abbrev env : Env
env = record {
  ends = 1000;
  by_deadline = true;
  poll = λ n. nothing;
  writes = λ n. true;
  now = λ n. n * 10000000;
  reads = no_counts;
}

resolve_with_plan-Outcome_example :
    Outcome env plan (resolve_with_plan env options plan 500000000 new_hunt)
resolve_with_plan-Outcome_example =
    resolve_with_plan-Outcome env options plan 500000000 new_hunt refl
