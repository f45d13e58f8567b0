-- ===== src/Discovery/Resolve.antt =====
-- `resolveWithPlan`, `ResolveUIDContext` and `discoverByUID` of pkg/petlibro/discovery.go, composed of
-- the stages of the search.
pub mod Rounds
pub mod Order
use ha_addon_petlibro_local.Prelude.{
  ℕ, zero, suc, ◌+◌, ◌-◌, ◌/◌, Bool, true, false, not, ◌&&◌, ◌||◌, Option, none, some, List, [],
  ◌∷◌, ◌++◌, if◌then◌else◌, ltb, leb, ◌==◌, max, min, length,
}
use ha_addon_petlibro_local.Discovery.Plan.{
  Plan, ResolveStats, FailureCode, send_failed, classify_resolve_failure, build_discovery_plan,
  Interface,
}
use ha_addon_petlibro_local.Discovery.Counters.{ResolveCounters, no_counts, snapshot}
use ha_addon_petlibro_local.Discovery.Options.{
  ResolveOptions, OptionError, Validated, valid, invalid, validate_resolve_options,
}
use ha_addon_petlibro_local.Discovery.Search.{
  Stage, nothing, over, found, Env, Hunt, tick, ended, select, and_then, send_one, send_stage,
}

abbrev pub default_post_scan_response_wait : ℕ
default_post_scan_response_wait = 300000000

-- A `select` with no case for the context.
unfoldable pub only_match : Stage → Stage
only_match nothing = nothing
only_match over = nothing
only_match (found ip) = found ip

-- The closure `waitFor`; a duration that is not positive is 0.
unfoldable pub wait_for : Env → ℕ → Hunt → Stage × Hunt
unfolding select only_match
wait_for e duration s =
    let (picked, s') = select e s in (if duration == 0 then only_match picked else picked, s')

-- `time.Until(t)`, or 0 when `t` has passed.
unfoldable pub time_until : Env → ℕ → Hunt → ℕ
time_until e t s = t - e.now s.clock

unfoldable pub wait_spacing : Env → ℕ → ℕ → Hunt → Stage × Hunt
unfolding wait_for time_until
wait_spacing e until spacing s =
    let remaining = time_until e until s in
    wait_for e (if ltb spacing remaining then spacing else remaining) (tick s)

-- The rounds of the broadcast phase, `n` of them at most.
unfoldable pub broadcast_rounds : Env → List ℕ → ℕ → ℕ → ℕ → Hunt → Stage × Hunt
unfolding wait_spacing
broadcast_rounds e targets until spacing zero s = (nothing, s)
broadcast_rounds e targets until spacing (suc n) s =
    if ltb (e.now s.clock) until
    then and_then
        (and_then (send_stage e targets true false (tick s)) (wait_spacing e until spacing))
        (broadcast_rounds e targets until spacing n)
    else (nothing, tick s)

-- The paced loop over the unicast targets, with its two `select`s.
unfoldable pub sweep : Env → List ℕ → Hunt → Stage × Hunt
sweep e [] s = (nothing, s)
sweep e (t ∷ ts) s =
    and_then (and_then (and_then (select e s) (select e)) (send_one e false t)) (sweep e ts)

pub data Method : Type 0 where
  by_cached by_broadcast by_candidate by_unicast not_found : Method

pub data ErrorCode : Type 0 where
  invalid_request : ErrorCode
  failure : FailureCode → ErrorCode

-- `ResolveResult` with the method, and the counters of the time of the end; the elapsed time and the
-- texts are left out.
pub record ResolveResult : Type 0 where
  pub uid : List ℕ
  pub subnet : Option (Option (ℕ × ℕ))
  pub method : Method
  pub resolved : Bool
  pub ip_address : Option ℕ
  pub error_code : Option ErrorCode
  pub stats : Option ResolveStats

unfoldable pub one_subnet : List (Option (ℕ × ℕ)) → Option (Option (ℕ × ℕ))
one_subnet [] = none
one_subnet (subnet ∷ []) = some subnet
one_subnet (subnet ∷ other ∷ more) = none

unfoldable pub start_result : ResolveOptions → ResolveResult
unfolding one_subnet
start_result o = record {
  uid = o.uid;
  subnet = one_subnet o.subnets;
  method = not_found;
  resolved = false;
  ip_address = none;
  error_code = none;
  stats = none;
}

-- The counters that the sender and the reader share: each counter is written by one of them.
unfoldable pub all_counters : ResolveCounters → ResolveCounters → ResolveCounters
all_counters sender reader = record sender {
  lan_search_r_received = reader.lan_search_r_received;
  knock_rr2_received = reader.knock_rr2_received;
  wrong_uid_rejected = reader.wrong_uid_rejected;
  nonce_mismatch_rejected = reader.nonce_mismatch_rejected;
  received = reader.received;
  rejected = reader.rejected;
}

-- The stage that the closure `finish` is given: `nothing` for no address and no cause.
unfoldable pub finish : Env → ResolveOptions → Method → Stage × Hunt → ResolveResult × Hunt
unfolding start_result all_counters
finish e o method (nothing, s) =
    let stats = snapshot (all_counters s.counters e.reads) (e.by_deadline && ended e s) in
    let code = classify_resolve_failure false stats in
    (record (start_result o) { error_code = some (failure code); stats = some stats }, s)
finish e o method (over, s) =
    let stats = snapshot (all_counters s.counters e.reads) e.by_deadline in
    let code = classify_resolve_failure e.by_deadline stats in
    (record (start_result o) { error_code = some (failure code); stats = some stats }, s)
finish e o method (found ip, s) =
    let stats = snapshot (all_counters s.counters e.reads) (e.by_deadline && ended e s) in
    (
      record (start_result o) {
        method = method;
        resolved = true;
        ip_address = some ip;
        stats = some stats;
      },
      s,
    )

-- A stage that has something to report ends the search.
unfoldable pub finish_or :
    Env
    → ResolveOptions
    → Method
    → Stage × Hunt
    → (Hunt → ResolveResult × Hunt)
    → ResolveResult × Hunt
unfolding finish
finish_or e o method (nothing, s) next = next s
finish_or e o method (over, s) next = finish e o method (over, s)
finish_or e o method (found ip, s) next = finish e o method (found ip, s)

-- The end of the search without an answer: before the deadline it blocks until the context is done.
unfoldable pub give_up : Env → ResolveOptions → ℕ → Hunt → ResolveResult × Hunt
give_up e o deadline s =
    let s' = if ltb (e.now s.clock) deadline then record s { clock = max s.clock e.ends } else s in
    finish e o not_found (if ended e s' then over else nothing, s')

unfoldable pub post_scan : Env → ResolveOptions → ℕ → Hunt → ResolveResult × Hunt
unfolding finish_or give_up
post_scan e o deadline s =
    let wait = min default_post_scan_response_wait (time_until e deadline s) in
    finish_or e o by_unicast (wait_for e wait (tick s)) (give_up e o deadline)

unfoldable pub broadcast_phase : Env → ResolveOptions → Plan → Hunt → Stage × Hunt
unfolding broadcast_rounds
broadcast_phase e o plan s =
    broadcast_rounds e plan.broadcasts (e.now s.clock + o.broadcast_duration)
      (o.broadcast_duration / 3) 3 (tick s)

unfoldable pub resolve_with_plan : Env → ResolveOptions → Plan → ℕ → Hunt → ResolveResult × Hunt
unfolding sweep post_scan broadcast_phase
resolve_with_plan e o plan deadline s =
    finish_or e o by_cached (send_stage e plan.cached false true s) (λ s1.
      finish_or e o by_broadcast (broadcast_phase e o plan s1) (λ s2.
        finish_or e o by_candidate (send_stage e plan.candidates false true s2)
          (λ s3. finish_or e o by_unicast (sweep e plan.unicasts s3) (post_scan e o deadline))))

abbrev pub new_hunt : Hunt
new_hunt = record { clock = 0; counters = no_counts; log = [] }

-- `ResolveUIDContext`, where `bound` and `drawn` tell whether the socket and the nonce were had.
unfoldable pub resolve_uid_context :
    Env → ResolveOptions → Bool → Bool → List Interface → ℕ → ResolveResult
unfolding start_result resolve_with_plan
resolve_uid_context e o bound drawn interfaces deadline = elim (validate_resolve_options o) [
  | invalid err ↦ record (start_result o) { error_code = some invalid_request }
  | valid o' ↦
      let plan = build_discovery_plan o'.cached_ip o'.subnets o'.candidates interfaces in
      if bound && drawn
      then (resolve_with_plan e o' plan deadline new_hunt).0
      else record (start_result o) { error_code = some (failure send_failed) }
]

-- What `discoverByUID` returns.
pub data Discovered : Type 0 where
  refused : OptionError → Discovered
  missing : ResolveResult → Discovered
  address : ℕ → Discovered

unfoldable pub store_found : Option ℕ → ResolveResult → Discovered × Option ℕ
store_found cell result = elim (result.ip_address) [
  | none ↦ (missing result, cell)
  | some ip ↦ (address ip, some ip)
]

-- `discoverByUID`, with the cell of the discovery cache at the key of the UID and the subnets.
unfoldable pub discover_by_uid :
    Env → List ℕ → List (Option (ℕ × ℕ)) → ℕ → List Interface → ℕ → Option ℕ → Discovered × Option ℕ
unfolding resolve_with_plan store_found
discover_by_uid e uid subnets timeout interfaces deadline cell =
    let given : ResolveOptions = record {
      uid = uid;
      subnets = subnets;
      cached_ip = none;
      candidates = [];
      timeout = timeout;
      broadcast_duration = 0;
      max_unicast_per_second = 0;
    } in
    elim (validate_resolve_options given) [
      | invalid err ↦ (refused err, cell)
      | valid o' ↦
          let o = record o' { cached_ip = cell } in
          let plan = build_discovery_plan o.cached_ip o.subnets o.candidates interfaces in
          store_found cell ((resolve_with_plan e o plan deadline new_hunt).0)
    ]
