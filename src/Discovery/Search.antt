-- ===== src/Discovery/Search.antt =====
-- `resolveWithPlan` of pkg/petlibro/discovery.go with the functions it calls, as a program of explicit
-- steps. What the steps learn from outside comes from an environment indexed by a clock that each
-- step moves on.
pub mod Follows
pub mod Probe
use ha_addon_petlibro_local.Prelude.{
  ℕ, zero, suc, ◌+◌, ◌-◌, ◌/◌, Bool, true, false, not, ◌&&◌, ◌||◌, Option, none, some, List, [],
  ◌∷◌, ◌++◌, if◌then◌else◌, ltb, leb, ◌==◌, max, min, add64,
}
use ha_addon_petlibro_local.Discovery.Counters.{ResolveCounters}

-- What a stage of the search ends with, and what a `select` picks: nothing to report, the address of
-- a camera, or the end of the context.
pub data Stage : Type 0 where
  nothing over : Stage
  found : ℕ → Stage

-- The context is done from the step `ends` on, by its deadline or by a cancellation. `reads` are the
-- counters of the reader when the search ends.
pub record Env : Type 0 where
  pub ends : ℕ
  pub by_deadline : Bool
  pub poll : ℕ → Stage
  pub writes : ℕ → Bool
  pub now : ℕ → ℕ
  pub reads : ResolveCounters

-- The three packets of `discoveryProbe`.
pub data Leg : Type 0 where
  search1 search2 knock2 : Leg

-- The counters of the sender, and the packets it has handed to `WriteToUDP` with their targets.
pub record Hunt : Type 0 where
  pub clock : ℕ
  pub counters : ResolveCounters
  pub log : List (Leg × ℕ)

unfoldable pub tick : Hunt → Hunt
tick s = record s { clock = s.clock + 1 }

unfoldable pub ended : Env → Hunt → Bool
ended e s = leb e.ends s.clock

-- `ctx.Done()` can be picked only once the context is done.
unfoldable pub allow : Bool → Stage → Stage
allow done nothing = nothing
allow done over = if done then over else nothing
allow done (found ip) = found ip

unfoldable pub select : Env → Hunt → Stage × Hunt
unfolding tick ended allow
select e s = (allow (ended e s) (e.poll s.clock), tick s)

-- Early returns: what follows runs only when there is nothing to report.
unfoldable pub and_then : Stage × Hunt → (Hunt → Stage × Hunt) → Stage × Hunt
and_then (nothing, s) next = next s
and_then (over, s) next = (over, s)
and_then (found ip, s) next = (found ip, s)

unfoldable pub count_leg : Leg → ResolveCounters → ResolveCounters
count_leg search1 c = record c { lan_search_w3_1_sent = add64 c.lan_search_w3_1_sent 1 }
count_leg search2 c = record c { lan_search_w3_2_sent = add64 c.lan_search_w3_2_sent 1 }
count_leg knock2 c = record c { knock2_sent = add64 c.knock2_sent 1 }

unfoldable pub write_leg : Env → Leg → ℕ → Hunt → Hunt
unfolding count_leg
write_leg e leg target s =
    let c = s.counters in
    record {
      clock = s.clock + 1;
      counters =
          if e.writes s.clock
          then count_leg leg c
          else record c { send_errors = add64 c.send_errors 1 };
      log = s.log ++ ((leg, target) ∷ []);
    }

-- Inside the loop over the packets, with the variable `sent` and whether `lastErr` is set, or after a
-- return with the context's error.
pub data Sending : Type 0 where
  going : Bool → Bool → Sending
  stopped : Sending

unfoldable pub send_leg : Env → Leg → ℕ → Sending × Hunt → Sending × Hunt
unfolding ended write_leg
send_leg e leg target (stopped, s) = (stopped, s)
send_leg e leg target (going sent failed, s) =
    let ok = e.writes s.clock in
    if ended e s
    then (stopped, s)
    else (going (sent || ok) (failed || not ok), write_leg e leg target s)

-- The pause after the second packet.
unfoldable pub stop_on : Sending → Stage → Sending
stop_on g nothing = g
stop_on g over = stopped
stop_on g (found ip) = g

unfoldable pub settle_leg : Env → Sending × Hunt → Sending × Hunt
unfolding select stop_on
settle_leg e (stopped, s) = (stopped, s)
settle_leg e (going sent failed, s) = (stop_on (going sent failed) ((select e s).0), (select e s).1)

-- Whether an error is returned.
unfoldable pub conclude : Bool → Sending × Hunt → Bool × Hunt
conclude broadcast (stopped, s) = (true, s)
conclude broadcast (going sent failed, s) =
    let c = s.counters in
    let counted =
      if broadcast
      then record c { broadcasts = add64 c.broadcasts 1 }
      else record c { unicasts = add64 c.unicasts 1 } in
    (failed, record s { counters = if sent then counted else c })

unfoldable pub send_discovery_probe : Env → Bool → ℕ → Hunt → Bool × Hunt
unfolding send_leg settle_leg conclude
send_discovery_probe e broadcast target s =
    let searched = send_leg e search2 target (send_leg e search1 target (going false false, s)) in
    conclude broadcast (send_leg e knock2 target (settle_leg e searched))

-- An error of the sender counts only once the context is done.
unfoldable pub check_error : Env → Bool × Hunt → Stage × Hunt
check_error e (failed, s) = (if failed && ended e s then over else nothing, s)

unfoldable pub send_one : Env → Bool → ℕ → Hunt → Stage × Hunt
unfolding send_discovery_probe check_error
send_one e broadcast target s = check_error e (send_discovery_probe e broadcast target s)

unfoldable pub send_targets : Env → Bool → List ℕ → Hunt → Stage × Hunt
unfolding send_one and_then
send_targets e broadcast [] s = (nothing, s)
send_targets e broadcast (t ∷ ts) s =
    and_then (and_then (select e s) (send_one e broadcast t)) (send_targets e broadcast ts)

-- The last argument of the code's `sendStage`, a wait, is positive or 0.
unfoldable pub send_stage : Env → List ℕ → Bool → Bool → Hunt → Stage × Hunt
unfolding send_targets
send_stage e [] broadcast wait s = (nothing, s)
send_stage e (t ∷ ts) broadcast wait s =
    and_then (send_targets e broadcast (t ∷ ts) s)
      (λ s'. if wait then select e s' else (nothing, s'))
