-- ===== src/Discovery/Search/Probe.antt =====
-- The packets that `sendDiscoveryProbe` and `sendStage` of pkg/petlibro/discovery.go send.
use mathlib.Core.List.{append-nil}
use ha_addon_petlibro_local.Prelude.{
  ℕ, ◌≡◌, refl, sym, inl, inr, Bool, true, false, ◌&&◌, Bool-cases, List, [], ◌∷◌, ◌++◌,
  if◌then◌else◌, arith,
}
use ha_addon_petlibro_local.Discovery.Search.{
  Stage, nothing, over, found, Env, Leg, search1, search2, knock2, Hunt, Sending, going, stopped,
  tick, ended, allow, select, write_leg, send_leg, settle_leg, stop_on, conclude,
  send_discovery_probe, check_error, send_one, send_targets, send_stage,
}
use ha_addon_petlibro_local.Discovery.Search.Follows.{
  ended_later, Follows, whole, ran_out, legs_of, legs, log_trans, and_then-Follows, select-Follows,
}

-- Inside a probe of the packets `ps`, of which `done` are sent; it stops early only when the context
-- is done.
data Writes (e : Env) (ps done : List (Leg × ℕ)) (s : Hunt) : Sending × Hunt → Type 0 where
  writing :
      {s' : Hunt} {sent failed : Bool}
      → s'.log ≡ s.log ++ done
      → Writes e ps done s (going sent failed, s')
  halted :
      {s' : Hunt} (first rest : List (Leg × ℕ))
      → first ++ rest ≡ ps
      → s'.log ≡ s.log ++ first
      → ended e s' ≡ true
      → Writes e ps done s (stopped, s')

send_leg-Writes :
    (e : Env) (leg : Leg) (target : ℕ) {ps done : List (Leg × ℕ)} (rest : List (Leg × ℕ)) {s : Hunt}
    {g : Sending × Hunt}
    → done ++ rest ≡ ps
    → Writes e ps done s g
    → Writes e ps (done ++ ((leg, target) ∷ [])) s (send_leg e leg target g)
unfolding send_leg write_leg
send_leg-Writes e leg target rest split (halted first rest' split' l end) =
    halted first rest' split' l end
send_leg-Writes e leg target {done = done} rest {s = s} split (writing {s' = s'} l) =
    elim (Bool-cases (ended e s')) [
      | inl end ↦ rw end (halted done rest split l end)
      | inr open_ ↦ rw open_ (writing (log_trans s.log done ((leg, target) ∷ []) l refl))
    ]

picked-Writes :
    (e : Env) {ps done : List (Leg × ℕ)} (rest : List (Leg × ℕ)) {s : Hunt} (s' : Hunt)
    (sent failed late : Bool) (st : Stage)
    → done ++ rest ≡ ps
    → s'.log ≡ s.log ++ done
    → (late ≡ true → ended e s' ≡ true)
    → Writes e ps done s (stop_on (going sent failed) (allow late st), s')
unfolding allow stop_on
picked-Writes e rest s' sent failed late nothing split l end = writing l
picked-Writes e rest s' sent failed late (found ip) split l end = writing l
picked-Writes e rest s' sent failed true over split l end = halted _ rest split l (end refl)
picked-Writes e rest s' sent failed false over split l end = writing l

settle_leg-Writes :
    (e : Env) {ps done : List (Leg × ℕ)} (rest : List (Leg × ℕ)) {s : Hunt} {g : Sending × Hunt}
    → done ++ rest ≡ ps
    → Writes e ps done s g
    → Writes e ps done s (settle_leg e g)
unfolding settle_leg select tick
settle_leg-Writes e rest split (halted first rest' split' l end) = halted first rest' split' l end
settle_leg-Writes e rest split (writing {s' = s'} {sent} {failed} l) =
    picked-Writes e rest (tick s') sent failed (ended e s') (e.poll s'.clock) split l
      (ended_later e s')

checked-Follows :
    (e : Env) (ps : List (Leg × ℕ)) (s s' : Hunt) (failed : Bool)
    → s'.log ≡ s.log ++ ps
    → Follows e ps s (check_error e (failed, s'))
unfolding check_error
checked-Follows e ps s s' failed l = elim (Bool-cases (failed && ended e s')) [
  | inl fatal ↦ rw fatal (ran_out ps [] (append-nil ps) l (ground arith))
  | inr passed_over ↦ rw passed_over (whole l)
]

-- A probe without an early return may still end in an error, of its writes.
probe-Follows :
    (e : Env) (broadcast : Bool) (t : ℕ) (s : Hunt) {g : Sending × Hunt}
    → Writes e (legs_of t) (legs_of t) s g
    → Follows e (legs_of t) s (check_error e (conclude broadcast g))
unfolding conclude check_error legs_of
probe-Follows e broadcast t s (halted {s' = s'} first rest split l end) =
    rw end (ran_out first rest split l end)
probe-Follows e broadcast t s (writing {s' = s'} {sent} {failed} l) =
    checked-Follows e (legs_of t) s _ failed l

pub send_one-Follows :
    (e : Env) (broadcast : Bool) (t : ℕ) (s : Hunt)
    → Follows e (legs_of t) s (send_one e broadcast t s)
unfolding send_one send_discovery_probe legs_of
send_one-Follows e broadcast t s =
    let last = (knock2, t) ∷ [] in
    let start : Writes e (legs_of t) [] s (going false false, s) =
      writing (sym (append-nil s.log)) in
    let first = send_leg-Writes e search1 t (legs_of t) refl start in
    let second = send_leg-Writes e search2 t ((search2, t) ∷ last) refl first in
    let paused = settle_leg-Writes e last refl second in
    probe-Follows e broadcast t s (send_leg-Writes e knock2 t last refl paused)

send_targets-Follows :
    (e : Env) (broadcast : Bool) (ts : List ℕ) (s : Hunt)
    → Follows e (legs ts) s (send_targets e broadcast ts s)
unfolding send_targets legs
send_targets-Follows e broadcast [] s = whole (sym (append-nil s.log))
send_targets-Follows e broadcast (t ∷ ts) s =
    and_then-Follows (send_targets e broadcast ts)
      (and_then-Follows (send_one e broadcast t) (select-Follows e s)
        (send_one-Follows e broadcast t))
      (send_targets-Follows e broadcast ts)

wait-Follows :
    (e : Env) (wait : Bool) (s : Hunt) → Follows e [] s (if wait then select e s else (nothing, s))
wait-Follows e true s = select-Follows e s
wait-Follows e false s = whole (sym (append-nil s.log))

pub send_stage-Follows :
    (e : Env) (ts : List ℕ) (broadcast wait : Bool) (s : Hunt)
    → Follows e (legs ts) s (send_stage e ts broadcast wait s)
unfolding send_stage legs
send_stage-Follows e [] broadcast wait s = whole (sym (append-nil s.log))
send_stage-Follows e (t ∷ ts) broadcast wait s =
    rw (sym (append-nil (legs (t ∷ ts))))
      (and_then-Follows _ (send_targets-Follows e broadcast (t ∷ ts) s) (wait-Follows e wait))
