-- ===== src/Discovery/Resolve/Order.antt =====
-- The order in which `resolveWithPlan` of pkg/petlibro/discovery.go probes the targets of its plan.
use mathlib.Core.List.{append-nil, append_assoc}
use ha_addon_petlibro_local.Prelude.{
  ℕ, ◌+◌, ◌/◌, ◌≤◌, ◌≡◌, refl, sym, ap, ◌∙◌, inl, inr, true, false, Bool-cases, none, some, List,
  [], ◌++◌, if◌then◌else◌, ltb, max, arith,
}
use ha_addon_petlibro_local.Discovery.Plan.{Plan}
use ha_addon_petlibro_local.Discovery.Options.{ResolveOptions}
use ha_addon_petlibro_local.Discovery.Search.{Stage, nothing, over, Env, Leg, Hunt, tick, ended}
use ha_addon_petlibro_local.Discovery.Search.Follows.{Follows, whole, answered, ran_out, legs}
use ha_addon_petlibro_local.Discovery.Search.Probe.{send_stage-Follows}
use ha_addon_petlibro_local.Discovery.Resolve.{
  Method, by_cached, by_broadcast, by_candidate, by_unicast, not_found, ResolveResult, start_result,
  finish, finish_or, give_up, post_scan, broadcast_phase, resolve_with_plan,
}
use ha_addon_petlibro_local.Discovery.Resolve.Rounds.{
  wait_for-Follows, ticked-Follows, times, sweep-Follows, broadcast_rounds-Rounds,
}

-- The packets to the targets of a plan, with `k` rounds of its broadcasts.
unfoldable pub schedule : Plan → ℕ → List (Leg × ℕ)
unfolding times
schedule plan k =
    legs plan.cached
    ++ (times k (legs plan.broadcasts) ++ (legs plan.candidates ++ legs plan.unicasts))

-- The packets logged are the first ones of a schedule with at most three rounds of broadcasts.
pub record Ordered (plan : Plan) (log : List (Leg × ℕ)) : Type 0 where
  pub rounds : ℕ
  pub few : rounds ≤ 3
  pub rest : List (Leg × ℕ)
  pub split : log ++ rest ≡ schedule plan rounds

-- The ends of a search: an address, the end of the context, or the end of the schedule.
pub data Outcome (e : Env) (plan : Plan) : ResolveResult × Hunt → Type 0 where
  resolved :
      {r : ResolveResult} {s : Hunt} (ip : ℕ)
      → r.ip_address ≡ some ip
      → Ordered plan s.log
      → Outcome e plan (r, s)
  expired :
      {r : ResolveResult} {s : Hunt}
      → r.ip_address ≡ none
      → ended e s ≡ true
      → Ordered plan s.log
      → Outcome e plan (r, s)
  exhausted :
      {r : ResolveResult} {s : Hunt} (k : ℕ)
      → r.ip_address ≡ none
      → k ≤ 3
      → s.log ≡ schedule plan k
      → Outcome e plan (r, s)

-- A log that stops inside the packets `ps` of a schedule.
cut-Ordered :
    (plan : Plan) (k : ℕ) {log start : List (Leg × ℕ)} (before ps later done rest : List (Leg × ℕ))
    → k ≤ 3
    → before ++ ps ++ later ≡ schedule plan k
    → start ≡ before
    → done ++ rest ≡ ps
    → log ≡ start ++ done
    → Ordered plan log
cut-Ordered plan k before ps later done rest few split start cut l = record {
  rounds = k;
  few = few;
  rest = rest ++ later;
  split =
      ap (λ x. x ++ (rest ++ later)) (l ∙ ap (λ x. x ++ done) start)
      ∙ append_assoc before done (rest ++ later)
      ∙ ap (λ x. before ++ x) (sym (append_assoc done rest later) ∙ ap (λ x. x ++ later) cut)
      ∙ sym (append_assoc before ps later)
      ∙ split;
}

-- A stage with the packets `ps`, before which `before` was logged and after which `later` is planned.
finish_or-Outcome :
    (e : Env) (o : ResolveOptions) (plan : Plan) (method : Method) {s : Hunt} {r : Stage × Hunt}
    (next : Hunt → ResolveResult × Hunt) (before ps later : List (Leg × ℕ)) (k : ℕ)
    → k ≤ 3
    → before ++ ps ++ later ≡ schedule plan k
    → s.log ≡ before
    → Follows e ps s r
    → ((s' : Hunt) → s'.log ≡ before ++ ps → Outcome e plan (next s'))
    → Outcome e plan (finish_or e o method r next)
unfolding finish_or finish start_result
finish_or-Outcome e o plan method next before ps later k few split start (whole {s' = s'} l) go =
    go s' (l ∙ ap (λ x. x ++ ps) start)
finish_or-Outcome e o plan method next before ps later k few split start
      (answered {s' = s'} {ip} done rest cut l) go =
    resolved ip refl (cut-Ordered plan k before ps later done rest few split start cut l)
finish_or-Outcome e o plan method next before ps later k few split start
      (ran_out {s' = s'} done rest cut l end) go =
    expired refl end (cut-Ordered plan k before ps later done rest few split start cut l)

finish-Outcome :
    (e : Env) (o : ResolveOptions) (plan : Plan) (k : ℕ) (s : Hunt)
    → k ≤ 3
    → s.log ≡ schedule plan k
    → Outcome e plan (finish e o not_found (if ended e s then over else nothing, s))
unfolding finish start_result
finish-Outcome e o plan k s few l = elim (Bool-cases (ended e s)) [
  | inl end ↦
      rw end (
        expired refl end
          (record { rounds = k; few = few; rest = []; split = append-nil s.log ∙ l }))
  | inr early ↦ rw early (exhausted k refl few l)
]

give_up-Outcome :
    (e : Env) (o : ResolveOptions) (plan : Plan) (deadline k : ℕ) (s : Hunt)
    → k ≤ 3
    → s.log ≡ schedule plan k
    → Outcome e plan (give_up e o deadline s)
unfolding give_up
give_up-Outcome e o plan deadline k s few l = elim (Bool-cases (ltb (e.now s.clock) deadline)) [
  | inl early ↦ rw early (finish-Outcome e o plan k (record s { clock = max s.clock e.ends }) few l)
  | inr late ↦ rw late (finish-Outcome e o plan k s few l)
]

post_scan-Outcome :
    (e : Env) (o : ResolveOptions) (plan : Plan) (deadline k : ℕ) (s : Hunt)
    → k ≤ 3
    → s.log ≡ schedule plan k
    → Outcome e plan (post_scan e o deadline s)
unfolding post_scan
post_scan-Outcome e o plan deadline k s few l =
    finish_or-Outcome e o plan by_unicast (give_up e o deadline) (schedule plan k) [] [] k few
      (append-nil _ ∙ append-nil _) l (ticked-Follows s (wait_for-Follows e _ (tick s)))
      (λ s' l'. give_up-Outcome e o plan deadline k s' few (l' ∙ append-nil _))

quad : (c t h u : List (Leg × ℕ)) → c ++ t ++ h ++ u ≡ c ++ (t ++ (h ++ u))
quad c t h u = append_assoc (c ++ t) h u ∙ append_assoc c t (h ++ u)

-- The search sends its packets in the order of the plan: to the cached address, to the broadcast
-- addresses in at most three rounds, to the candidates and then to the hosts of the subnets, each
-- target getting LAN_SEARCH3 twice and KNOCK2. Only the end of the schedule can be missing, and a
-- search that resolves no address has sent all of it or has seen the end of its context.
pub resolve_with_plan-Outcome :
    (e : Env) (o : ResolveOptions) (plan : Plan) (deadline : ℕ) (s : Hunt)
    → s.log ≡ []
    → Outcome e plan (resolve_with_plan e o plan deadline s)
unfolding resolve_with_plan broadcast_phase schedule
resolve_with_plan-Outcome e o plan deadline s fresh =
    let c = legs plan.cached in
    let h = legs plan.candidates in
    let u = legs plan.unicasts in
    finish_or-Outcome e o plan by_cached _ [] c (h ++ u) 0 (omega arith) refl fresh
      (send_stage-Follows e plan.cached false true s)
      (λ s1 l1.
        let b =
          broadcast_rounds-Rounds e plan.broadcasts (e.now s1.clock + o.broadcast_duration)
            (o.broadcast_duration / 3) 3 (tick s1) in
        let k = b.count in
        let t = times k (legs plan.broadcasts) in
        finish_or-Outcome e o plan by_broadcast _ c t (h ++ u) k b.few (append_assoc c t (h ++ u))
          l1 (ticked-Follows s1 b.follows)
          (λ s2 l2.
            finish_or-Outcome e o plan by_candidate _ (c ++ t) h u k b.few (quad c t h u) l2
              (send_stage-Follows e plan.candidates false true s2)
              (λ s3 l3.
                finish_or-Outcome e o plan by_unicast (post_scan e o deadline) (c ++ t ++ h) u [] k
                  b.few (append-nil _ ∙ quad c t h u) l3 (sweep-Follows e plan.unicasts s3)
                  (λ s4 l4. post_scan-Outcome e o plan deadline k s4 b.few (l4 ∙ quad c t h u)))))
