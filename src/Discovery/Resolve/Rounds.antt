-- ===== src/Discovery/Resolve/Rounds.antt =====
-- The packets that the waits, the broadcast rounds and the sweep of pkg/petlibro/discovery.go send.
use mathlib.Core.List.{append-nil}
use ha_addon_petlibro_local.Prelude.{
  ℕ, zero, suc, ◌≤◌, sym, ◌∙◌, inl, inr, true, false, Bool-cases, List, [], ◌∷◌, ◌++◌, ltb, ◌==◌,
  arith,
}
use ha_addon_petlibro_local.Discovery.Search.{
  Stage, Env, Leg, Hunt, tick, select, and_then, send_one, send_stage,
}
use ha_addon_petlibro_local.Discovery.Search.Follows.{
  Follows, whole, answered, ran_out, legs, after-Follows, and_then-Follows, select-Follows,
}
use ha_addon_petlibro_local.Discovery.Search.Probe.{send_one-Follows, send_stage-Follows}
use ha_addon_petlibro_local.Discovery.Resolve.{
  only_match, wait_for, wait_spacing, broadcast_rounds, sweep,
}

only_match-Follows :
    {e : Env} {s : Hunt} (r : Stage × Hunt)
    → Follows e [] s r
    → Follows e [] s (only_match (r.0), r.1)
unfolding only_match
only_match-Follows r (whole l) = whole l
only_match-Follows r (answered done rest split l) = answered done rest split l
only_match-Follows r (ran_out [] rest split l end) = whole l
only_match-Follows r (ran_out (p ∷ done) rest split l end) = absurd (ground arith)

pub wait_for-Follows : (e : Env) (d : ℕ) (s : Hunt) → Follows e [] s (wait_for e d s)
unfolding wait_for
wait_for-Follows e d s = elim (Bool-cases (d == 0)) [
  | inl now ↦ rw now (only_match-Follows (select e s) (select-Follows e s))
  | inr later ↦ rw later (select-Follows e s)
]

-- A step of the clock before a stage.
pub ticked-Follows :
    {e : Env} {ps : List (Leg × ℕ)} (s : Hunt) {r : Stage × Hunt}
    → Follows e ps (tick s) r
    → Follows e ps s r
unfolding tick
ticked-Follows s (whole l) = whole l
ticked-Follows s (answered done rest split l) = answered done rest split l
ticked-Follows s (ran_out done rest split l end) = ran_out done rest split l end

wait_spacing-Follows :
    (e : Env) (until spacing : ℕ) (s : Hunt) → Follows e [] s (wait_spacing e until spacing s)
unfolding wait_spacing
wait_spacing-Follows e until spacing s = ticked-Follows s (wait_for-Follows e _ (tick s))

unfoldable pub times : ℕ → List (Leg × ℕ) → List (Leg × ℕ)
times zero ps = []
times (suc n) ps = ps ++ times n ps

-- The rounds that were begun.
pub record Rounds (e : Env) (ts : List ℕ) (n : ℕ) (s : Hunt) (r : Stage × Hunt) : Type 0 where
  pub count : ℕ
  pub few : count ≤ n
  pub follows : Follows e (times count (legs ts)) s r

pub sweep-Follows : (e : Env) (ts : List ℕ) (s : Hunt) → Follows e (legs ts) s (sweep e ts s)
unfolding sweep legs
sweep-Follows e [] s = whole (sym (append-nil s.log))
sweep-Follows e (t ∷ ts) s =
    and_then-Follows (sweep e ts)
      (and_then-Follows (send_one e false t)
        (and_then-Follows (select e) (select-Follows e s) (select-Follows e))
        (send_one-Follows e false t))
      (sweep-Follows e ts)

pub round-Follows :
    (e : Env) (ts : List ℕ) (until spacing : ℕ) (s : Hunt)
    → Follows e
        (legs ts)
        s
        (and_then (send_stage e ts true false (tick s)) (wait_spacing e until spacing))
round-Follows e ts until spacing s = rw (sym (append-nil (legs ts))) (
    ticked-Follows s (
      and_then-Follows (wait_spacing e until spacing) (send_stage-Follows e ts true false (tick s))
        (wait_spacing-Follows e until spacing)))

-- What follows a round counts its own rounds.
more-Rounds :
    {e : Env} {ts : List ℕ} {n : ℕ} {s : Hunt} {r : Stage × Hunt} (next : Hunt → Stage × Hunt)
    → Follows e (legs ts) s r
    → ((s' : Hunt) → Rounds e ts n s' (next s'))
    → Rounds e ts (suc n) s (and_then r next)
unfolding and_then times
more-Rounds {ts = ts} {s = s} next (whole {s' = s'} l) k = record {
  count = suc ((k s').count);
  few = omega (arith, (k s').few);
  follows = after-Follows (legs ts) s s' l ((k s').follows);
}
more-Rounds {ts = ts} next (answered done rest split l) k = record {
  count = 1;
  few = omega arith;
  follows = answered done rest (split ∙ sym (append-nil (legs ts))) l;
}
more-Rounds {ts = ts} next (ran_out done rest split l end) k = record {
  count = 1;
  few = omega arith;
  follows = ran_out done rest (split ∙ sym (append-nil (legs ts))) l end;
}

pub broadcast_rounds-Rounds :
    (e : Env) (ts : List ℕ) (until spacing n : ℕ) (s : Hunt)
    → Rounds e ts n s (broadcast_rounds e ts until spacing n s)
unfolding broadcast_rounds times
broadcast_rounds-Rounds e ts until spacing zero s = record {
  count = 0;
  few = omega arith;
  follows = whole (sym (append-nil s.log));
}
broadcast_rounds-Rounds e ts until spacing (suc n) s =
    elim (Bool-cases (ltb (e.now s.clock) until)) [
      | inl on ↦ rw on (
          more-Rounds (broadcast_rounds e ts until spacing n) (round-Follows e ts until spacing s)
            (broadcast_rounds-Rounds e ts until spacing n))
      | inr late ↦
          rw late
            (record { count = 0; few = omega arith; follows = whole (sym (append-nil s.log)) })
    ]
