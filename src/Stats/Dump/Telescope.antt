-- ===== src/Stats/Dump/Telescope.antt =====
-- Nothing is lost between two summaries.
use ha_addon_petlibro_local.Prelude.{
  ℕ, ◌<◌, ◌≡◌, true, List, [], ◌∷◌, if◌then◌else◌, add64, u64_mod,
}
use ha_addon_petlibro_local.Stats.{CountersSnapshot}
use ha_addon_petlibro_local.Stats.Dump.{DumpState, Report, summary, stalled_again}

-- The deltas that a report shows, whichever its form.
abbrev pub shown : Report → CountersSnapshot
shown (summary delta) = delta
shown (stalled_again count delta control) = delta

-- A counter that the deltas subtract, such as the datagrams read.
pub data Total : Type 0 where
  pkts_in other_frags vid_dropped frags_lost ack_sent : Total

abbrev pub read : Total → CountersSnapshot → ℕ
read pkts_in s = s.pkts_in
read other_frags s = s.other_frags
read vid_dropped s = s.vid_dropped
read frags_lost s = s.frags_lost
read ack_sent s = s.ack_sent

abbrev pub sum_shown : Total → List Report → ℕ
sum_shown t [] = 0
sum_shown t (r ∷ rs) = add64 (read t (shown r)) (sum_shown t rs)

-- The last snapshot's value, or the one before the first.
abbrev pub last_value : Total → ℕ → List CountersSnapshot → ℕ
last_value t before [] = before
last_value t before (cur ∷ more) = last_value t (read t cur) more

-- The value that the next delta is taken from.
abbrev pub base : Total → DumpState → ℕ
base t d = if d.have_prev_stats then read t d.prev_stats else 0

-- A stall is noted only by a call that keeps its snapshot.
pub record Noted (d : DumpState) : Type 0 where
  pub kept : d.stall_stats_active ≡ true → d.have_prev_stats ≡ true

-- One call.
record Dumped (t : Total) (d d' : DumpState) (cur : CountersSnapshot) (r : Report) : Type 0 where
  noted : Noted d'
  next_base : base t d' ≡ read t cur
  exact : add64 (base t d) (read t (shown r)) ≡ read t cur

-- Every snapshot holds 64-bit values of the counter.
abbrev pub InRange : Total → List CountersSnapshot → Type 0
InRange t [] = Unit {0}
InRange t (cur ∷ more) = (read t cur < u64_mod) × InRange t more
