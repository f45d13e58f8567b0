-- ===== src/Ack/Receive.antt =====
-- `initACKTracking`, `markACKReceived` and `contiguousAckExt` of pkg/petlibro/recv.go. The fields
-- of `Client` that `ackMu` guards are a record of their own; `now` is the clock reading of a call.
pub mod Advance
pub mod Invariant
use ha_addon_petlibro_local.Prelude.{
  ℕ, ◌-◌, ◌*◌, ◌%◌, ◌≡◌, Bool, true, false, not, ◌&&◌, ◌||◌, Option, none, some, List, [], ◌∷◌,
  if◌then◌else◌, ltb, leb, ◌==◌, add64, sub64, to_u16, u64_mod, length,
}
use ha_addon_petlibro_local.Stats.{Counters}
use ha_addon_petlibro_local.Ack.Ranges.{
  AckSeenRange, Insertion, inserted, duplicate, overflow, insert_ack_seen, covered,
}

-- `ackGapStarted` is `none` for Go's zero time.
pub record Ack : Type 0 where
  pub reported : ℕ
  pub watermark : ℕ
  pub high : ℕ
  pub seen_ranges : List AckSeenRange
  pub seen_pending : ℕ
  pub reliable_recv : ℕ
  pub reliable_recv_set : Bool
  pub reliable_seen : List ℕ
  pub send_count : ℕ
  pub gap_started : Option ℕ
  pub pending_warn : ℕ

-- The tracing flags of `Client` that `markACKReceived` reads.
pub record AckTrace : Type 0 where
  pub verbose : Bool
  pub trace_ack : Bool

abbrev pub second : ℕ
second = 1000000000

-- The mirror of the next AV position, which the Go code also sets here, is not part of this record.
unfoldable pub init_ack_tracking : Ack → Counters → ℕ → Ack × Counters
init_ack_tracking a st watermark = (
  record a {
    pending_warn = 32;
    reported = watermark;
    watermark = watermark;
    high = watermark;
    seen_ranges = [];
    seen_pending = 0;
  },
  record st {
    ack_watermark = watermark;
    ack_seen_pending = 0;
    ack_seen_ranges = 0;
    ack_high = watermark;
    ack_prev_low16 = to_u16 watermark;
    ack_current_low16 = to_u16 watermark;
  },
)

unfoldable pub raise_high : Ack → ℕ → Ack
raise_high a sub_ext = if ltb a.high sub_ext then record a { high = sub_ext } else a

-- The loop over the ranges that continue the watermark: `(advanced, watermark, ranges)`.
unfoldable pub advance : ℕ → ℕ → List AckSeenRange → ℕ × ℕ × List AckSeenRange
advance advanced w [] = (advanced, w, [])
advance advanced w (r ∷ rs) =
    let more = advance (add64 advanced (sub64 r.last w)) r.last rs in
    if r.first == add64 w 1 then more else (advanced, w, r ∷ rs)

-- `!ackGapStarted.IsZero() && time.Since(ackGapStarted) >= time.Second`
unfoldable pub gap_is_old : Option ℕ → ℕ → Bool
gap_is_old none now = false
gap_is_old (some t) now = leb second (now - t)

-- A gap that moved after a second or more is logged, and counts as started anew.
unfoldable pub restart_gap : AckTrace → ℕ → ℕ → Ack → Ack
unfolding gap_is_old
restart_gap t now advanced a =
    if not (advanced == 0) && t.verbose && not t.trace_ack && gap_is_old a.gap_started now
    then record a { gap_started = some now }
    else a

unfoldable pub gap_or_now : Option ℕ → ℕ → Option ℕ
gap_or_now none now = some now
gap_or_now (some t) now = some t

-- The gap clock and the doubling warning threshold.
unfoldable pub watch_gap : AckTrace → ℕ → Ack → Ack
unfolding gap_or_now
watch_gap t now a =
    if a.seen_pending == 0 then record a { gap_started = none; pending_warn = 32 } else record a {
      gap_started = gap_or_now a.gap_started now;
      pending_warn =
          if t.verbose && not t.trace_ack && leb a.pending_warn a.seen_pending
          then (a.pending_warn * 2) % u64_mod
          else a.pending_warn;
    }

-- The insertion's ranges, and the watermark moved over those that it reached.
unfoldable pub take_ranges : Ack → List AckSeenRange → Ack
take_ranges a ranges =
    let (advanced, w, rest) = advance 0 a.watermark ranges in
    record a {
      watermark = w;
      seen_ranges = rest;
      seen_pending = sub64 (add64 a.seen_pending 1) advanced;
    }

unfoldable pub advanced_by : Ack → List AckSeenRange → ℕ
advanced_by a ranges = (advance 0 a.watermark ranges).0

unfoldable pub store_gauges : Ack → ℕ → Counters → Counters
store_gauges a advanced st = record st {
  ack_advanced = add64 st.ack_advanced advanced;
  ack_watermark = a.watermark;
  ack_seen_pending = a.seen_pending;
  ack_seen_ranges = length a.seen_ranges;
}

unfoldable pub accept_range : AckTrace → ℕ → Ack → Counters → List AckSeenRange → Ack × Counters
accept_range t now a st ranges =
    let advanced = advanced_by a ranges in
    let a' = watch_gap t now (restart_gap t now advanced (take_ranges a ranges)) in
    (a', store_gauges a' advanced st)

unfoldable pub count_duplicate : Counters → Counters
count_duplicate st = record st { ack_duplicate_or_old = add64 st.ack_duplicate_or_old 1 }

unfoldable pub count_overflow : Ack → Counters → Counters
count_overflow a st = record st {
  ack_tracking_overflow = add64 st.ack_tracking_overflow 1;
  ack_seen_ranges = length a.seen_ranges;
}

unfoldable pub record_position : AckTrace → ℕ → Ack → Counters → Insertion → Ack × Counters
record_position t now a st (inserted ranges) = accept_range t now a st ranges
record_position t now a st duplicate = (a, count_duplicate st)
record_position t now a st overflow = (a, count_overflow a st)

unfoldable pub mark_ack_received : AckTrace → ℕ → Ack → Counters → ℕ → Ack × Counters
mark_ack_received t now a st sub_ext =
    let a' = raise_high a sub_ext in
    let st' = record st { ack_high = if ltb a.high sub_ext then sub_ext else st.ack_high } in
    if leb sub_ext a.watermark
    then (a', count_duplicate st')
    else record_position t now a' st' (insert_ack_seen a.seen_ranges sub_ext)

unfoldable pub contiguous_ack_ext : Ack → ℕ
contiguous_ack_ext a = a.watermark

-- Whether a position was received and is still tracked.
abbrev pub seen : Ack → ℕ → Bool
seen a p = leb p a.watermark || covered a.seen_ranges p
