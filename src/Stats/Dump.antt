-- ===== src/Stats/Dump.antt =====
-- `dumpStats` of pkg/petlibro/recv.go: the deltas since the last summary, and the watch for a stalled
-- stream. The two forms of the log line are the two reports.
pub mod Telescope
use ha_addon_petlibro_local.Prelude.{
  ℕ, Bool, true, false, not, ◌&&◌, ◌||◌, List, [], ◌∷◌, if◌then◌else◌, ltb, ◌==◌, add64, sub64,
}
use ha_addon_petlibro_local.Stats.{CountersSnapshot}

-- The fields of `Client` that only `dumpStats` uses.
pub record DumpState : Type 0 where
  pub prev_stats : CountersSnapshot
  pub have_prev_stats : Bool
  pub ack_curr_stall_warned : Bool
  pub stall_stats_active : Bool
  pub stall_stats_repeat : ℕ
  pub stall_control_pkts : ℕ
  pub stall_stats_watermark : ℕ
  pub stall_stats_high : ℕ
  pub stall_stats_current : ℕ
  pub stall_stats_pending : ℕ

-- The totals since `prev`; gauges and the largest loss are as they stand.
unfoldable pub delta_since : CountersSnapshot → CountersSnapshot → CountersSnapshot
delta_since prev cur = record {
  bytes_in = sub64 cur.bytes_in prev.bytes_in;
  pkts_in = sub64 cur.pkts_in prev.pkts_in;
  key_frags = sub64 cur.key_frags prev.key_frags;
  inter_frags = sub64 cur.inter_frags prev.inter_frags;
  audio_frags = sub64 cur.audio_frags prev.audio_frags;
  other_frags = sub64 cur.other_frags prev.other_frags;
  vid_frags = sub64 cur.vid_frags prev.vid_frags;
  vid_frames_in = sub64 cur.vid_frames_in prev.vid_frames_in;
  vid_frames_out = sub64 cur.vid_frames_out prev.vid_frames_out;
  vid_dropped = sub64 cur.vid_dropped prev.vid_dropped;
  frag_skips = sub64 cur.frag_skips prev.frag_skips;
  frags_lost = sub64 cur.frags_lost prev.frags_lost;
  force_drains = sub64 cur.force_drains prev.force_drains;
  recv_timeouts = sub64 cur.recv_timeouts prev.recv_timeouts;
  reader_drops = sub64 cur.reader_drops prev.reader_drops;
  emit_drops = sub64 cur.emit_drops prev.emit_drops;
  frag_idx_gap = sub64 cur.frag_idx_gap prev.frag_idx_gap;
  frame_num_jump_key = sub64 cur.frame_num_jump_key prev.frame_num_jump_key;
  frame_num_jump_inter = sub64 cur.frame_num_jump_inter prev.frame_num_jump_inter;
  expected_data_shortfall = sub64 cur.expected_data_shortfall prev.expected_data_shortfall;
  zero_data_hard_drop = sub64 cur.zero_data_hard_drop prev.zero_data_hard_drop;
  strict_idr_drop = sub64 cur.strict_idr_drop prev.strict_idr_drop;
  strict_p_drop = sub64 cur.strict_p_drop prev.strict_p_drop;
  force_drain_flush = sub64 cur.force_drain_flush prev.force_drain_flush;
  force_drain_entries = sub64 cur.force_drain_entries prev.force_drain_entries;
  deferred_drop = sub64 cur.deferred_drop prev.deferred_drop;
  frames_with_loss = sub64 cur.frames_with_loss prev.frames_with_loss;
  idr_frames_with_loss = sub64 cur.idr_frames_with_loss prev.idr_frames_with_loss;
  p_frames_with_loss = sub64 cur.p_frames_with_loss prev.p_frames_with_loss;
  missing_fragments_total = sub64 cur.missing_fragments_total prev.missing_fragments_total;
  max_missing_fragments_in_frame = cur.max_missing_fragments_in_frame;
  normal_media_packets = sub64 cur.normal_media_packets prev.normal_media_packets;
  extended_media_candidates = sub64 cur.extended_media_candidates prev.extended_media_candidates;
  extended_media_parsed = sub64 cur.extended_media_parsed prev.extended_media_parsed;
  extended_media_rejected = sub64 cur.extended_media_rejected prev.extended_media_rejected;
  extended_media_data_packets =
      sub64 cur.extended_media_data_packets prev.extended_media_data_packets;
  extended_media_end_packets = sub64 cur.extended_media_end_packets prev.extended_media_end_packets;
  extended_media_rare_packets =
      sub64 cur.extended_media_rare_packets prev.extended_media_rare_packets;
  unknown_0c08_remaining = sub64 cur.unknown_0c08_remaining prev.unknown_0c08_remaining;
  unknown_0c0d_remaining = sub64 cur.unknown_0c0d_remaining prev.unknown_0c0d_remaining;
  sequence_seen_but_unhandled =
      sub64 cur.sequence_seen_but_unhandled prev.sequence_seen_but_unhandled;
  sequence_seen_and_assembled =
      sub64 cur.sequence_seen_and_assembled prev.sequence_seen_and_assembled;
  frame_info_changes = sub64 cur.frame_info_changes prev.frame_info_changes;
  frame_info_unexpected = sub64 cur.frame_info_unexpected prev.frame_info_unexpected;
  frame_info_codec = cur.frame_info_codec;
  frame_info_flag = cur.frame_info_flag;
  frame_info_online_num = cur.frame_info_online_num;
  transport_ack_received = sub64 cur.transport_ack_received prev.transport_ack_received;
  timing_probes_received = sub64 cur.timing_probes_received prev.timing_probes_received;
  timing_responses_sent = sub64 cur.timing_responses_sent prev.timing_responses_sent;
  timing_feedback_received = sub64 cur.timing_feedback_received prev.timing_feedback_received;
  reliable_recv_ack = cur.reliable_recv_ack;
  ack_nack_count = cur.ack_nack_count;
  ack_send_count = cur.ack_send_count;
  ack_watermark = cur.ack_watermark;
  ack_seen_pending = cur.ack_seen_pending;
  ack_seen_ranges = cur.ack_seen_ranges;
  ack_tracking_overflow = sub64 cur.ack_tracking_overflow prev.ack_tracking_overflow;
  ack_duplicate_or_old = sub64 cur.ack_duplicate_or_old prev.ack_duplicate_or_old;
  ack_advanced = sub64 cur.ack_advanced prev.ack_advanced;
  ack_high = cur.ack_high;
  ack_sent = sub64 cur.ack_sent prev.ack_sent;
  ack_prev_low16 = cur.ack_prev_low16;
  ack_current_low16 = cur.ack_current_low16;
}

unfoldable pub delta_of : DumpState → CountersSnapshot → CountersSnapshot
delta_of d cur = if d.have_prev_stats then delta_since d.prev_stats cur else cur

-- The full line with its deltas, or the short line of a stalled stream: its repeat count, the deltas
-- that it shows, and the control packets since the stall began.
pub data Report : Type 0 where
  summary : CountersSnapshot → Report
  stalled_again : ℕ → CountersSnapshot → ℕ → Report

-- Whether the warning that the reported position stands still has been given.
unfoldable pub warn_stall : DumpState → CountersSnapshot → Bool
warn_stall d cur =
    if d.have_prev_stats
      && cur.ack_current_low16 == d.prev_stats.ack_current_low16
      && ltb d.prev_stats.ack_high cur.ack_high
      && not d.ack_curr_stall_warned
    then true
    else if not d.have_prev_stats || not (cur.ack_current_low16 == d.prev_stats.ack_current_low16)
    then false
    else d.ack_curr_stall_warned

unfoldable pub is_stalled : CountersSnapshot → Bool
is_stalled delta =
    delta.key_frags == 0
    && delta.inter_frags == 0
    && delta.audio_frags == 0
    && delta.vid_frames_in == 0

unfoldable pub same_stall_state : DumpState → CountersSnapshot → Bool
same_stall_state d cur =
    d.stall_stats_active
    && cur.ack_watermark == d.stall_stats_watermark
    && cur.ack_high == d.stall_stats_high
    && cur.ack_current_low16 == d.stall_stats_current
    && cur.ack_seen_pending == d.stall_stats_pending

-- The short line: `havePrevStats` is left as it is.
unfoldable pub repeat_stall :
    DumpState → CountersSnapshot → CountersSnapshot → Bool → DumpState × Report
repeat_stall d cur delta warned =
    let d' = record d {
      ack_curr_stall_warned = warned;
      stall_stats_repeat = add64 d.stall_stats_repeat 1;
      stall_control_pkts = add64 d.stall_control_pkts delta.other_frags;
      prev_stats = cur;
    } in
    (d', stalled_again d'.stall_stats_repeat delta d'.stall_control_pkts)

unfoldable pub full_summary :
    DumpState → CountersSnapshot → CountersSnapshot → Bool → DumpState × Report
full_summary d cur delta warned = (
  record {
    prev_stats = cur;
    have_prev_stats = true;
    ack_curr_stall_warned = warned;
    stall_stats_active = is_stalled delta;
    stall_stats_repeat = 0;
    stall_control_pkts = delta.other_frags;
    stall_stats_watermark = cur.ack_watermark;
    stall_stats_high = cur.ack_high;
    stall_stats_current = cur.ack_current_low16;
    stall_stats_pending = cur.ack_seen_pending;
  },
  summary delta,
)

unfoldable pub dump_stats : DumpState → CountersSnapshot → DumpState × Report
unfolding repeat_stall full_summary
dump_stats d cur =
    let delta = delta_of d cur in
    if is_stalled delta && same_stall_state d cur
    then repeat_stall d cur delta (warn_stall d cur)
    else full_summary d cur delta (warn_stall d cur)

-- The reports of successive calls.
unfoldable pub dump_all : DumpState → List CountersSnapshot → List Report
dump_all d [] = []
dump_all d (cur ∷ more) = let (d', report) = dump_stats d cur in report ∷ dump_all d' more
