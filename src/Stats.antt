-- ===== src/Stats.antt =====
-- The stream-health counters of pkg/petlibro/client.go. Each is a uint64 that `Add` may wrap.
pub mod Dump
use ha_addon_petlibro_local.Prelude.{ℕ}

-- `counters`: the atomics that the reader and the processor goroutine write.
pub record Counters : Type 0 where
  pub bytes_in : ℕ
  pub pkts_in : ℕ
  pub key_frags : ℕ
  pub inter_frags : ℕ
  pub audio_frags : ℕ
  pub other_frags : ℕ
  pub vid_frags : ℕ
  pub vid_frames_in : ℕ
  pub vid_frames_out : ℕ
  pub vid_dropped : ℕ
  pub frag_skips : ℕ
  pub frags_lost : ℕ
  pub force_drains : ℕ
  pub recv_timeouts : ℕ
  pub reader_drops : ℕ
  pub emit_drops : ℕ
  pub frag_idx_gap : ℕ
  pub frame_num_jump_key : ℕ
  pub frame_num_jump_inter : ℕ
  pub expected_data_shortfall : ℕ
  pub zero_data_hard_drop : ℕ
  pub strict_idr_drop : ℕ
  pub strict_p_drop : ℕ
  pub force_drain_flush : ℕ
  pub force_drain_entries : ℕ
  pub deferred_drop : ℕ
  pub frames_with_loss : ℕ
  pub idr_frames_with_loss : ℕ
  pub p_frames_with_loss : ℕ
  pub missing_fragments_total : ℕ
  pub max_missing_fragments_in_frame : ℕ
  pub normal_media_packets : ℕ
  pub extended_media_candidates : ℕ
  pub extended_media_parsed : ℕ
  pub extended_media_rejected : ℕ
  pub extended_media_data_packets : ℕ
  pub extended_media_end_packets : ℕ
  pub extended_media_rare_packets : ℕ
  pub unknown_0c08_remaining : ℕ
  pub unknown_0c0d_remaining : ℕ
  pub sequence_seen_but_unhandled : ℕ
  pub sequence_seen_and_assembled : ℕ
  pub frame_info_changes : ℕ
  pub frame_info_unexpected : ℕ
  pub frame_info_codec : ℕ
  pub frame_info_flag : ℕ
  pub frame_info_online_num : ℕ
  pub transport_ack_received : ℕ
  pub timing_probes_received : ℕ
  pub timing_responses_sent : ℕ
  pub timing_feedback_received : ℕ
  pub reliable_recv_ack : ℕ
  pub ack_nack_count : ℕ
  pub ack_send_count : ℕ
  pub ack_watermark : ℕ
  pub ack_seen_pending : ℕ
  pub ack_seen_ranges : ℕ
  pub ack_tracking_overflow : ℕ
  pub ack_duplicate_or_old : ℕ
  pub ack_advanced : ℕ
  pub ack_high : ℕ
  pub ack_sent : ℕ
  pub ack_prev_low16 : ℕ
  pub ack_current_low16 : ℕ

-- `countersSnapshot`: the plain values that `snapshot` loads.
pub record CountersSnapshot : Type 0 where
  pub bytes_in : ℕ
  pub pkts_in : ℕ
  pub key_frags : ℕ
  pub inter_frags : ℕ
  pub audio_frags : ℕ
  pub other_frags : ℕ
  pub vid_frags : ℕ
  pub vid_frames_in : ℕ
  pub vid_frames_out : ℕ
  pub vid_dropped : ℕ
  pub frag_skips : ℕ
  pub frags_lost : ℕ
  pub force_drains : ℕ
  pub recv_timeouts : ℕ
  pub reader_drops : ℕ
  pub emit_drops : ℕ
  pub frag_idx_gap : ℕ
  pub frame_num_jump_key : ℕ
  pub frame_num_jump_inter : ℕ
  pub expected_data_shortfall : ℕ
  pub zero_data_hard_drop : ℕ
  pub strict_idr_drop : ℕ
  pub strict_p_drop : ℕ
  pub force_drain_flush : ℕ
  pub force_drain_entries : ℕ
  pub deferred_drop : ℕ
  pub frames_with_loss : ℕ
  pub idr_frames_with_loss : ℕ
  pub p_frames_with_loss : ℕ
  pub missing_fragments_total : ℕ
  pub max_missing_fragments_in_frame : ℕ
  pub normal_media_packets : ℕ
  pub extended_media_candidates : ℕ
  pub extended_media_parsed : ℕ
  pub extended_media_rejected : ℕ
  pub extended_media_data_packets : ℕ
  pub extended_media_end_packets : ℕ
  pub extended_media_rare_packets : ℕ
  pub unknown_0c08_remaining : ℕ
  pub unknown_0c0d_remaining : ℕ
  pub sequence_seen_but_unhandled : ℕ
  pub sequence_seen_and_assembled : ℕ
  pub frame_info_changes : ℕ
  pub frame_info_unexpected : ℕ
  pub frame_info_codec : ℕ
  pub frame_info_flag : ℕ
  pub frame_info_online_num : ℕ
  pub transport_ack_received : ℕ
  pub timing_probes_received : ℕ
  pub timing_responses_sent : ℕ
  pub timing_feedback_received : ℕ
  pub reliable_recv_ack : ℕ
  pub ack_nack_count : ℕ
  pub ack_send_count : ℕ
  pub ack_watermark : ℕ
  pub ack_seen_pending : ℕ
  pub ack_seen_ranges : ℕ
  pub ack_tracking_overflow : ℕ
  pub ack_duplicate_or_old : ℕ
  pub ack_advanced : ℕ
  pub ack_high : ℕ
  pub ack_sent : ℕ
  pub ack_prev_low16 : ℕ
  pub ack_current_low16 : ℕ

unfoldable pub snapshot : Counters → CountersSnapshot
snapshot c = record {
  bytes_in = c.bytes_in;
  pkts_in = c.pkts_in;
  key_frags = c.key_frags;
  inter_frags = c.inter_frags;
  audio_frags = c.audio_frags;
  other_frags = c.other_frags;
  vid_frags = c.vid_frags;
  vid_frames_in = c.vid_frames_in;
  vid_frames_out = c.vid_frames_out;
  vid_dropped = c.vid_dropped;
  frag_skips = c.frag_skips;
  frags_lost = c.frags_lost;
  force_drains = c.force_drains;
  recv_timeouts = c.recv_timeouts;
  reader_drops = c.reader_drops;
  emit_drops = c.emit_drops;
  frag_idx_gap = c.frag_idx_gap;
  frame_num_jump_key = c.frame_num_jump_key;
  frame_num_jump_inter = c.frame_num_jump_inter;
  expected_data_shortfall = c.expected_data_shortfall;
  zero_data_hard_drop = c.zero_data_hard_drop;
  strict_idr_drop = c.strict_idr_drop;
  strict_p_drop = c.strict_p_drop;
  force_drain_flush = c.force_drain_flush;
  force_drain_entries = c.force_drain_entries;
  deferred_drop = c.deferred_drop;
  frames_with_loss = c.frames_with_loss;
  idr_frames_with_loss = c.idr_frames_with_loss;
  p_frames_with_loss = c.p_frames_with_loss;
  missing_fragments_total = c.missing_fragments_total;
  max_missing_fragments_in_frame = c.max_missing_fragments_in_frame;
  normal_media_packets = c.normal_media_packets;
  extended_media_candidates = c.extended_media_candidates;
  extended_media_parsed = c.extended_media_parsed;
  extended_media_rejected = c.extended_media_rejected;
  extended_media_data_packets = c.extended_media_data_packets;
  extended_media_end_packets = c.extended_media_end_packets;
  extended_media_rare_packets = c.extended_media_rare_packets;
  unknown_0c08_remaining = c.unknown_0c08_remaining;
  unknown_0c0d_remaining = c.unknown_0c0d_remaining;
  sequence_seen_but_unhandled = c.sequence_seen_but_unhandled;
  sequence_seen_and_assembled = c.sequence_seen_and_assembled;
  frame_info_changes = c.frame_info_changes;
  frame_info_unexpected = c.frame_info_unexpected;
  frame_info_codec = c.frame_info_codec;
  frame_info_flag = c.frame_info_flag;
  frame_info_online_num = c.frame_info_online_num;
  transport_ack_received = c.transport_ack_received;
  timing_probes_received = c.timing_probes_received;
  timing_responses_sent = c.timing_responses_sent;
  timing_feedback_received = c.timing_feedback_received;
  reliable_recv_ack = c.reliable_recv_ack;
  ack_nack_count = c.ack_nack_count;
  ack_send_count = c.ack_send_count;
  ack_watermark = c.ack_watermark;
  ack_seen_pending = c.ack_seen_pending;
  ack_seen_ranges = c.ack_seen_ranges;
  ack_tracking_overflow = c.ack_tracking_overflow;
  ack_duplicate_or_old = c.ack_duplicate_or_old;
  ack_advanced = c.ack_advanced;
  ack_high = c.ack_high;
  ack_sent = c.ack_sent;
  ack_prev_low16 = c.ack_prev_low16;
  ack_current_low16 = c.ack_current_low16;
}

-- The zero value, with which a `Client` starts.
abbrev pub zero_counters : Counters
zero_counters = record {
  bytes_in = 0;
  pkts_in = 0;
  key_frags = 0;
  inter_frags = 0;
  audio_frags = 0;
  other_frags = 0;
  vid_frags = 0;
  vid_frames_in = 0;
  vid_frames_out = 0;
  vid_dropped = 0;
  frag_skips = 0;
  frags_lost = 0;
  force_drains = 0;
  recv_timeouts = 0;
  reader_drops = 0;
  emit_drops = 0;
  frag_idx_gap = 0;
  frame_num_jump_key = 0;
  frame_num_jump_inter = 0;
  expected_data_shortfall = 0;
  zero_data_hard_drop = 0;
  strict_idr_drop = 0;
  strict_p_drop = 0;
  force_drain_flush = 0;
  force_drain_entries = 0;
  deferred_drop = 0;
  frames_with_loss = 0;
  idr_frames_with_loss = 0;
  p_frames_with_loss = 0;
  missing_fragments_total = 0;
  max_missing_fragments_in_frame = 0;
  normal_media_packets = 0;
  extended_media_candidates = 0;
  extended_media_parsed = 0;
  extended_media_rejected = 0;
  extended_media_data_packets = 0;
  extended_media_end_packets = 0;
  extended_media_rare_packets = 0;
  unknown_0c08_remaining = 0;
  unknown_0c0d_remaining = 0;
  sequence_seen_but_unhandled = 0;
  sequence_seen_and_assembled = 0;
  frame_info_changes = 0;
  frame_info_unexpected = 0;
  frame_info_codec = 0;
  frame_info_flag = 0;
  frame_info_online_num = 0;
  transport_ack_received = 0;
  timing_probes_received = 0;
  timing_responses_sent = 0;
  timing_feedback_received = 0;
  reliable_recv_ack = 0;
  ack_nack_count = 0;
  ack_send_count = 0;
  ack_watermark = 0;
  ack_seen_pending = 0;
  ack_seen_ranges = 0;
  ack_tracking_overflow = 0;
  ack_duplicate_or_old = 0;
  ack_advanced = 0;
  ack_high = 0;
  ack_sent = 0;
  ack_prev_low16 = 0;
  ack_current_low16 = 0;
}
