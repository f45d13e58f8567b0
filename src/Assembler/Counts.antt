-- ===== src/Assembler/Counts.antt =====
-- The counters that the functions of pkg/petlibro/assembler.go raise, each group as one update.
use ha_addon_petlibro_local.Prelude.{
  ℕ, Bool, ◌||◌, Option, none, some, List, if◌then◌else◌, leb, ◌==◌, length, add64,
}
use ha_addon_petlibro_local.Stats.{Counters}
use ha_addon_petlibro_local.Media.Extended.{
  DecodedMedia, inner_ch_key, inner_ch_inter, inner_ch_audio,
}

unfoldable pub count_shortfall : Counters → ℕ → Counters
count_shortfall st lost = record st {
  frag_skips = add64 st.frag_skips 1;
  frags_lost = add64 st.frags_lost lost;
  expected_data_shortfall = add64 st.expected_data_shortfall 1;
}

unfoldable pub count_dropped : Counters → Counters
count_dropped st = record st { vid_dropped = add64 st.vid_dropped 1 }

unfoldable pub count_strict_idr_drop : Counters → Counters
count_strict_idr_drop st = record st {
  vid_dropped = add64 st.vid_dropped 1;
  strict_idr_drop = add64 st.strict_idr_drop 1;
}

unfoldable pub count_vid_frag : Counters → Counters
count_vid_frag st = record st { vid_frags = add64 st.vid_frags 1 }

unfoldable pub count_jump : Counters → ℕ → Counters
count_jump st channel =
    if channel == inner_ch_key
    then record st { frame_num_jump_key = add64 st.frame_num_jump_key 1 }
    else record st { frame_num_jump_inter = add64 st.frame_num_jump_inter 1 }

unfoldable pub count_lost_one : Counters → Counters
count_lost_one st = record st {
  frag_skips = add64 st.frag_skips 1;
  frags_lost = add64 st.frags_lost 1;
  vid_dropped = add64 st.vid_dropped 1;
}

unfoldable pub count_frame_in : Counters → Counters
count_frame_in st = record st { vid_frames_in = add64 st.vid_frames_in 1 }

unfoldable pub count_hard_drop : Counters → ℕ → Counters
count_hard_drop st lost = record st {
  frag_skips = add64 st.frag_skips 1;
  frags_lost = add64 st.frags_lost lost;
  vid_dropped = add64 st.vid_dropped 1;
  zero_data_hard_drop = add64 st.zero_data_hard_drop 1;
}

unfoldable pub count_strict_p_drop : Counters → Counters
count_strict_p_drop st = record st {
  vid_dropped = add64 st.vid_dropped 1;
  strict_p_drop = add64 st.strict_p_drop 1;
}

unfoldable pub count_frame_out : Counters → Counters
count_frame_out st = record st { vid_frames_out = add64 st.vid_frames_out 1 }

unfoldable pub count_force_drain : Counters → ℕ → Counters
count_force_drain st entries = record st {
  force_drains = add64 st.force_drains 1;
  force_drain_flush = add64 st.force_drain_flush 1;
  force_drain_entries = add64 st.force_drain_entries entries;
}

unfoldable pub count_emit_drop : Counters → Counters
count_emit_drop st = record st { emit_drops = add64 st.emit_drops 1 }

unfoldable pub count_ack_received : Counters → Counters
count_ack_received st = record st { transport_ack_received = add64 st.transport_ack_received 1 }

unfoldable pub count_feedback : Counters → Counters
count_feedback st = record st { timing_feedback_received = add64 st.timing_feedback_received 1 }

unfoldable pub count_probe : Counters → Option (List ℕ) → Counters
count_probe st none = st
count_probe st (some response) = record st {
  timing_probes_received = add64 st.timing_probes_received 1;
}

unfoldable pub count_response : Counters → Bool → Counters
count_response st sent_ok =
    if sent_ok then record st { timing_responses_sent = add64 st.timing_responses_sent 1 } else st

unfoldable pub count_other : Counters → Counters
count_other st = record st { other_frags = add64 st.other_frags 1 }

unfoldable pub count_normal : Counters → Counters
count_normal st = record st { normal_media_packets = add64 st.normal_media_packets 1 }

unfoldable pub count_extended : Counters → DecodedMedia → Counters
count_extended st m = record st {
  extended_media_candidates = add64 st.extended_media_candidates 1;
  extended_media_parsed = add64 st.extended_media_parsed 1;
  extended_media_end_packets =
      if m.is_end then add64 st.extended_media_end_packets 1 else st.extended_media_end_packets;
  extended_media_data_packets =
      if m.is_end then st.extended_media_data_packets else add64 st.extended_media_data_packets 1;
  extended_media_rare_packets =
      if m.b1 == 0x09 || m.b1 == 0x0c
      then add64 st.extended_media_rare_packets 1
      else st.extended_media_rare_packets;
}

unfoldable pub count_rejected : Counters → List ℕ → DecodedMedia → Counters
count_rejected st inner m = record st {
  extended_media_candidates = add64 st.extended_media_candidates 1;
  extended_media_rejected = add64 st.extended_media_rejected 1;
  sequence_seen_but_unhandled =
      if leb 28 (length inner)
      then add64 st.sequence_seen_but_unhandled 1
      else st.sequence_seen_but_unhandled;
  unknown_0c08_remaining =
      if m.b1 == 0x08 then add64 st.unknown_0c08_remaining 1 else st.unknown_0c08_remaining;
  unknown_0c0d_remaining =
      if m.b1 == 0x0d then add64 st.unknown_0c0d_remaining 1 else st.unknown_0c0d_remaining;
  other_frags = add64 st.other_frags 1;
}

unfoldable pub count_channel : Counters → ℕ → Counters
unfolding count_other
count_channel st channel =
    if channel == inner_ch_key
    then record st { key_frags = add64 st.key_frags 1 }
    else if channel == inner_ch_inter
    then record st { inter_frags = add64 st.inter_frags 1 }
    else if channel == inner_ch_audio
    then record st { audio_frags = add64 st.audio_frags 1 }
    else count_other st

unfoldable pub count_bad_position : Counters → Counters
count_bad_position st = record st {
  other_frags = add64 st.other_frags 1;
  sequence_seen_but_unhandled = add64 st.sequence_seen_but_unhandled 1;
}

unfoldable pub count_late : Counters → Counters
count_late st = record st {
  deferred_drop = add64 st.deferred_drop 1;
  sequence_seen_but_unhandled = add64 st.sequence_seen_but_unhandled 1;
}

unfoldable pub count_assembled : Counters → Counters
count_assembled st = record st {
  sequence_seen_and_assembled = add64 st.sequence_seen_and_assembled 1;
}
