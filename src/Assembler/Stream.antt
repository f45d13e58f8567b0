-- ===== src/Assembler/Stream.antt =====
-- The state of `Client` that `emit` and the functions below it use, `queuePacket`, `logAVLoss` and
-- `debugAVFrameInfo` of pkg/petlibro/assembler.go. Log lines are left out, and so is `startedAt`,
-- which nothing reads.
use ha_addon_petlibro_local.Prelude.{
  ℕ, ◌-◌, Bool, true, not, ◌&&◌, ◌||◌, List, [], ◌∷◌, ◌++◌, if◌then◌else◌, ltb, leb, ◌==◌, length,
  drop, add64,
}
use ha_addon_petlibro_local.Stats.{Counters}
use ha_addon_petlibro_local.Wire.Bytes.{at, u16_at}
use ha_addon_petlibro_local.Media.Extended.{inner_ch_key, inner_ch_inter}
use ha_addon_petlibro_local.Assembler.Channel.{PendingFrag, ChannelAsm, missing_fragment_ranges}
use ha_addon_petlibro_local.Assembler.Counts.{count_emit_drop}

-- client.go: one assembled media frame.
pub record Packet : Type 0 where
  pub codec : ℕ
  pub payload : List ℕ
  pub timestamp : ℕ
  pub frame_no : ℕ
  pub camera_frame_no : ℕ
  pub channel : ℕ
  pub online_num : ℕ
  pub is_keyframe : Bool

-- `frames` holds what the consumer has not taken, the oldest first; `done` tells whether the
-- channel of that name is closed. `observed_sps` lists the units handed on to `h264.DecodeSPS`.
pub record Stream : Type 0 where
  pub strict : Bool
  pub verbose : Bool
  pub stats : Counters
  pub key_asm : ChannelAsm
  pub inter_asm : ChannelAsm
  pub gop_poisoned : Bool
  pub pending_frame_ts : ℕ
  pub have_pending_ts : Bool
  pub first_frame_ts : ℕ
  pub have_first_ts : Bool
  pub last_emit_ts : ℕ
  pub emit_seq : ℕ
  pub emit_audio_seq : ℕ
  pub frames : List Packet
  pub done : Bool
  pub last_sps : List ℕ
  pub observed_sps : List (List ℕ)
  pub frame_info_seen : Bool
  pub frame_info_codec : ℕ
  pub frame_info_flag : ℕ
  pub frame_info_online_num : ℕ

-- client.go: `frames: make(chan *Packet, 1024)`.
abbrev pub frames_cap : ℕ
frames_cap = 1024

abbrev pub with_stats : Stream → Counters → Stream
with_stats s st = record s { stats = st }

unfoldable pub queue_packet : Stream → Packet → Stream
queue_packet s p =
    if s.done
    then s
    else if ltb (length s.frames) frames_cap
    then record s { frames = s.frames ++ (p ∷ []) }
    else with_stats s (count_emit_drop s.stats)

-- The counters of `logAVLoss`, for `missing_count` missing fragments.
unfoldable pub count_loss : Counters → ℕ → ℕ → Counters
count_loss st channel missing_count = record st {
  frames_with_loss = add64 st.frames_with_loss 1;
  idr_frames_with_loss =
      if channel == inner_ch_key then add64 st.idr_frames_with_loss 1 else st.idr_frames_with_loss;
  p_frames_with_loss =
      if channel == inner_ch_key then st.p_frames_with_loss else add64 st.p_frames_with_loss 1;
  missing_fragments_total = add64 st.missing_fragments_total missing_count;
  max_missing_fragments_in_frame =
      if leb missing_count st.max_missing_fragments_in_frame
      then st.max_missing_fragments_in_frame
      else missing_count;
}

unfoldable pub log_av_loss : Counters → ChannelAsm → ℕ → Bool → Counters
log_av_loss st a channel has_trailer =
    let (missing, received) = missing_fragment_ranges a has_trailer in
    if length missing == 0 && not a.cur_au_gapped
    then st
    else count_loss st channel (if length missing == 0 then 1 else length missing)

-- Whether the frame flag of a trailer does not fit the channel.
unfoldable pub unexpected_flag : ℕ → ℕ → Bool
unexpected_flag channel flag =
    ltb 1 flag
    || (channel == inner_ch_key && not (flag == 1))
    || (channel == inner_ch_inter && not (flag == 0))

unfoldable pub count_frame_info : Counters → Bool → Bool → ℕ → ℕ → ℕ → Counters
count_frame_info st changed unexpected codec flag online = record st {
  frame_info_changes = if changed then add64 st.frame_info_changes 1 else st.frame_info_changes;
  frame_info_unexpected =
      if unexpected then add64 st.frame_info_unexpected 1 else st.frame_info_unexpected;
  frame_info_codec = codec;
  frame_info_flag = flag;
  frame_info_online_num = online;
}

unfoldable pub debug_av_frame_info : Stream → PendingFrag → Bool → Stream
debug_av_frame_info s e has_trailer =
    let t = drop (length e.payload - 16) e.payload in
    let codec = u16_at t 0 in
    let changed =
      s.frame_info_seen
      && (not (codec == s.frame_info_codec) || not (at t 4 == s.frame_info_online_num)) in
    let unexpected = unexpected_flag e.channel (at t 2) in
    if not s.verbose || not has_trailer || ltb (length e.payload) 16 then s else record s {
      stats = count_frame_info s.stats changed unexpected codec (at t 2) (at t 4);
      frame_info_seen = true;
      frame_info_codec = codec;
      frame_info_flag = at t 2;
      frame_info_online_num = at t 4;
    }
