-- ===== src/Assembler/Emit.antt =====
-- `emit` of pkg/petlibro/assembler.go: one fragment in order.
pub mod Stages
pub mod Build
pub mod Finish
pub mod Clean
pub mod Loss
use ha_addon_petlibro_local.Prelude.{
  ℕ, ◌+◌, ◌-◌, ◌*◌, ◌/◌, ◌%◌, Bool, true, false, not, ◌&&◌, ◌||◌, List, [], ◌++◌, if◌then◌else◌,
  ltb, leb, ◌==◌, length, add64, add32, add16, sub16, u32_mod,
}
use ha_addon_petlibro_local.Stats.{Counters}
use ha_addon_petlibro_local.Ack.Reliable.{insert_key}
use ha_addon_petlibro_local.Media.Trailer.{
  Stripped, strip_fragment_metadata_trailer, codec_aac_adts,
}
use ha_addon_petlibro_local.Media.Extended.{inner_ch_key, inner_ch_inter}
use ha_addon_petlibro_local.Assembler.Channel.{PendingFrag, ChannelAsm, reset}
use ha_addon_petlibro_local.Assembler.Stream.{
  Packet, Stream, with_stats, queue_packet, log_av_loss, debug_av_frame_info,
}
use ha_addon_petlibro_local.Assembler.Output.{emit_au}
use ha_addon_petlibro_local.Assembler.Counts.{
  count_dropped, count_frame_in, count_hard_drop, count_jump, count_lost_one, count_shortfall,
  count_strict_idr_drop, count_strict_p_drop, count_vid_frag,
}
use ha_addon_petlibro_local.Assembler.Release.{flush_pending_idr, set_pending_ts}

-- `asm := &c.keyAsm`, or `&c.interAsm` for the inter channel.
abbrev pub get_asm : Stream → ℕ → ChannelAsm
get_asm s channel = if channel == inner_ch_inter then s.inter_asm else s.key_asm

abbrev pub put_asm : Stream → ℕ → ChannelAsm → Stream
put_asm s channel a =
    if channel == inner_ch_inter then record s { inter_asm = a } else record s { key_asm = a }

-- The time stamp of an audio packet. The Go code computes it in float64, where the quotient of
-- these integers is exact enough for its integer part; from the frame on at which it passes
-- 32 bits, the conversion to uint32 is the platform's choice, here the wrap.
unfoldable pub audio_pts : ℕ → ℕ
audio_pts n = (n * 1024 * 90000 / 44100) % u32_mod

unfoldable pub emit_audio : Stream → PendingFrag → Stream
unfolding audio_pts
emit_audio s e =
    let s' = queue_packet s (record {
      codec = codec_aac_adts;
      payload = e.payload;
      timestamp = audio_pts s.emit_audio_seq;
      frame_no = s.emit_audio_seq;
      camera_frame_no = 0;
      channel = 0;
      online_num = 0;
      is_keyframe = false;
    }) in
    record s' { emit_audio_seq = add32 s'.emit_audio_seq 1 }

-- A P-frame whose end did not come is given up.
unfoldable pub abandon : Stream → ℕ → ChannelAsm → Stream
abandon s channel a =
    let st =
      count_lost_one (log_av_loss s.stats (record a { cur_au_gapped = true }) channel false) in
    let s' = record s { stats = st; gop_poisoned = s.strict || s.gop_poisoned } in
    put_asm s' channel (reset a)

-- The frame number changed on this channel before the frame's end was seen.
unfoldable pub frame_jump : Stream → PendingFrag → Stream
frame_jump s e =
    let a = get_asm s e.channel in
    let s' = with_stats s (count_jump s.stats e.channel) in
    if not (a.frame_pending && not (e.frame_num == a.cur_frame_num))
    then s
    else if length a.buf == 0
    then s'
    else if e.channel == inner_ch_key
    then flush_pending_idr s' 0
    else abandon s' e.channel a

abbrev pub start_frame : ChannelAsm → PendingFrag → ChannelAsm
start_frame a e = record a {
  cur_frame_num = e.frame_num;
  frame_pending = true;
  expect_frag_idx = 0;
  cur_au_gapped = false;
  cur_au_data_count = 0;
  cur_au_total = e.total_frags;
  received_data = [];
}

-- `if asm.curAUTotal == 0 && e.totalFrags != 0 { … }`
abbrev pub learn_total : ChannelAsm → PendingFrag → ChannelAsm
learn_total a e =
    if a.cur_au_total == 0 && not (e.total_frags == 0)
    then record a { cur_au_total = e.total_frags }
    else a

unfoldable pub begin_frame : Stream → PendingFrag → Stream
begin_frame s e =
    let a = get_asm s e.channel in
    if not a.frame_pending || not (e.frame_num == a.cur_frame_num)
    then put_asm (with_stats s (count_frame_in s.stats)) e.channel (learn_total (start_frame a e) e)
    else put_asm s e.channel (learn_total a e)

unfoldable pub flush_for_inter : Stream → PendingFrag → ℕ → Stream
flush_for_inter s e frame_ts =
    if e.channel == inner_ch_inter && s.key_asm.frame_pending && ltb 0 (length s.key_asm.buf)
    then flush_pending_idr s frame_ts
    else s

unfoldable pub is_gap : ChannelAsm → PendingFrag → Bool
is_gap a e = not (e.frag_idx == a.expect_frag_idx) && not (e.frag_idx == 16)

unfoldable pub count_gap : Counters → ChannelAsm → PendingFrag → Counters
count_gap st a e = record st {
  frag_skips = add64 st.frag_skips 1;
  frag_idx_gap = add64 st.frag_idx_gap 1;
  frags_lost =
      add64 st.frags_lost
        (if ltb a.expect_frag_idx e.frag_idx then e.frag_idx - a.expect_frag_idx else 1);
}

unfoldable pub add_data : ChannelAsm → PendingFrag → ChannelAsm
unfolding is_gap
add_data a e = record a {
  cur_au_gapped = a.cur_au_gapped || is_gap a e;
  expect_frag_idx = add16 e.frag_idx 1;
  cur_au_data_count = add16 a.cur_au_data_count 1;
  received_data = insert_key a.received_data e.frag_idx;
  buf = a.buf ++ e.payload;
}

-- A data fragment.
unfoldable pub take_data : Stream → PendingFrag → Stream
unfolding is_gap
take_data s e =
    let a = get_asm s e.channel in
    let st = if is_gap a e then count_gap s.stats a e else s.stats in
    put_asm (with_stats s st) e.channel (add_data a e)

-- The frame is whole as far as it will be: `au` holds its bytes.
unfoldable pub finish_frame : Stream → PendingFrag → Stripped → List ℕ → Bool → Stream
finish_frame s e info au gapped =
    let was_key = e.channel == inner_ch_key in
    let s1 = if gapped then with_stats s (count_dropped s.stats) else s in
    let s2 = set_pending_ts s1 info.ts in
    if gapped && s.strict
    then record s {
      gop_poisoned = true;
      stats = if was_key then count_strict_idr_drop s.stats else count_strict_p_drop s.stats;
    }
    else if gapped && not was_key
    then s1
    else if s2.strict && s2.gop_poisoned && not was_key
    then with_stats s2 (count_strict_p_drop s2.stats)
    else emit_au s2 au e.frame_num e.channel info.online_num

-- An assembly state at the end fragment: what the trailer completes.
unfoldable pub expected_data : ChannelAsm → ℕ
expected_data a = a.cur_au_total - 1

unfoldable pub close_frame : ChannelAsm → Stripped → ChannelAsm
unfolding expected_data
close_frame a info = record a {
  buf = a.buf ++ info.payload;
  cur_au_gapped = a.cur_au_gapped || ltb a.cur_au_data_count (expected_data a);
}

unfoldable pub count_close : Counters → ChannelAsm → ℕ → Counters
unfolding expected_data
count_close st a channel =
    let lost = expected_data a - a.cur_au_data_count in
    log_av_loss (if ltb a.cur_au_data_count (expected_data a) then count_shortfall st lost else st)
      (record a { cur_au_gapped = a.cur_au_gapped || ltb a.cur_au_data_count (expected_data a) })
      channel true

-- The end fragment.
unfoldable pub take_end : Stream → PendingFrag → Stripped → Stream
unfolding expected_data close_frame
take_end s e info =
    let a = get_asm s e.channel in
    let a' = close_frame a info in
    let s' = put_asm (with_stats s (count_close s.stats a e.channel)) e.channel (reset a') in
    if leb 1 (expected_data a) && a.cur_au_data_count == 0
    then record s' {
      stats = count_hard_drop s'.stats (expected_data a);
      gop_poisoned = (s.strict && e.channel == inner_ch_key) || s.gop_poisoned;
    }
    else finish_frame s' e info a'.buf a'.cur_au_gapped

-- The state when the fragment's own frame is current.
unfoldable pub prepare : Stream → PendingFrag → Stripped → Stream
prepare s e info =
    let s' = debug_av_frame_info (with_stats s (count_vid_frag s.stats)) e info.has_ts in
    flush_for_inter (begin_frame (frame_jump s' e) e) e info.ts

unfoldable pub emit_video : Stream → PendingFrag → Stripped → Stream
unfolding prepare
emit_video s e info =
    if info.has_ts then take_end (prepare s e info) e info else take_data (prepare s e info) e

unfoldable pub emit : Stream → PendingFrag → Stream
unfolding emit_audio emit_video
emit s e =
    if e.is_audio
    then emit_audio s e
    else if not (e.channel == inner_ch_key) && not (e.channel == inner_ch_inter)
    then s
    else emit_video s e (strip_fragment_metadata_trailer e.payload)
