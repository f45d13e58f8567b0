-- ===== src/Assembler/Release.antt =====
-- `flushPendingIDR` of pkg/petlibro/assembler.go: an IDR whose end did not come.
use ha_addon_petlibro_local.Prelude.{
  ℕ, ◌-◌, Bool, true, false, ◌&&◌, ◌||◌, if◌then◌else◌, ltb, leb, ◌==◌, length, add16, sub16,
}
use ha_addon_petlibro_local.Stats.{Counters}
use ha_addon_petlibro_local.Media.Extended.{inner_ch_key}
use ha_addon_petlibro_local.Assembler.Channel.{ChannelAsm, reset}
use ha_addon_petlibro_local.Assembler.Stream.{Stream, with_stats, log_av_loss}
use ha_addon_petlibro_local.Assembler.Output.{emit_au}
use ha_addon_petlibro_local.Assembler.Counts.{count_dropped, count_shortfall, count_strict_idr_drop}

-- `tailMissing` of `flushPendingIDR`.
unfoldable pub tail_missing : ChannelAsm → Bool
tail_missing a = ltb 0 a.cur_au_total && ltb (add16 a.cur_au_data_count 1) a.cur_au_total

-- The counters of `flushPendingIDR` up to the strict check.
unfoldable pub count_flush : Counters → ChannelAsm → Counters
unfolding tail_missing
count_flush st a =
    let lost = sub16 (sub16 a.cur_au_total 1) a.cur_au_data_count in
    let st' = if tail_missing a then count_shortfall st lost else st in
    if a.cur_au_gapped || tail_missing a
    then log_av_loss st' (record a { cur_au_gapped = true }) inner_ch_key false
    else st'

unfoldable pub set_pending_ts : Stream → ℕ → Stream
set_pending_ts s ts = record s { pending_frame_ts = ts; have_pending_ts = true }

-- The rest of `flushPendingIDR`, for the assembly state `a` that it took.
unfoldable pub release_idr : Stream → ChannelAsm → ℕ → Stream
unfolding tail_missing
release_idr s a next_p_frame_ts =
    let s1 = if a.cur_au_gapped then with_stats s (count_dropped s.stats) else s in
    let s2 = if leb 40 next_p_frame_ts then set_pending_ts s1 (next_p_frame_ts - 40) else s1 in
    if s.strict && (a.cur_au_gapped || tail_missing a)
    then record s { gop_poisoned = true; stats = count_strict_idr_drop s.stats }
    else emit_au s2 a.buf a.cur_frame_num inner_ch_key 0

unfoldable pub flush_pending_idr : Stream → ℕ → Stream
flush_pending_idr s next_p_frame_ts =
    let a = s.key_asm in
    let s' = record s { key_asm = reset a } in
    if length a.buf == 0
    then s'
    else release_idr (with_stats s' (count_flush s.stats a)) a next_p_frame_ts
