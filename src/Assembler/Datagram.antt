-- ===== src/Assembler/Datagram.antt =====
-- `parseDatagram` and `handleTransportControl` of pkg/petlibro/assembler.go.
pub mod Steady
pub mod Position
use ha_addon_petlibro_local.Prelude.{
  ℕ, ◌+◌, ◌-◌, Bool, true, false, not, ◌&&◌, ◌||◌, Option, none, some, List, [], ◌∷◌, ◌++◌,
  if◌then◌else◌, ltb, leb, ◌==◌, length, add64,
}
use ha_addon_petlibro_local.Stats.{Counters}
use ha_addon_petlibro_local.Seq.{WrapSeq, extend, advance_to}
use ha_addon_petlibro_local.Wire.Bytes.{at, u16_at, slice}
use ha_addon_petlibro_local.Wire.Frames.{flags_recv, msg_session_d2c}
use ha_addon_petlibro_local.Ack.Receive.{init_ack_tracking, mark_ack_received}
use ha_addon_petlibro_local.Ack.Reliable.{accept_reliable_control}
use ha_addon_petlibro_local.Media.Extended.{
  DecodedMedia, Decoded, inner_ch_key, inner_ch_inter, inner_ch_audio, is_extended_media_family,
  decode_extended_media,
}
use ha_addon_petlibro_local.Media.Normal.{decode_normal_media}
use ha_addon_petlibro_local.Media.Control.{reliable_control_sequence, timing_probe_response}
use ha_addon_petlibro_local.Assembler.Channel.{PendingFrag}
use ha_addon_petlibro_local.Assembler.Stream.{Stream, with_stats}
use ha_addon_petlibro_local.Assembler.Buffer.{Client, put_frag, drain_contiguous}
use ha_addon_petlibro_local.Assembler.Counts.{
  count_ack_received, count_assembled, count_bad_position, count_channel, count_extended,
  count_feedback, count_late, count_normal, count_other, count_probe, count_rejected,
  count_response,
}

abbrev pub stats_of : Client → Counters
stats_of c = c.stream.stats

abbrev pub store_stats : Client → Counters → Client
store_stats c st = record c { stream = with_stats c.stream st }

-- The response, if there is one, and the counters.
unfoldable pub handle_transport_control : Counters → List ℕ → Option (List ℕ) × Counters
handle_transport_control st inner =
    if at inner 0 == 0x09
    then (none, count_ack_received st)
    else if at inner 0 == 0x0a
    then (timing_probe_response inner, count_probe st (timing_probe_response inner))
    else if at inner 0 == 0x0b
    then (none, count_feedback st)
    else (none, st)

-- `sendInner` on the response; `sent_ok` tells whether it returned no error.
unfoldable pub respond : Client → Option (List ℕ) → Bool → Client
respond c none sent_ok = c
respond c (some body) sent_ok =
    let c' = store_stats c (count_response (stats_of c) sent_ok) in
    record c' { sent = c'.sent ++ (body ∷ []) }

unfoldable pub transport_control : Client → List ℕ → Bool → Client
transport_control c inner sent_ok =
    let (response, st) = handle_transport_control (stats_of c) inner in
    respond (store_stats c st) response sent_ok

unfoldable pub accept_control : Client → ℕ → Client
unfolding count_other
accept_control c seq =
    let (ack, st) = accept_reliable_control c.ack (stats_of c) seq in
    record (store_stats c (count_other st)) { ack = ack }

-- The decoder's choice: the media, if the packet is one, and the counters.
unfoldable pub choose_normal :
    Counters → Option DecodedMedia → Counters → Option DecodedMedia × Counters
choose_normal st none rejected = (none, rejected)
choose_normal st (some m) rejected = (some m, count_normal st)

unfoldable pub choose_media : Counters → List ℕ → Option DecodedMedia × Counters
unfolding choose_normal
choose_media st inner =
    let extended = decode_extended_media inner in
    let normal = decode_normal_media inner in
    if is_extended_media_family (at inner 1)
    then if extended.ok
      then (some extended.media, count_extended st extended.media)
      else choose_normal st normal (count_rejected st inner extended.media)
    else choose_normal st normal st

abbrev pub pending_frag : DecodedMedia → ℕ → PendingFrag
pending_frag m sub_ext = record {
  channel = m.channel;
  is_audio = m.is_audio;
  sub_ext = sub_ext;
  frame_num = m.frame_num;
  frag_idx = m.frag_idx;
  total_frags = m.total_frags;
  payload = m.payload;
}

-- `if subExt > c.avHighExt { … }`
unfoldable pub raise_av_high : Client → ℕ → ℕ → Client
raise_av_high c sub_ext sub_wire =
    if ltb c.av_high_ext sub_ext
    then record c { av_high_ext = sub_ext; wrap = advance_to c.wrap sub_wire }
    else c

unfoldable pub mark_received : Client → ℕ → ℕ → Client
mark_received c now sub_ext =
    let (ack, st) = mark_ack_received c.trace now c.ack (stats_of c) sub_ext in
    record (store_stats c st) { ack = ack }

-- `initACKTracking` on the whole client: the mirror of the next position is set with the rest.
unfoldable pub start_tracking : Client → ℕ → Client
start_tracking c watermark =
    let (ack, st) = init_ack_tracking c.ack (stats_of c) watermark in
    record (store_stats c st) { ack = ack; av_next_observed = c.av_next_ext }

-- What is done with a fragment that is not late.
unfoldable pub store_frag : Client → DecodedMedia → ℕ → Client
store_frag c m sub_ext = record (store_stats c (count_assembled (stats_of c))) {
  av_buffer = put_frag c.av_buffer sub_ext (pending_frag m sub_ext);
}

unfoldable pub place_media : Client → ℕ → DecodedMedia → Option ℕ → Client
place_media c now m none = store_stats c (count_bad_position (stats_of c))
place_media c now m (some sub_ext) =
    let c' = mark_received (raise_av_high c sub_ext m.sub_wire) now sub_ext in
    if ltb sub_ext c.av_next_ext
    then store_stats c' (count_late (stats_of c'))
    else drain_contiguous (store_frag c' m sub_ext)

unfoldable pub take_media : Client → ℕ → Option DecodedMedia → Client
take_media c now none = c
take_media c now (some m) =
    place_media (store_stats c (count_channel (stats_of c) m.channel)) now m
      (extend c.wrap m.sub_wire)

unfoldable pub take_inner : Client → ℕ → List ℕ → Option ℕ → Client
take_inner c now inner (some seq) = accept_control c seq
take_inner c now inner none =
    let (media, st) = choose_media (stats_of c) inner in
    if ltb (length inner) 36 then c else take_media (store_stats c st) now media

-- The packet's inner message, behind the checks of the outer header.
unfoldable pub inner_of : List ℕ → Option (List ℕ)
inner_of pkt =
    let outer_payload_len = u16_at pkt 4 in
    if ltb (length pkt) 0x1d || not (at pkt 3 == flags_recv)
    then none
    else if not (u16_at pkt 8 == msg_session_d2c)
    then none
    else if leb outer_payload_len 0x0c || ltb (length pkt - 0x1c) (outer_payload_len - 0x0c)
    then none
    else some (slice pkt 0x1c (0x1c + outer_payload_len - 0x0c))

unfoldable pub dispatch : Client → ℕ → Bool → Option (List ℕ) → Client
dispatch c now sent_ok none = c
dispatch c now sent_ok (some inner) =
    if at inner 0 == 0x09 || at inner 0 == 0x0a || at inner 0 == 0x0b
    then transport_control c inner sent_ok
    else if not (at inner 0 == 0x0c)
    then c
    else take_inner c now inner (reliable_control_sequence inner)

-- `now` is the clock reading for the receipt, and `sent_ok` the outcome of a response's sending.
unfoldable pub parse_datagram : Client → ℕ → Bool → List ℕ → Client
unfolding inner_of
parse_datagram c now sent_ok pkt = dispatch c now sent_ok (inner_of pkt)
