-- ===== src/Media/Normal.antt =====
-- `decodeNormalMedia` and `decodeBootstrapMedia` of pkg/petlibro/assembler.go: the 36-byte layout.
pub mod Accepts
use ha_addon_petlibro_local.Prelude.{
  ℕ, ◌+◌, Bool, true, false, not, ◌&&◌, ◌||◌, Option, none, some, List, [], if◌then◌else◌, ltb, leb,
  ◌==◌, length, drop,
}
use ha_addon_petlibro_local.Wire.Bytes.{at, u16_at, u32_at, slice}
use ha_addon_petlibro_local.Media.Extended.{
  DecodedMedia, zero_media, inner_ch_key, inner_ch_inter, inner_ch_audio, is_extended_media_family,
  decode_extended_media,
}

-- The closure `payloadFrom`.
unfoldable pub payload_from : List ℕ → ℕ → ℕ → List ℕ
payload_from inner payload_len start =
    if not (payload_len == 0) && leb (start + payload_len) (length inner)
    then slice inner start (start + payload_len)
    else drop start inner

unfoldable pub is_video : DecodedMedia → Bool
is_video m = m.channel == inner_ch_key || m.channel == inner_ch_inter

-- The ADTS sync bytes `0xFF 0xF1` at offset `i`, the packet being long enough.
unfoldable pub has_adts : List ℕ → ℕ → Bool
has_adts inner i = leb (i + 2) (length inner) && at inner i == 0xff && at inner (i + 1) == 0xf1

-- The check after the switch: an audio packet needs a payload.
unfoldable pub need_audio : DecodedMedia → Option DecodedMedia
need_audio m = if m.is_audio && length m.payload == 0 then none else some m

-- `if len(full) > 8 { m.payload = full[8:] }`
unfoldable pub after_eight : List ℕ → List ℕ
after_eight full = if ltb 8 (length full) then drop 8 full else []

-- The switch on the kind of packet. `none` stands for `ok == false`.
unfoldable pub classify : List ℕ → DecodedMedia → Option DecodedMedia
classify inner m =
    let payload = payload_from inner m.payload_len 36 in
    if is_video m && (m.b1 == 0x00 || m.b1 == 0x04 || m.b1 == 0x05)
    then if m.payload_len == 0 || ltb (length inner) (36 + m.payload_len)
      then none
      else need_audio (record m { payload = payload })
    else if is_video m && m.b1 == 0x01 && m.sub_flag == 0x01
    then need_audio (record m { payload = payload; is_end = true })
    else if m.channel == inner_ch_audio && m.sub_flag == 0x01 && has_adts inner 36
    then need_audio (record m { is_audio = true; payload = payload })
    else if m.channel == inner_ch_inter && m.sub_flag == 0x00 && m.b1 == 0x0d && has_adts inner 44
    then need_audio (record m { is_audio = true; payload = after_eight payload })
    else none

abbrev pub read_fields : List ℕ → DecodedMedia
read_fields inner = record zero_media {
  b1 = at inner 1;
  channel = at inner 16;
  sub_flag = at inner 17;
  sub_wire = u16_at inner 18;
  total_frags = at inner 20;
  frag_idx = u16_at inner 22;
  payload_len = u16_at inner 24;
  frame_num = u32_at inner 28;
}

unfoldable pub decode_normal_media : List ℕ → Option DecodedMedia
decode_normal_media inner =
    if ltb (length inner) 36 then none else classify inner (read_fields inner)

unfoldable pub decode_bootstrap_media : List ℕ → Option DecodedMedia
decode_bootstrap_media inner =
    if length inner == 0 || not (at inner 0 == 0x0c)
    then none
    else if is_extended_media_family (at inner 1) && (decode_extended_media inner).ok
    then some (decode_extended_media inner).media
    else decode_normal_media inner
