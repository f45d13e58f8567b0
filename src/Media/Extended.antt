-- ===== src/Media/Extended.antt =====
-- `decodedMedia`, `isExtendedMediaFamily` and `decodeExtendedMedia` of pkg/petlibro/assembler.go.
pub mod Accepts
use ha_addon_petlibro_local.Prelude.{
  ℕ, ◌+◌, ◌-◌, Bool, true, false, not, ◌&&◌, ◌||◌, List, [], if◌then◌else◌, ltb, leb, ◌==◌, length,
  add32,
}
use ha_addon_petlibro_local.Wire.Bytes.{at, u16_at, u32_at, slice}
use ha_addon_petlibro_local.Media.Trailer.{strip_fragment_metadata_trailer}

-- templates.go: the media-family markers.
abbrev pub inner_ch_key : ℕ
inner_ch_key = 0x05

abbrev pub inner_ch_inter : ℕ
inner_ch_inter = 0x07

abbrev pub inner_ch_audio : ℕ
inner_ch_audio = 0x03

pub record DecodedMedia : Type 0 where
  pub b1 : ℕ
  pub channel : ℕ
  pub sub_flag : ℕ
  pub sub_wire : ℕ
  pub total_frags : ℕ
  pub frag_idx : ℕ
  pub payload_len : ℕ
  pub frame_num : ℕ
  pub next_frame_like : ℕ
  pub payload : List ℕ
  pub extra_len : ℕ
  pub is_audio : Bool
  pub is_end : Bool
  pub extended : Bool

abbrev pub zero_media : DecodedMedia
zero_media = record {
  b1 = 0;
  channel = 0;
  sub_flag = 0;
  sub_wire = 0;
  total_frags = 0;
  frag_idx = 0;
  payload_len = 0;
  frame_num = 0;
  next_frame_like = 0;
  payload = [];
  extra_len = 0;
  is_audio = false;
  is_end = false;
  extended = false;
}

-- The `reason` strings.
pub data Reason : Type 0 where
  not_extended_family short_header invalid_channel zero_total_frags zero_payload : Reason
  payload_overflow next_frame_incoherent data_sub_flag data_frag_out_of_range : Reason
  data_has_frameinfo end_sub_flag end_frag_not_16 end_missing_frameinfo accepted : Reason

-- `(m, reason, ok)`.
pub record Decoded : Type 0 where
  pub media : DecodedMedia
  pub reason : Reason
  pub ok : Bool

abbrev pub refuse : DecodedMedia → Reason → Decoded
refuse m r = record { media = m; reason = r; ok = false }

unfoldable pub is_extended_media_family : ℕ → Bool
is_extended_media_family b1 = b1 == 0x08 || b1 == 0x09 || b1 == 0x0c || b1 == 0x0d

-- The cases `0x08, 0x0c` of the final switch.
unfoldable pub check_data : Bool → DecodedMedia → Decoded
check_data has_trailer m =
    if not (m.sub_flag == 0)
    then refuse m data_sub_flag
    else if leb m.total_frags m.frag_idx
    then refuse m data_frag_out_of_range
    else if has_trailer
    then refuse m data_has_frameinfo
    else record { media = m; reason = accepted; ok = true }

-- The cases `0x09, 0x0d`.
unfoldable pub check_end : Bool → DecodedMedia → Decoded
check_end has_trailer m =
    if not (m.sub_flag == 1)
    then refuse m end_sub_flag
    else if not (m.frag_idx == 16)
    then refuse m end_frag_not_16
    else if not has_trailer
    then refuse m end_missing_frameinfo
    else record { media = m; reason = accepted; ok = true }

-- The payload of checked length, and the switch on the fragment kind.
unfoldable pub take_payload : List ℕ → DecodedMedia → Decoded
take_payload inner m =
    let payload_end = 44 + m.payload_len in
    let payload = slice inner 44 payload_end in
    let has_trailer = (strip_fragment_metadata_trailer payload).has_ts in
    let m' = record m { payload = payload; extra_len = length inner - payload_end } in
    if m.b1 == 0x08 || m.b1 == 0x0c
    then check_data has_trailer m'
    else check_end has_trailer (record m' { is_end = true })

unfoldable pub check_header : List ℕ → DecodedMedia → Decoded
check_header inner m =
    if not (m.channel == inner_ch_key) && not (m.channel == inner_ch_inter)
    then refuse m invalid_channel
    else if m.total_frags == 0
    then refuse m zero_total_frags
    else if m.payload_len == 0
    then refuse m zero_payload
    else if ltb (length inner) (44 + m.payload_len)
    then refuse m payload_overflow
    else if not (m.next_frame_like == add32 m.frame_num 1)
    then refuse m next_frame_incoherent
    else take_payload inner m

-- The fields of the 44-byte header.
abbrev pub read_header : List ℕ → DecodedMedia → DecodedMedia
read_header inner m = record m {
  channel = at inner 24;
  sub_flag = at inner 25;
  total_frags = u16_at inner 28;
  frag_idx = u16_at inner 30;
  payload_len = u16_at inner 32;
  frame_num = u32_at inner 36;
  next_frame_like = u32_at inner 40;
}

unfoldable pub decode_extended_media : List ℕ → Decoded
decode_extended_media inner =
    let b1 = if leb 2 (length inner) then at inner 1 else 0 in
    let m = record zero_media { b1 = b1; extended = true } in
    let m' = record m { sub_wire = if leb 28 (length inner) then u16_at inner 26 else 0 } in
    if not (is_extended_media_family b1)
    then refuse m not_extended_family
    else if ltb (length inner) 44
    then refuse m' short_header
    else check_header inner (read_header inner m')
