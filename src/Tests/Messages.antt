-- ===== src/Tests/Messages.antt =====
-- The wire formats on small examples.
use ha_addon_petlibro_local.Prelude.{
  ℕ, ◌≡◌, ◌↔◌, refl, ◌⊎◌, inr, true, none, some, List, [], ◌∷◌, ◌++◌, replicate, add32, arith,
}
use ha_addon_petlibro_local.Wire.Bytes.{AllBytes, slice, u16_at}
use ha_addon_petlibro_local.Wire.Frames.{inner_data}
use ha_addon_petlibro_local.Wire.Frames.Layout.{reliable_control_sequence-inner_data}
use ha_addon_petlibro_local.Ack.Window.{TransportAck}
use ha_addon_petlibro_local.Media.Trailer.{strip_fragment_metadata_trailer, has_signature}
use ha_addon_petlibro_local.Media.Trailer.RoundTrip.{trailer, strip-trailer}
use ha_addon_petlibro_local.Media.Extended.{
  DecodedMedia, zero_media, decode_extended_media, check_header, take_payload, check_data,
  is_extended_media_family,
}
use ha_addon_petlibro_local.Media.Extended.Accepts.{Extended, decode_extended_media-ok}
use ha_addon_petlibro_local.Media.Normal.{decode_bootstrap_media}
use ha_addon_petlibro_local.Media.Normal.Accepts as NormalAccepts
use ha_addon_petlibro_local.Media.Control.{is_short_family, reliable_control_sequence}
use ha_addon_petlibro_local.Media.Control.Disjoint.{reliable_not_media}
use ha_addon_petlibro_local.Assembler.Output.{equal_bytes}
use ha_addon_petlibro_local.Discovery.{
  classify_search, trim_zeros, trim_left, trim_right, is_ascii_alpha_numeric, accepted,
  classify_discovery_response,
}
use ha_addon_petlibro_local.Discovery.Response.{classify_discovery_response-accepted}

-- An AUD and an IDR slice.
abbrev unit_pair : List ℕ
unit_pair = 0 ∷ 0 ∷ 0 ∷ 1 ∷ 9 ∷ 16 ∷ 0 ∷ 0 ∷ 1 ∷ 0x65 ∷ 7 ∷ 8 ∷ 9 ∷ []

-- The report with the two offsets 2 and 5.
abbrev report : TransportAck
report = record {
  ordinal = 300;
  av_base = 65535;
  av_high = 4;
  reliable_recv_ack = 7;
  missing = 2 ∷ 5 ∷ [];
  state = 0;
  send_count = 1;
  tick = 50;
}

reliable_control_sequence-inner_data_example :
    reliable_control_sequence (inner_data 3 0x7000 513 (9 ∷ 8 ∷ [])) ≡ some 513
reliable_control_sequence-inner_data_example =
    reliable_control_sequence-inner_data 3 0x7000 513 (9 ∷ 8 ∷ []) (inr refl) (omega arith)
      (omega arith)

abbrev ended : List ℕ
ended = 5 ∷ 6 ∷ trailer 1 2 66000

strip-trailer_example :
    strip_fragment_metadata_trailer ((5 ∷ 6 ∷ []) ++ trailer 1 2 66000)
    ≡ record { payload = 5 ∷ 6 ∷ []; ts = 66000; online_num = 2; has_ts = true }
strip-trailer_example = strip-trailer (5 ∷ 6 ∷ []) 1 2 66000 (omega arith) (omega arith)

abbrev tail : List ℕ
tail = 78 ∷ 0 ∷ 1 ∷ 0 ∷ 2 ∷ 0 ∷ 0 ∷ 0 ∷ 0 ∷ 0 ∷ 0 ∷ 0 ∷ 208 ∷ 1 ∷ 1 ∷ 0 ∷ []

tail-has_ts : (strip_fragment_metadata_trailer tail).has_ts ≡ true
unfolding strip_fragment_metadata_trailer has_signature
tail-has_ts = refl

tail-AllBytes : AllBytes tail
tail-AllBytes = ground arith

-- A data fragment of the extended layout: index 1 of 3, one byte of payload.
abbrev extended_packet : List ℕ
extended_packet =
    0x0c ∷ 0x08 ∷ replicate 22 0
    ++ (0x05 ∷ 0 ∷ 1 ∷ 64 ∷ 3 ∷ 0 ∷ 1 ∷ 0 ∷ 1 ∷ 0 ∷ 0 ∷ 0 ∷ 7 ∷ 0 ∷ 0 ∷ 0 ∷ 8 ∷ 0 ∷ 0 ∷ 0 ∷ 99 ∷ [])

extended_packet-ok : (decode_extended_media extended_packet).ok ≡ true
unfolding decode_extended_media check_header take_payload check_data is_extended_media_family
    strip_fragment_metadata_trailer add32
extended_packet-ok = refl

decode_extended_media-ok_example :
    ((decode_extended_media extended_packet).ok ≡ true) ↔ Extended extended_packet
decode_extended_media-ok_example = decode_extended_media-ok extended_packet

-- A data fragment of the 36-byte layout: index 0 of 2, two bytes of payload.
abbrev normal_packet : List ℕ
normal_packet =
    0x0c ∷ replicate 15 0
    ++ (0x07 ∷ 0 ∷ 1 ∷ 64 ∷ 2 ∷ 0 ∷ 0 ∷ 0 ∷ 2 ∷ 0 ∷ 0 ∷ 0 ∷ 7 ∷ 0 ∷ 0 ∷ 0 ∷ 0 ∷ 0 ∷ 0 ∷ 0 ∷ 98 ∷ 99
        ∷ [])

abbrev normal_media : DecodedMedia
normal_media = record zero_media {
  channel = 7;
  sub_wire = 16385;
  total_frags = 2;
  payload_len = 2;
  frame_num = 7;
  payload = 98 ∷ 99 ∷ [];
}

abbrev control_packet : List ℕ
control_packet = 0x0c ∷ replicate 17 0 ++ (5 ∷ 0 ∷ [])

control_packet-sequence : reliable_control_sequence control_packet ≡ some 5
unfolding reliable_control_sequence is_short_family
control_packet-sequence = refl

reliable_not_media_example : decode_bootstrap_media control_packet ≡ none
reliable_not_media_example =
    reliable_not_media control_packet (ground arith) control_packet-sequence

abbrev uid : List ℕ
uid = replicate 20 65

abbrev search_response : List ℕ
search_response = replicate 8 0 ++ (0x02 ∷ 0x06 ∷ []) ++ replicate 6 0 ++ uid

search_response-accepted :
    classify_discovery_response search_response uid (replicate 8 1) ≡ accepted
unfolding classify_discovery_response classify_search trim_zeros trim_left trim_right
    is_ascii_alpha_numeric equal_bytes
search_response-accepted = refl

classify_discovery_response-accepted_example :
    (slice search_response 0x10 0x24 ≡ uid)
    × ((u16_at search_response 8 ≡ 0x0602)
        ⊎ ((u16_at search_response 8 ≡ 0x0404) × (slice search_response 0x24 0x2c ≡ replicate 8 1)))
classify_discovery_response-accepted_example =
    classify_discovery_response-accepted search_response uid (replicate 8 1)
      search_response-accepted
