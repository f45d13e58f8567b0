-- ===== src/Producer/Playback.antt =====
-- `Start` and `NewProducer` of pkg/petlibro/producer.go. The conversion of pkg/h264/annexb and the
-- ADTS readers of pkg/aac are parameters; a receiver is told by whether there is one for the codec.
pub mod Gate
use ha_addon_petlibro_local.Media.Trailer.{codec_h264, codec_aac_adts}
use ha_addon_petlibro_local.Prelude.{
  ℕ, zero, suc, Bool, true, false, not, ◌&&◌, ◌||◌, Option, none, some, List, [], ◌∷◌, ◌++◌,
  if◌then◌else◌, ltb, leb, ◌==◌, length, take, drop, add32, to_u16, codes,
}
use ha_addon_petlibro_local.Assembler.Stream.{Packet}

-- What other packages do with a payload.
pub record Codecs : Type 0 where
  pub encode_to_avcc : List ℕ → List ℕ
  pub is_adts : List ℕ → Bool
  pub read_adts_size : List ℕ → ℕ
  pub adts_header_len : List ℕ → ℕ
  pub rtp_packet_version_aac : ℕ

-- A packet handed to a receiver; `video` tells which codec's.
pub record RtpPacket : Type 0 where
  pub video : Bool
  pub version : ℕ
  pub marker : Bool
  pub sequence_number : ℕ
  pub timestamp : ℕ
  pub payload : List ℕ

-- Which of the two codecs has a receiver.
pub record Receivers : Type 0 where
  pub h264 : Bool
  pub aac : Bool

pub record Playback : Type 0 where
  pub rtp_seq : ℕ
  pub keyframe_seen : Bool
  pub written : List RtpPacket

-- A round goes on, or a slice expression is out of range and the goroutine panics.
pub data Played : Type 0 where
  plays : Playback → Played
  panics : Playback → Played

-- `p.rtpSeq.Add(1)`; the sequence number is its low 16 bits.
abbrev pub take_seq : Playback → Playback
take_seq s = record s { rtp_seq = add32 s.rtp_seq 1 }

unfoldable pub write_rtp : Bool → Playback → RtpPacket → Playback
write_rtp receiver s p = if receiver then record s { written = s.written ++ (p ∷ []) } else s

abbrev pub rtp_video : ℕ → ℕ → List ℕ → RtpPacket
rtp_video rtp_seq timestamp avcc = record {
  video = true;
  version = 0;
  marker = false;
  sequence_number = to_u16 rtp_seq;
  timestamp = timestamp;
  payload = avcc;
}

-- The replay of the access unit that the probe kept. The number is taken only for a receiver.
unfoldable pub replay : Receivers → Playback → ℕ → List ℕ → Playback
unfolding write_rtp
replay r s first_ts avcc =
    let s' = take_seq s in
    let written =
      if leb 5 (length avcc) && r.h264
      then write_rtp true s' (rtp_video s'.rtp_seq first_ts avcc)
      else s in
    record written { keyframe_seen = true }

unfoldable pub write_video : Receivers → Playback → ℕ → List ℕ → Playback
unfolding write_rtp
write_video r s timestamp avcc =
    let s' = take_seq s in
    if ltb (length avcc) 5 then s else write_rtp r.h264 s' (rtp_video s'.rtp_seq timestamp avcc)

-- The frame behind its ADTS header; `none` where the slice is out of range.
unfoldable pub trim_frame : Codecs → List ℕ → List ℕ
trim_frame k payload =
    let frame_len = k.read_adts_size payload in
    if ltb (k.adts_header_len payload) frame_len && leb frame_len (length payload)
    then take frame_len payload
    else payload

unfoldable pub strip_adts : Codecs → List ℕ → Option (List ℕ)
unfolding trim_frame
strip_adts k payload =
    let trimmed = trim_frame k payload in
    if not (k.is_adts payload)
    then some payload
    else if ltb (length trimmed) (k.adts_header_len trimmed)
    then none
    else some (drop (k.adts_header_len trimmed) trimmed)

unfoldable pub write_audio : Codecs → Receivers → Playback → Packet → Option (List ℕ) → Played
unfolding write_rtp
write_audio k r s p none = panics s
write_audio k r s p (some payload) = plays (
    write_rtp r.aac s (record {
      video = false;
      version = k.rtp_packet_version_aac;
      marker = true;
      sequence_number = to_u16 p.frame_no;
      timestamp = p.timestamp;
      payload = payload;
    }))

-- One round of the loop with a packet that is not nil.
unfoldable pub play_packet : Codecs → Receivers → Playback → Packet → Played
unfolding write_video write_audio strip_adts
play_packet k r s p =
    if p.codec == codec_h264
    then if s.keyframe_seen || p.is_keyframe
      then plays (
          write_video r (record s { keyframe_seen = true }) p.timestamp
            (k.encode_to_avcc p.payload))
      else plays s
    else if p.codec == codec_aac_adts
    then write_audio k r s p (strip_adts k p.payload)
    else plays s

-- The loop over what `ReadPacket` returns, until it fails.
unfoldable pub play : Codecs → Receivers → Playback → List (Option Packet) → Played
play k r s [] = plays s
play k r s (none ∷ more) = play k r s more
play k r s (some p ∷ more) = elim (play_packet k r s p) [
  | plays s' ↦ play k r s' more
  | panics s' ↦ panics s'
]

abbrev pub idle_playback : Playback
idle_playback = record { rtp_seq = 0; keyframe_seen = false; written = [] }

unfoldable pub begin : Codecs → Receivers → Option (List ℕ) → ℕ → Playback
unfolding replay
begin k r none first_ts = idle_playback
begin k r (some first_au) first_ts = replay r idle_playback first_ts (k.encode_to_avcc first_au)

unfoldable pub start : Codecs → Receivers → Option (List ℕ) → ℕ → List (Option Packet) → Played
unfolding begin play
start k r first_au first_ts packets = play k r (begin k r first_au first_ts) packets

-- The code points of a text.
-- How an attempt to start ends: a producer, or an error with its text.
pub data Attempted (P : Type 0) : Type 0 where
  started : P → Attempted P
  gave_up : List ℕ → Attempted P

-- `strings.Contains`.
unfoldable pub has_prefix : List ℕ → List ℕ → Bool
has_prefix s [] = true
has_prefix [] (x ∷ want) = false
has_prefix (y ∷ s) (x ∷ want) = y == x && has_prefix s want

unfoldable pub has_infix : List ℕ → List ℕ → Bool
unfolding has_prefix
has_infix [] want = has_prefix [] want
has_infix (y ∷ s) want = has_prefix (y ∷ s) want || has_infix s want

unfoldable pub retry_startup_error : List ℕ → Bool
unfolding has_infix
retry_startup_error msg =
    has_infix msg (codes "LOGIN_RESP timeout")
    || has_infix msg (codes "petlibro: probe timeout")
    || has_infix msg (codes "petlibro: probe: EOF")

module _ {P : Type 0} where
  -- `attempts i` is what the call with index `i` of `newProducer` returns; the loop makes at most
  -- `left` further calls.
  unfoldable pub try_producer : ℕ → List ℕ → (ℕ → Attempted P) → ℕ → Attempted P
  unfolding retry_startup_error
  try_producer zero last_err attempts i = gave_up last_err
  try_producer (suc left) last_err attempts i = elim (attempts i) [
    | started p ↦ started p
    | gave_up err ↦
        let again = try_producer left err attempts (suc i) in
        if retry_startup_error err then again else gave_up err
  ]

abbrev pub max_attempts : ℕ
max_attempts = 3

unfoldable pub new_producer : {P : Type 0} → (ℕ → Attempted P) → Attempted P
unfolding try_producer
new_producer attempts = try_producer max_attempts [] attempts 0
