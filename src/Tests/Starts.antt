-- ===== src/Tests/Starts.antt =====
-- The start and the end of a session of pkg/petlibro, and its playback, on small examples.
use ha_addon_petlibro_local.Prelude.{
  ℕ, zero, suc, ◌++◌, ◌*◌, ◌≡◌, refl, Bool, true, false, Option, none, some, List, [], ◌∷◌,
  replicate, arith,
}
use ha_addon_petlibro_local.Wire.Bytes.{AllBytes}
use ha_addon_petlibro_local.Assembler.Stream.{Packet}
use ha_addon_petlibro_local.Session.Send.{Outbox}
use ha_addon_petlibro_local.Session.Commands.{Options, standard}
use ha_addon_petlibro_local.Session.Bootstrap.{Env, Startup}
use ha_addon_petlibro_local.Session.Handshake.{none_came, came, Arrivals, Handshake}
use ha_addon_petlibro_local.Media.Trailer.{codec_h264}
use ha_addon_petlibro_local.Producer.Playback.{
  Codecs, Receivers, start, play, play_packet, write_video, begin, write_rtp,
}
use ha_addon_petlibro_local.Producer.Playback.Gate.{
  videos, number, replayed, units, has_unit, written, Completed, start-videos,
}
use ha_addon_petlibro_local.Tests.Frames.{waiting}

-- A decryption that yields a message of 48 zeros.
abbrev pub zeros : List ℕ → List ℕ
zeros raw = replicate 48 0

pub replicate-AllBytes : (n : ℕ) → AllBytes (replicate n 0)
replicate-AllBytes zero = tt
replicate-AllBytes (suc n) = (omega arith, replicate-AllBytes n)

-- Each datagram is written, and the camera answers each command once.
abbrev env : Env
env = record { clock = λ n. n * 3; sent = λ n. true; window = λ i. (1 ∷ []) ∷ [] }

abbrev outbox : Outbox
outbox = record { nonce = replicate 8 7; kseq = 2; icounter = 0; wire = [] }

abbrev options : Options
options = record {
  audio = true;
  sd = false;
  send_delay_ctrl = true;
  stream_ctrl_variant = standard;
  stream_ctrl_quality = 1;
}

abbrev startup : Startup
startup = record { client = waiting; outbox = outbox }

-- The camera answers the searches from another port, and the login never.
abbrev arrivals : Arrivals
arrivals = record {
  after_search = came 5 32762 (1 ∷ 2 ∷ []) ∷ [];
  after_knock = none_came ∷ [];
  after_login = none_came ∷ came 5 32762 (3 ∷ []) ∷ [];
  sent = λ n. true;
  seed = 77;
}

abbrev at_start : Handshake
at_start = record { outbox = outbox; peer = record { ip = 5; port = 32761 } }

abbrev plain : List ℕ → List ℕ
plain b = b

-- A payload that is its own access unit, and no audio.
abbrev codecs : Codecs
codecs = record {
  encode_to_avcc = plain;
  is_adts = λ b. false;
  read_adts_size = λ b. 0;
  adts_header_len = λ b. 7;
  rtp_packet_version_aac = 254;
}

abbrev receivers : Receivers
receivers = record { h264 = true; aac = false }

abbrev frame : ℕ → Bool → Packet
frame n key = record {
  codec = codec_h264;
  payload = 0 ∷ 0 ∷ 0 ∷ 1 ∷ n ∷ [];
  timestamp = 90 * n;
  frame_no = n;
  camera_frame_no = n;
  channel = 5;
  online_num = 1;
  is_keyframe = key;
}

-- The frame before the key frame is not written.
abbrev packets : List (Option Packet)
packets = some (frame 1 false) ∷ none ∷ some (frame 2 true) ∷ some (frame 3 false) ∷ []

completes : Completed (start codecs receivers none 0 packets)
unfolding start play play_packet write_video begin write_rtp
completes = tt

start-videos_example :
    videos (written (start codecs receivers none 0 packets))
    ≡ number 0 (replayed codecs none 0 ++ units codecs (has_unit none) packets)
start-videos_example = start-videos codecs receivers none 0 packets refl completes
