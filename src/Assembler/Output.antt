-- ===== src/Assembler/Output.antt =====
-- `emitAU` of pkg/petlibro/assembler.go: the parameter set, the decision on a poisoned group of
-- pictures, the time stamp and the queue.
pub mod Outcome
use ha_addon_petlibro_local.Prelude.{
  ℕ, ◌*◌, ◌%◌, ◌≡◌, refl, arith, Bool, true, false, not, ◌&&◌, ◌||◌, Option, none, some, List, [],
  ◌∷◌, ◌++◌, if◌then◌else◌, ltb, leb, ◌==◌, length, add64, add32, sub32, u32_mod,
}
use ha_addon_petlibro_local.Stats.{Counters}
use ha_addon_petlibro_local.Media.Trailer.{codec_h264}
use ha_addon_petlibro_local.Assembler.AnnexB.{
  nalu_type_i_frame, nalu_type_sps, annexb_nal, annexb_contains_nal_type,
}
use ha_addon_petlibro_local.Assembler.Stream.{Packet, Stream, with_stats, queue_packet}
use ha_addon_petlibro_local.Assembler.Counts.{count_frame_out, count_strict_p_drop}

-- `slices.Equal`.
unfoldable pub equal_bytes : List ℕ → List ℕ → Bool
equal_bytes [] [] = true
equal_bytes [] (y ∷ ys) = false
equal_bytes (x ∷ xs) [] = false
equal_bytes (x ∷ xs) (y ∷ ys) = x == y && equal_bytes xs ys

pub equal_bytes-eq : (xs ys : List ℕ) → equal_bytes xs ys ≡ true → xs ≡ ys
unfolding equal_bytes
equal_bytes-eq [] [] h = refl
equal_bytes-eq [] (y ∷ ys) h = absurd (ground arith)
equal_bytes-eq (x ∷ xs) [] h = absurd (ground arith)
equal_bytes-eq (x ∷ xs) (y ∷ ys) h =
    let head : x ≡ y = ground arith in
    let tail = equal_bytes-eq xs ys (ground arith) in rw (head, tail) refl

-- A sequence parameter set other than the last one is remembered and reported.
unfoldable pub note_sps : Stream → Option (List ℕ) → Stream
note_sps s none = s
note_sps s (some sps) =
    if equal_bytes sps s.last_sps
    then s
    else if ltb (length sps) 4
    then record s { last_sps = sps }
    else record s { last_sps = sps; observed_sps = s.observed_sps ++ (sps ∷ []) }

-- The first camera time stamp that was used, this one included.
unfoldable pub origin : Stream → ℕ
origin s = if s.have_first_ts then s.first_frame_ts else s.pending_frame_ts

-- The time stamp by the camera's clock, or just after the last one.
unfoldable pub camera_pts : Stream → ℕ
unfolding origin
camera_pts s =
    if s.have_pending_ts
    then (sub32 s.pending_frame_ts (origin s) * 90) % u32_mod
    else add32 s.last_emit_ts 1

-- The guard that keeps time stamps apart.
unfoldable pub next_pts : Stream → ℕ
unfolding camera_pts
next_pts s =
    if leb (camera_pts s) s.last_emit_ts && not (s.last_emit_ts == 0)
    then add32 s.last_emit_ts 1
    else camera_pts s

unfoldable pub set_clock : Stream → Stream
unfolding origin next_pts
set_clock s = record s {
  first_frame_ts = if s.have_pending_ts then origin s else s.first_frame_ts;
  have_first_ts = s.have_first_ts || s.have_pending_ts;
  have_pending_ts = false;
  last_emit_ts = next_pts s;
}

abbrev pub video_packet : Stream → List ℕ → ℕ → ℕ → ℕ → Bool → Packet
video_packet s au camera_frame_num channel online_num is_key = record {
  codec = codec_h264;
  payload = au;
  timestamp = s.last_emit_ts;
  frame_no = s.emit_seq;
  camera_frame_no = camera_frame_num;
  channel = channel;
  online_num = online_num;
  is_keyframe = is_key;
}

unfoldable pub count_out : Stream → Stream
count_out s = record s { emit_seq = add32 s.emit_seq 1; stats = count_frame_out s.stats }

-- From the choice of the time stamp on.
unfoldable pub publish : Stream → List ℕ → ℕ → ℕ → ℕ → Bool → Stream
unfolding set_clock
publish s au camera_frame_num channel online_num is_key =
    let s' = set_clock s in
    count_out (queue_packet s' (video_packet s' au camera_frame_num channel online_num is_key))

unfoldable pub emit_au : Stream → List ℕ → ℕ → ℕ → ℕ → Stream
emit_au s au camera_frame_num channel online_num =
    let s' = note_sps s (annexb_nal au nalu_type_sps) in
    if ltb (length au) 5
    then s
    else if annexb_contains_nal_type au nalu_type_i_frame
    then publish (record s' { gop_poisoned = false }) au camera_frame_num channel online_num true
    else if s'.strict && s'.gop_poisoned
    then with_stats s' (count_strict_p_drop s'.stats)
    else publish s' au camera_frame_num channel online_num false
