-- ===== src/Assembler/Output/Outcome.antt =====
-- What `emitAU` does with an access unit.
use ha_addon_petlibro_local.Prelude.{
  ℕ, ◌+◌, ◌<◌, ◌≡◌, ◌≢◌, refl, ◌∙◌, inl, inr, Bool, true, false, not, ◌&&◌, Bool-cases, Option,
  none, some, List, [], ◌∷◌, ◌++◌, ltb, leb, ◌==◌, length, u32_mod, add32, arith,
}
use ha_addon_petlibro_local.Media.Trailer.{codec_h264}
use ha_addon_petlibro_local.Assembler.AnnexB.{
  nalu_type_i_frame, nalu_type_sps, annexb_nal, annexb_contains_nal_type,
}
use ha_addon_petlibro_local.Assembler.Stream.{Stream, queue_packet, frames_cap}
use ha_addon_petlibro_local.Assembler.Output.{
  equal_bytes, note_sps, camera_pts, next_pts, set_clock, count_out, publish, emit_au,
}

-- The parts of the stream that the parameter set does not touch.
record SameOutput (s s' : Stream) : Type 0 where
  strict : s'.strict ≡ s.strict
  poisoned : s'.gop_poisoned ≡ s.gop_poisoned
  frames : s'.frames ≡ s.frames
  done : s'.done ≡ s.done
  last : s'.last_emit_ts ≡ s.last_emit_ts
  seq : s'.emit_seq ≡ s.emit_seq
  pending : s'.pending_frame_ts ≡ s.pending_frame_ts
  have_pending : s'.have_pending_ts ≡ s.have_pending_ts
  first : s'.first_frame_ts ≡ s.first_frame_ts
  have_first : s'.have_first_ts ≡ s.have_first_ts

same : (s : Stream) → SameOutput s s
same s = record {
  strict = refl;
  poisoned = refl;
  frames = refl;
  done = refl;
  last = refl;
  seq = refl;
  pending = refl;
  have_pending = refl;
  first = refl;
  have_first = refl;
}

note_sps-SameOutput : (s : Stream) (o : Option (List ℕ)) → SameOutput s (note_sps s o)
unfolding note_sps
note_sps-SameOutput s none = same s
note_sps-SameOutput s (some sps) = elim (Bool-cases (equal_bytes sps s.last_sps)) [
  | inl known ↦ rw known (same s)
  | inr changed ↦ elim (Bool-cases (ltb (length sps) 4)) [
    | inl short ↦
        rw (changed, short)
          (record {
            strict = refl;
            poisoned = refl;
            frames = refl;
            done = refl;
            last = refl;
            seq = refl;
            pending = refl;
            have_pending = refl;
            first = refl;
            have_first = refl;
          })
    | inr long ↦
        rw (changed, long)
          (record {
            strict = refl;
            poisoned = refl;
            frames = refl;
            done = refl;
            last = refl;
            seq = refl;
            pending = refl;
            have_pending = refl;
            first = refl;
            have_first = refl;
          })
  ]
]

-- The stream with one more packet waiting.
pub record Released (s s' : Stream) (au : List ℕ) (number channel online : ℕ) (key : Bool)
    : Type 0 where
  pub frames :
      s'.frames
      ≡ s.frames
        ++ (record {
          codec = codec_h264;
          payload = au;
          timestamp = s'.last_emit_ts;
          frame_no = s.emit_seq;
          camera_frame_no = number;
          channel = channel;
          online_num = online;
          is_keyframe = key;
        }
            ∷ [])
  pub later : s.last_emit_ts ≢ 0 → s.last_emit_ts + 1 < u32_mod → s.last_emit_ts < s'.last_emit_ts
  pub used_ts : s'.have_pending_ts ≡ false
  pub poisoned : s'.gop_poisoned ≡ s.gop_poisoned

next_pts-later :
    (s : Stream) → s.last_emit_ts ≢ 0 → s.last_emit_ts + 1 < u32_mod → s.last_emit_ts < next_pts s
unfolding next_pts add32
next_pts-later s started room =
    elim (Bool-cases (leb (camera_pts s) s.last_emit_ts && not (s.last_emit_ts == 0))) [
      | inl guarded ↦ rw guarded (omega arith)
      | inr free ↦ rw free (ground arith)
    ]

publish-Released :
    (s : Stream) (au : List ℕ) (number channel online : ℕ) (key : Bool)
    → s.done ≡ false
    → length s.frames < frames_cap
    → Released s (publish s au number channel online key) au number channel online key
unfolding publish count_out queue_packet set_clock
publish-Released s au number channel online key open_stream room =
    let fits : ltb (length s.frames) frames_cap ≡ true = ground arith in
    rw (open_stream, fits)
      (record { frames = refl; later = next_pts-later s; used_ts = refl; poisoned = refl })

-- The parameter set does not change what a release says.
release_key :
    (s s1 s' : Stream) (au : List ℕ) (number channel online : ℕ)
    → SameOutput s s1
    → Released (record s1 { gop_poisoned = false }) s' au number channel online true
    → Released (record s { gop_poisoned = false }) s' au number channel online true
release_key s s1 s' au number channel online e r = record {
  frames = rw (e.frames, e.seq) at r.frames;
  later = rw e.last at r.later;
  used_ts = r.used_ts;
  poisoned = r.poisoned;
}

release_inter :
    (s s1 s' : Stream) (au : List ℕ) (number channel online : ℕ)
    → SameOutput s s1
    → Released s1 s' au number channel online false
    → Released s s' au number channel online false
release_inter s s1 s' au number channel online e r = record {
  frames = rw (e.frames, e.seq) at r.frames;
  later = rw e.last at r.later;
  used_ts = r.used_ts;
  poisoned = r.poisoned ∙ e.poisoned;
}

-- The ways in which `emitAU` ends.
pub data Outcome (s s' : Stream) (au : List ℕ) (number channel online : ℕ) : Type 0 where
  too_short : length au < 5 → s' ≡ s → Outcome s s' au number channel online
  withheld :
      annexb_contains_nal_type au nalu_type_i_frame ≡ false
      → s.strict ≡ true
      → s.gop_poisoned ≡ true
      → s'.frames ≡ s.frames
      → s'.gop_poisoned ≡ true
      → Outcome s s' au number channel online
  released_key :
      annexb_contains_nal_type au nalu_type_i_frame ≡ true
      → Released (record s { gop_poisoned = false }) s' au number channel online true
      → Outcome s s' au number channel online
  released_inter :
      annexb_contains_nal_type au nalu_type_i_frame ≡ false
      → (s.strict && s.gop_poisoned) ≡ false
      → Released s s' au number channel online false
      → Outcome s s' au number channel online

-- With room in the queue of an open client, `emitAU` does one of four things. A unit of less than
-- five bytes changes nothing. In strict mode with a poisoned group of pictures, a unit without an
-- IDR slice is withheld. A unit with an IDR slice is queued as a key frame and clears the poison. Any
-- other unit is queued and leaves the poison as it was. A queued unit's time stamp comes after the
-- last one, unless the last one is 0 or the largest 32-bit number.
pub emit_au-Outcome :
    (s : Stream) (au : List ℕ) (number channel online : ℕ)
    → s.done ≡ false
    → length s.frames < frames_cap
    → Outcome s (emit_au s au number channel online) au number channel online
unfolding emit_au
emit_au-Outcome s au number channel online open_stream room =
    let e = note_sps-SameOutput s (annexb_nal au nalu_type_sps) in
    let s1 = note_sps s (annexb_nal au nalu_type_sps) in
    let open1 : s1.done ≡ false = e.done ∙ open_stream in
    let room1 : length s1.frames < frames_cap = rw e.frames room in
    elim (Bool-cases (ltb (length au) 5)) [
      | inl short ↦ rw short (too_short (ground arith) refl)
      | inr long ↦ elim (Bool-cases (annexb_contains_nal_type au nalu_type_i_frame)) [
        | inl key ↦
            rw (long, key)
              (released_key key (
                release_key s s1 _ au number channel online e (
                  publish-Released (record s1 { gop_poisoned = false }) au number channel online
                    true open1 room1)))
        | inr inter ↦ elim (Bool-cases (s.strict && s.gop_poisoned)) [
          | inl poisoned ↦
              let p1 : (s1.strict && s1.gop_poisoned) ≡ true = rw (e.strict, e.poisoned) poisoned in
              rw (long, inter, p1)
                (withheld inter (ground arith) (ground arith) e.frames (e.poisoned ∙ ground arith))
          | inr clean ↦
              let p1 : (s1.strict && s1.gop_poisoned) ≡ false = rw (e.strict, e.poisoned) clean in
              rw (long, inter, p1)
                (released_inter inter clean (
                  release_inter s s1 _ au number channel online e
                    (publish-Released s1 au number channel online false open1 room1)))
        ]
      ]
    ]
