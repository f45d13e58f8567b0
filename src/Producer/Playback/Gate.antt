-- ===== src/Producer/Playback/Gate.antt =====
-- The video that playback writes, against a plain description: the replayed unit, then the packets
-- from the first key frame on, numbered one by one.
use ha_addon_petlibro_local.Prelude.{
  ℕ, ◌≡◌, refl, sym, ap, ◌∙◌, ◌⊎◌, inl, inr, Bool, true, false, ◌&&◌, ◌||◌, Bool-cases, Option,
  none, some, List, [], ◌∷◌, ◌++◌, if◌then◌else◌, ltb, leb, ◌==◌, length, add32, arith,
}
use mathlib.Core.List.{append-nil, append_assoc}
use ha_addon_petlibro_local.Assembler.Stream.{Packet}
use ha_addon_petlibro_local.Media.Trailer.{codec_h264, codec_aac_adts}
use ha_addon_petlibro_local.Producer.Playback.{
  Codecs, RtpPacket, Receivers, Playback, Played, plays, panics, write_rtp, rtp_video, replay,
  write_video, strip_adts, write_audio, play_packet, play, begin, start,
}

abbrev pub videos : List RtpPacket → List RtpPacket
videos [] = []
videos (p ∷ ps) = if p.video then p ∷ videos ps else videos ps

-- The video units that should be written, with their time stamps: from the first key frame on, those
-- that are long enough for a receiver.
abbrev pub is_h264 : Packet → Bool
is_h264 p = p.codec == codec_h264

abbrev pub opens : Bool → Packet → Bool
opens seen p = seen || (is_h264 p && p.is_keyframe)

abbrev pub units : Codecs → Bool → List (Option Packet) → List (ℕ × List ℕ)
units k seen [] = []
units k seen (none ∷ more) = units k seen more
units k seen (some p ∷ more) =
    let rest = units k (opens seen p) more in
    let avcc = k.encode_to_avcc p.payload in
    if is_h264 p && opens seen p && leb 5 (length avcc) then (p.timestamp, avcc) ∷ rest else rest

-- The packets that carry them, numbered from the one after `seq` on.
abbrev pub number : ℕ → List (ℕ × List ℕ) → List RtpPacket
number seq [] = []
number seq ((timestamp, avcc) ∷ us) =
    rtp_video (add32 seq 1) timestamp avcc ∷ number (add32 seq 1) us

videos-append : (ps qs : List RtpPacket) → videos (ps ++ qs) ≡ videos ps ++ videos qs
videos-append [] qs = refl
videos-append (p ∷ ps) qs = elim (Bool-cases p.video) [
  | inl v ↦ rw (v, videos-append ps qs) refl
  | inr a ↦ rw (a, videos-append ps qs) refl
]

-- What one packet adds.
abbrev adds : Codecs → Bool → Packet → List (ℕ × List ℕ) → List (ℕ × List ℕ)
adds k seen p rest =
    let avcc = k.encode_to_avcc p.payload in
    if is_h264 p && opens seen p && leb 5 (length avcc) then (p.timestamp, avcc) ∷ rest else rest

record Wrote (k : Codecs) (s : Playback) (p : Packet) (s' : Playback) : Type 0 where
  gate : s'.keyframe_seen ≡ opens s.keyframe_seen p
  out :
      (rest : List (ℕ × List ℕ))
      → videos s'.written ++ number s'.rtp_seq rest
        ≡ videos s.written ++ number s.rtp_seq (adds k s.keyframe_seen p rest)

-- Of an outcome that goes on.
abbrev Outcome : Codecs → Playback → Packet → Played → Type 0
Outcome k s p (plays s') = Wrote k s p s'
Outcome k s p (panics s') = Unit {0}

write_video-out :
    (r : Receivers) (s : Playback) (timestamp : ℕ) (avcc : List ℕ) (rest : List (ℕ × List ℕ))
    → r.h264 ≡ true
    → videos (write_video r s timestamp avcc).written
        ++ number (write_video r s timestamp avcc).rtp_seq rest
      ≡ videos s.written
        ++ number s.rtp_seq (if leb 5 (length avcc) then (timestamp, avcc) ∷ rest else rest)
unfolding write_video write_rtp
write_video-out r s timestamp avcc rest h = elim (Bool-cases (ltb (length avcc) 5)) [
  | inl short ↦ let no : leb 5 (length avcc) ≡ false = ground arith in rw (short, no) refl
  | inr long ↦
      let yes' : leb 5 (length avcc) ≡ true = ground arith in
      rw (long, yes', h, videos-append s.written _)
        (append_assoc (videos s.written) (rtp_video (add32 s.rtp_seq 1) timestamp avcc ∷ []) _)
]

seen-write_video :
    (r : Receivers) (s : Playback) (timestamp : ℕ) (avcc : List ℕ)
    → (write_video r s timestamp avcc).keyframe_seen ≡ s.keyframe_seen
unfolding write_video write_rtp
seen-write_video r s timestamp avcc = ground arith

audio-Outcome :
    (k : Codecs) (r : Receivers) (s : Playback) (p : Packet) (payload : Option (List ℕ))
    → is_h264 p ≡ false
    → Outcome k s p (write_audio k r s p payload)
unfolding write_audio write_rtp
audio-Outcome k r s p none other = tt
audio-Outcome k r s p (some payload) other = elim (Bool-cases r.aac) [
  | inl receiver ↦ rw receiver (record {
    gate = ground (arith, other);
    out = λ rest. rw (other, videos-append s.written _, append-nil (videos s.written)) refl;
  })
  | inr nobody ↦ rw nobody (record { gate = ground (arith, other); out = λ rest. rw other refl })
]

play_packet-Outcome :
    (k : Codecs) (r : Receivers) (s : Playback) (p : Packet)
    → r.h264 ≡ true
    → Outcome k s p (play_packet k r s p)
unfolding play_packet
play_packet-Outcome k r s p h = elim (Bool-cases (is_h264 p)) [
  | inl video ↦ elim (Bool-cases (s.keyframe_seen || p.is_keyframe)) [
    | inl open' ↦
        let s' = record s { keyframe_seen = true } in
        let avcc = k.encode_to_avcc p.payload in
        let gate : opens s.keyframe_seen p ≡ true = ground (arith, video, open') in
        rw (video, open')
          (record {
            gate = seen-write_video r s' p.timestamp avcc ∙ sym gate;
            out = λ rest. rw (gate, video) (write_video-out r s' p.timestamp avcc rest h);
          })
    | inr shut ↦
        let gate : opens s.keyframe_seen p ≡ false = ground (arith, video, shut) in
        rw (video, shut)
          (record { gate = ground (arith, shut); out = λ rest. rw (gate, video) refl })
  ]
  | inr other ↦ elim (Bool-cases (p.codec == codec_aac_adts)) [
    | inl audio ↦ rw (other, audio) (audio-Outcome k r s p (strip_adts k p.payload) other)
    | inr unknown ↦
        rw (other, unknown) (record { gate = ground (arith, other); out = λ rest. rw other refl })
  ]
]

-- What the loop has written when it is left.
abbrev pub written : Played → List RtpPacket
written (plays s) = s.written
written (panics s) = s.written

abbrev pub Completed : Played → Type 0
Completed (plays s) = Unit {0}
Completed (panics s) = ⊥

Played-cases : (o : Played) → ((s : Playback) × (o ≡ plays s)) ⊎ ((s : Playback) × (o ≡ panics s))
Played-cases (plays s) = inl (s, refl)
Played-cases (panics s) = inr (s, refl)

play-videos :
    (k : Codecs) (r : Receivers) (s : Playback) (ps : List (Option Packet))
    → r.h264 ≡ true
    → Completed (play k r s ps)
    → videos (written (play k r s ps))
      ≡ videos s.written ++ number s.rtp_seq (units k s.keyframe_seen ps)
unfolding play
play-videos k r s [] h full = sym (append-nil (videos s.written))
play-videos k r s (none ∷ ps) h full = play-videos k r s ps h full
play-videos k r s (some p ∷ ps) h full = elim (Played-cases (play_packet k r s p)) [
  | inl (s', e) ↦
      let w : Wrote k s p s' = rw e at (play_packet-Outcome k r s p h) in
      let c : Completed (play k r s' ps) = rw (play, e) at full in
      rw (play, e)
        (play-videos k r s' ps h c
          ∙ w.out (units k s'.keyframe_seen ps)
          ∙ ap (λ g. videos s.written ++ number s.rtp_seq (adds k s.keyframe_seen p (units k g ps)))
              w.gate)
  | inr (s', e) ↦ absurd (let c : Completed (panics s') = rw (play, e) at full in c)
]

-- The unit of the probe, if it is long enough for a receiver.
abbrev pub replayed : Codecs → Option (List ℕ) → ℕ → List (ℕ × List ℕ)
replayed k none first_ts = []
replayed k (some au) first_ts =
    if leb 5 (length (k.encode_to_avcc au)) then (first_ts, k.encode_to_avcc au) ∷ [] else []

abbrev pub has_unit : Option (List ℕ) → Bool
has_unit none = false
has_unit (some au) = true

begin-out :
    (k : Codecs) (r : Receivers) (first_au : Option (List ℕ)) (first_ts : ℕ)
    (us : List (ℕ × List ℕ))
    → r.h264 ≡ true
    → (videos (begin k r first_au first_ts).written
          ++ number (begin k r first_au first_ts).rtp_seq us
        ≡ number 0 (replayed k first_au first_ts ++ us))
      × ((begin k r first_au first_ts).keyframe_seen ≡ has_unit first_au)
unfolding begin replay write_rtp
begin-out k r none first_ts us h = (refl, refl)
begin-out k r (some au) first_ts us h = elim (Bool-cases (leb 5 (length (k.encode_to_avcc au)))) [
  | inl long ↦ rw (long, h) (refl, refl)
  | inr short ↦ rw short (refl, refl)
]

-- With a receiver for the video, unless the goroutine panics: the video that `Start` writes is the unit
-- of the probe, if there is one, and then the packets from the first key frame on, or all of them
-- behind a replayed unit; units too short for a receiver are left out, and the sequence numbers are 1,
-- 2, 3 and so on.
pub start-videos :
    (k : Codecs) (r : Receivers) (first_au : Option (List ℕ)) (first_ts : ℕ)
    (ps : List (Option Packet))
    → r.h264 ≡ true
    → Completed (start k r first_au first_ts ps)
    → videos (written (start k r first_au first_ts ps))
      ≡ number 0 (replayed k first_au first_ts ++ units k (has_unit first_au) ps)
unfolding start
start-videos k r first_au first_ts ps h full =
    let s = begin k r first_au first_ts in
    let out = begin-out k r first_au first_ts (units k (has_unit first_au) ps) h in
    play-videos k r s ps h full
    ∙ ap (λ g. videos s.written ++ number s.rtp_seq (units k g ps)) out.1
    ∙ out.0
