-- ===== src/Producer.antt =====
-- `avccContainsNALType` and the choices of `probe` of pkg/petlibro/producer.go. What the parsers of
-- pkg/annexb, pkg/h264 and pkg/aac make of a packet is the packet's event; the timer's and the
-- channels' readiness is the order of the events.
pub mod Probe
pub mod Playback
use ha_addon_petlibro_local.Prelude.{
  ℕ, zero, suc, ◌+◌, ◌*◌, Bool, true, false, not, ◌&&◌, ◌||◌, Option, none, some, List, [], ◌∷◌,
  if◌then◌else◌, ltb, leb, ◌==◌, length, drop,
}
use ha_addon_petlibro_local.Wire.Bytes.{at}
use ha_addon_petlibro_local.Assembler.AnnexB.{nal_type}

-- `4 + int(binary.BigEndian.Uint32(avcc))`.
abbrev pub unit_size : List ℕ → ℕ
unit_size b = 4 + (16777216 * at b 0 + 65536 * at b 1 + 256 * at b 2 + at b 3)

-- Each round drops at least five bytes, so the length is fuel enough.
unfoldable pub contains_from : ℕ → List ℕ → ℕ → Bool
contains_from zero avcc want = false
contains_from (suc fuel) avcc want =
    let rest = contains_from fuel (drop (unit_size avcc) avcc) want in
    if ltb (length avcc) 5 || ltb (length avcc) (unit_size avcc) || ltb (unit_size avcc) 5
    then false
    else if nal_type (at avcc 4) == want
    then true
    else rest

unfoldable pub avcc_contains_nal_type : List ℕ → ℕ → Bool
avcc_contains_nal_type avcc want = contains_from (length avcc) avcc want

-- What `probe` has chosen: the unit that will be replayed, and its resolution.
pub record Selection : Type 0 where
  pub first_au : List ℕ
  pub first_ts : ℕ
  pub width : ℕ
  pub height : ℕ

-- `vcodec` is set exactly when there is a selection.
pub record ProbeState : Type 0 where
  pub selected : Option Selection
  pub have_audio : Bool
  pub waiting_for_hd : Bool

-- `audio`, `quality == "hd"` and `hdProbeWait > 0` of the client.
pub record ProbeConfig : Type 0 where
  pub audio : Bool
  pub hd_wait : Bool

-- One round of the loop: the timer, the end of the session, a packet with a usable parameter set, a
-- packet with a usable ADTS header, or a packet that is passed over.
pub data Event : Type 0 where
  timed_out closed passed_over audio_found : Event
  video_found : Selection → Event

-- How a round ends.
pub data Verdict : Type 0 where
  goes_on : ProbeState → Verdict
  finished : ProbeState → Verdict
  probe_timeout probe_eof : Verdict

-- The condition at the end of a round.
unfoldable pub is_complete : ProbeConfig → ProbeState → Bool
is_complete cfg s =
    (elim s.selected [ none ↦ false | some v ↦ true ])
    && not s.waiting_for_hd
    && (s.have_audio || not cfg.audio)

unfoldable pub end_round : ProbeConfig → ProbeState → Verdict
unfolding is_complete
end_round cfg s = if is_complete cfg s then finished s else goes_on s

-- `case CodecH264`, behind its checks.
unfoldable pub select_video : ProbeConfig → ProbeState → Option Selection → Selection → ProbeState
select_video cfg s none v = record s {
  selected = some v;
  waiting_for_hd = cfg.hd_wait && (ltb v.width 1920 || ltb v.height 1080);
}
select_video cfg s (some old) v =
    if s.waiting_for_hd && (ltb old.width v.width || ltb old.height v.height)
    then record s { selected = some v; waiting_for_hd = false }
    else s

-- `case <-timer.C`, for a selection or none.
unfoldable pub time_out : ProbeConfig → ProbeState → Option Selection → Verdict
time_out cfg s none = probe_timeout
time_out cfg s (some v) =
    if not s.waiting_for_hd
    then probe_timeout
    else if s.have_audio || not cfg.audio
    then finished (record s { waiting_for_hd = false })
    else goes_on (record s { waiting_for_hd = false })

unfoldable pub round : ProbeConfig → ProbeState → Event → Verdict
unfolding select_video time_out end_round
round cfg s timed_out = time_out cfg s s.selected
round cfg s closed = probe_eof
round cfg s passed_over = end_round cfg s
round cfg s audio_found = end_round cfg (record s { have_audio = true })
round cfg s (video_found v) = end_round cfg (select_video cfg s s.selected v)

abbrev pub first_state : ProbeState
first_state = record { selected = none; have_audio = false; waiting_for_hd = false }

-- The loop over the events.
unfoldable pub run_probe : ProbeConfig → ProbeState → List Event → Verdict
unfolding round
run_probe cfg s [] = goes_on s
run_probe cfg s (e ∷ es) = elim (round cfg s e) [
  | goes_on s' ↦ run_probe cfg s' es
  | finished s' ↦ finished s'
  | probe_timeout ↦ probe_timeout
  | probe_eof ↦ probe_eof
]
