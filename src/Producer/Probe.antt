-- ===== src/Producer/Probe.antt =====
-- A probe that succeeds has what it was asked for, and keeps the best picture that it waited for.
use ha_addon_petlibro_local.Prelude.{
  ◌<◌, ◌≡◌, refl, ap, ◌⊎◌, inl, inr, true, false, not, ◌&&◌, ◌||◌, Bool-cases, Option, none, some,
  List, [], ◌∷◌, ltb, arith,
}
use ha_addon_petlibro_local.Producer.{
  Selection, ProbeState, ProbeConfig, Event, timed_out, closed, passed_over, audio_found,
  video_found, Verdict, goes_on, finished, probe_timeout, probe_eof, is_complete, end_round,
  select_video, time_out, round, run_probe,
}

-- What a finished probe holds: a selection, no more wait, and audio if it was asked for.
pub record Complete (cfg : ProbeConfig) (s : ProbeState) : Type 0 where
  pub video : (v : Selection) × (s.selected ≡ some v)
  pub settled : s.waiting_for_hd ≡ false
  pub audio : cfg.audio ≡ true → s.have_audio ≡ true

-- A selection is replaced only by a wider or a higher one.
abbrev pub Grows : Option Selection → Option Selection → Type 0
Grows none t = Unit {0}
Grows (some v) t =
    (w : Selection) × (t ≡ some w) × ((v ≡ w) ⊎ ((v.width < w.width) ⊎ (v.height < w.height)))

-- Of one round's verdict.
abbrev pub Fits : ProbeConfig → ProbeState → Verdict → Type 0
Fits cfg s (goes_on t) = Grows s.selected t.selected
Fits cfg s (finished t) = Grows s.selected t.selected × Complete cfg t
Fits cfg s probe_timeout = s.waiting_for_hd ≡ false ⊎ (s.selected ≡ none)
Fits cfg s probe_eof = Unit {0}

same : (o : Option Selection) → Grows o o
same none = tt
same (some v) = (v, refl, inl refl)

is_complete-Complete :
    (cfg : ProbeConfig) (s : ProbeState) → is_complete cfg s ≡ true → Complete cfg s
unfolding is_complete
is_complete-Complete cfg s h = record {
  video = video s.selected refl;
  settled = ground arith;
  audio = λ a. ground arith;
}
  where
    video : (o : Option Selection) → s.selected ≡ o → (v : Selection) × (s.selected ≡ some v)
    video none e = absurd (ground (arith, e))
    video (some v) e = (v, e)

end_round-Fits :
    (cfg : ProbeConfig) (s t : ProbeState)
    → Grows s.selected t.selected
    → Fits cfg s (end_round cfg t)
unfolding end_round
end_round-Fits cfg s t g = elim (Bool-cases (is_complete cfg t)) [
  | inl complete ↦ rw complete (g, is_complete-Complete cfg t complete)
  | inr partial ↦ rw partial g
]

select_video-Grows :
    (cfg : ProbeConfig) (s : ProbeState) (o : Option Selection) (v : Selection)
    → s.selected ≡ o
    → Grows o (select_video cfg s o v).selected
unfolding select_video
select_video-Grows cfg s none v e = tt
select_video-Grows cfg s (some old) v e =
    elim (Bool-cases (s.waiting_for_hd && (ltb old.width v.width || ltb old.height v.height))) [
      | inl better ↦ rw better (v, refl, inr (ground arith))
      | inr kept ↦ rw kept (old, e, inl refl)
    ]

time_out-Fits :
    (cfg : ProbeConfig) (s : ProbeState) (o : Option Selection)
    → s.selected ≡ o
    → Fits cfg s (time_out cfg s o)
unfolding time_out
time_out-Fits cfg s none e = inr e
time_out-Fits cfg s (some v) e =
    let done = record s { waiting_for_hd = false } in
    let kept : Grows s.selected s.selected = same s.selected in
    elim (Bool-cases s.waiting_for_hd) [
      | inr settled ↦
          let over : time_out cfg s (some v) ≡ probe_timeout = ground (arith, settled) in
          rw over (inl settled)
      | inl waiting ↦ elim (Bool-cases (s.have_audio || not cfg.audio)) [
        | inl heard ↦
            let over : time_out cfg s (some v) ≡ finished done = ground (arith, waiting, heard) in
            let complete : Complete cfg done = record {
              video = (v, e);
              settled = refl;
              audio = λ a. ground (arith, heard, a);
            } in
            rw over (kept, complete)
        | inr silent ↦
            let over : time_out cfg s (some v) ≡ goes_on done = ground (arith, waiting, silent) in
            rw over kept
      ]
    ]

-- One round never gives up a selection except for a wider or a higher one, finishes only with all
-- that was asked for, and times out only when no selection is waiting for a better one.
pub round-Fits : (cfg : ProbeConfig) (s : ProbeState) (e : Event) → Fits cfg s (round cfg s e)
unfolding round
round-Fits cfg s timed_out = time_out-Fits cfg s s.selected refl
round-Fits cfg s closed = tt
round-Fits cfg s passed_over = end_round-Fits cfg s s (same s.selected)
round-Fits cfg s audio_found =
    end_round-Fits cfg s (record s { have_audio = true }) (same s.selected)
round-Fits cfg s (video_found v) =
    end_round-Fits cfg s (select_video cfg s s.selected v)
      (select_video-Grows cfg s s.selected v refl)

Goes : Verdict → Type 0
Goes v = (s : ProbeState) × (v ≡ goes_on s)

Ends : Verdict → Type 0
Ends v = (s : ProbeState) × (v ≡ finished s)

Verdict-cases : (v : Verdict) → (Goes v ⊎ Ends v) ⊎ ((v ≡ probe_timeout) ⊎ (v ≡ probe_eof))
unfolding Goes Ends
Verdict-cases (goes_on s) = inl (inl (s, refl))
Verdict-cases (finished s) = inl (inr (s, refl))
Verdict-cases probe_timeout = inr (inl refl)
Verdict-cases probe_eof = inr (inr refl)

state_of : Verdict → ProbeState → ProbeState
state_of (goes_on s) d = s
state_of (finished s) d = s
state_of probe_timeout d = d
state_of probe_eof d = d

-- Whatever happens during a probe, if it finishes it has a video selection, has stopped waiting, and
-- has audio if that was asked for.
pub run_probe-Complete :
    (cfg : ProbeConfig) (es : List Event) (s : ProbeState) {t : ProbeState}
    → run_probe cfg s es ≡ finished t
    → Complete cfg t
unfolding run_probe Goes Ends state_of
run_probe-Complete cfg [] s h = absurd (ground arith)
run_probe-Complete cfg (e ∷ es) s {t = t} h = elim (Verdict-cases (round cfg s e)) [
  | inl (inl (s', eq)) ↦ run_probe-Complete cfg es s' (rw (run_probe, eq) at h)
  | inl (inr (s', eq)) ↦
      let last : finished s' ≡ finished t = rw (run_probe, eq) at h in
      let same_state : s' ≡ t = ap (λ v. state_of v s) last in
      let fits : Fits cfg s (finished s') = rw eq at (round-Fits cfg s e) in rw same_state at fits.1
  | inr (inl eq) ↦
      absurd (let k : probe_timeout ≡ finished t = rw (run_probe, eq) at h in ground arith)
  | inr (inr eq) ↦ absurd (let k : probe_eof ≡ finished t = rw (run_probe, eq) at h in ground arith)
]
