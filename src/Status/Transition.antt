-- ===== src/Status/Transition.antt =====
-- What the mutations of the runtime status keep.
use ha_addon_petlibro_local.Prelude.{ℕ, ◌<◌, ◌≡◌, Bool, true, Option, some}
use ha_addon_petlibro_local.Stats.{CountersSnapshot}
use ha_addon_petlibro_local.Status.{
  RuntimeResolution, RuntimeHdTransition, RunStatus, RuntimeStatusWriter, set_status, mark_offline,
  observe_sps, update_health,
}

-- The mutations, with their clock readings.
pub data Step : RuntimeStatusWriter → RuntimeStatusWriter → Type 0 where
  sets : {w : RuntimeStatusWriter} (status : RunStatus) (now : ℕ) → Step w (set_status w status now)
  goes_offline : {w : RuntimeStatusWriter} (now : ℕ) → Step w (mark_offline w now)
  observes :
      {w : RuntimeStatusWriter} (width height profile_idc level_idc now later : ℕ)
      → Step w (observe_sps w width height profile_idc level_idc now later)
  updates :
      {w : RuntimeStatusWriter} (s : CountersSnapshot) (now : ℕ) → Step w (update_health w s now)

-- A transition is reported only when high definition was asked for and a first resolution is known,
-- and always with its duration.
abbrev pub Reported : Bool → Option RuntimeResolution → RuntimeHdTransition → Type 0
Reported hd probe t =
    (t.observed ≡ true)
    → (hd ≡ true)
      × ((r : RuntimeResolution) × (probe ≡ some r))
      × ((ms : ℕ) × (t.elapsed ≡ some ms))

-- One mutation, from `w` to `w'`.
pub record Kept (w w' : RuntimeStatusWriter) : Type 0 where
  pub request : w'.hd_requested ≡ w.hd_requested
  pub first : {r : RuntimeResolution} → w.probe_resolution ≡ some r → w'.probe_resolution ≡ some r
  pub final : w.hd_transition.observed ≡ true → w'.hd_transition.observed ≡ true
  pub reported :
      Reported w.hd_requested w.probe_resolution w.hd_transition
      → Reported w'.hd_requested w'.probe_resolution w'.hd_transition
  pub later : {t : ℕ} → w.last_update ≡ some t → (u : ℕ) × (w'.last_update ≡ some u) × (t < u)

-- The general case, for a change `w'` of `w` that is then written.
record Changed (w w' : RuntimeStatusWriter) : Type 0 where
  request : w'.hd_requested ≡ w.hd_requested
  first : {r : RuntimeResolution} → w.probe_resolution ≡ some r → w'.probe_resolution ≡ some r
  final : w.hd_transition.observed ≡ true → w'.hd_transition.observed ≡ true
  reported :
      Reported w.hd_requested w.probe_resolution w.hd_transition
      → Reported w'.hd_requested w'.probe_resolution w'.hd_transition
  last : w'.last_update ≡ w.last_update
