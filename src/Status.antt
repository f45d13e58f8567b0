-- ===== src/Status.antt =====
-- The runtime status of pkg/petlibro/runtime_status.go: the state that each mutation leaves behind.
-- A nil writer is `none`; writing the file is left out, and times are nanoseconds.
pub mod Transition
use ha_addon_petlibro_local.Prelude.{
  ℕ, ◌+◌, ◌-◌, ◌/◌, Bool, true, false, not, ◌&&◌, ◌||◌, Option, none, some, if◌then◌else◌, ltb, leb,
}
use ha_addon_petlibro_local.Stats.{CountersSnapshot}

pub record RuntimeResolution : Type 0 where
  pub width : ℕ
  pub height : ℕ
  pub profile_idc : ℕ
  pub level_idc : ℕ
  pub observed_at : ℕ

-- `elapsed` is `none` for the nil pointer.
pub record RuntimeHdTransition : Type 0 where
  pub observed : Bool
  pub elapsed : Option ℕ

pub record RuntimeHealth : Type 0 where
  pub gapped_idrs : ℕ
  pub dropped_frames : ℕ
  pub missing_fragments : ℕ
  pub ack_pending : ℕ
  pub extended_media_rejected : ℕ

-- The strings that the client stores in `Status`.
pub data RunStatus : Type 0 where
  starting probing online offline error : RunStatus

-- The writer; `hd_requested` tells whether `RequestedQuality` is "hd". `first_sps_at` is read only
-- after the first parameter set, and `last_update` is `none` for the zero time.
pub record RuntimeStatusWriter : Type 0 where
  pub status : RunStatus
  pub hd_requested : Bool
  pub hd_probe_wait_ms : ℕ
  pub probe_resolution : Option RuntimeResolution
  pub actual_resolution : Option RuntimeResolution
  pub hd_transition : RuntimeHdTransition
  pub first_sps_at : ℕ
  pub last_update : Option ℕ
  pub health : RuntimeHealth

-- A time stamp after the last one; the file's write is left out.
unfoldable pub stamp_after : Option ℕ → ℕ → ℕ
stamp_after none now = now
stamp_after (some last) now = if ltb last now then now else last + 1

unfoldable pub write_locked : RuntimeStatusWriter → ℕ → RuntimeStatusWriter
unfolding stamp_after
write_locked w now = record w { last_update = some (stamp_after w.last_update now) }

-- `newRuntimeStatusWriterWithClock`, for a path that is not empty.
unfoldable pub new_runtime_status_writer : Bool → ℕ → ℕ → RuntimeStatusWriter
unfolding write_locked
new_runtime_status_writer hd_requested hd_probe_wait_ms now =
    write_locked
      (record {
        status = starting;
        hd_requested = hd_requested;
        hd_probe_wait_ms = hd_probe_wait_ms;
        probe_resolution = none;
        actual_resolution = none;
        hd_transition = record { observed = false; elapsed = none };
        first_sps_at = 0;
        last_update = none;
        health = record {
          gapped_idrs = 0;
          dropped_frames = 0;
          missing_fragments = 0;
          ack_pending = 0;
          extended_media_rejected = 0;
        };
      })
      now

unfoldable pub set_status : RuntimeStatusWriter → RunStatus → ℕ → RuntimeStatusWriter
unfolding write_locked
set_status w status now = write_locked (record w { status = status }) now

unfoldable pub offline_unless_error : RunStatus → RunStatus
offline_unless_error error = error
offline_unless_error starting = offline
offline_unless_error probing = offline
offline_unless_error online = offline
offline_unless_error offline = offline

unfoldable pub mark_offline : RuntimeStatusWriter → ℕ → RuntimeStatusWriter
unfolding write_locked offline_unless_error
mark_offline w now = write_locked (record w { status = offline_unless_error w.status }) now

-- `if w.state.ProbeResolution == nil { … }`
unfoldable pub note_probe :
    RuntimeStatusWriter → Option RuntimeResolution → RuntimeResolution → ℕ → RuntimeStatusWriter
note_probe w none resolution now = record w {
  probe_resolution = some resolution;
  first_sps_at = now;
}
note_probe w (some probe) resolution now = w

-- Whether the picture has grown beyond the first one that was observed.
unfoldable pub has_grown : Option RuntimeResolution → RuntimeResolution → Bool
has_grown none r = false
has_grown (some probe) r = ltb probe.width r.width || ltb probe.height r.height

-- The condition of the transition to high definition, and what it stores.
unfoldable pub note_transition : RuntimeStatusWriter → RuntimeResolution → ℕ → RuntimeStatusWriter
unfolding has_grown
note_transition w r now =
    if w.hd_requested && leb 1920 r.width && leb 1080 r.height && has_grown w.probe_resolution r
    then record w {
      hd_transition = record { observed = true; elapsed = some ((now - w.first_sps_at) / 1000000) };
    }
    else w

-- `now` and `later` are the clock readings of `observeSPS` and of its `writeLocked`.
unfoldable pub observe_sps : RuntimeStatusWriter → ℕ → ℕ → ℕ → ℕ → ℕ → ℕ → RuntimeStatusWriter
unfolding write_locked note_probe note_transition
observe_sps w width height profile_idc level_idc now later =
    let r : RuntimeResolution = record {
      width = width;
      height = height;
      profile_idc = profile_idc;
      level_idc = level_idc;
      observed_at = now;
    } in
    let w' = record (note_probe w w.probe_resolution r now) { actual_resolution = some r } in
    write_locked (note_transition w' r now) later

unfoldable pub update_health : RuntimeStatusWriter → CountersSnapshot → ℕ → RuntimeStatusWriter
unfolding write_locked
update_health w s now =
    write_locked
      (record w {
        health = record {
          gapped_idrs = s.idr_frames_with_loss;
          dropped_frames = s.vid_dropped;
          missing_fragments = s.missing_fragments_total;
          ack_pending = s.ack_seen_pending;
          extended_media_rejected = s.extended_media_rejected;
        };
      })
      now
