-- ===== src/Tests/Sessions.antt =====
-- The runtime status, the probe and the subnet scan on small examples.
use Prim.Native.Nat.{bit_and}
use ha_addon_petlibro_local.Prelude.{
  ℕ, Option, none, ◌-◌, ◌^◌, ◌≤◌, ◌≡◌, ◌↔◌, refl, true, false, some, List, [], ◌∷◌, contains,
}
use ha_addon_petlibro_local.Status.{RuntimeStatusWriter, new_runtime_status_writer, observe_sps}
use ha_addon_petlibro_local.Producer.{
  Selection, ProbeState, ProbeConfig, Event, video_found, audio_found, finished, first_state, round,
  run_probe, select_video, end_round, is_complete,
}
use ha_addon_petlibro_local.Producer.Probe.{Fits, Complete, round-Fits, run_probe-Complete}
use ha_addon_petlibro_local.Discovery.{mask_of, subnet_discovery_targets}
use ha_addon_petlibro_local.Discovery.Plan.{build_discovery_plan}
use ha_addon_petlibro_local.Discovery.Plan.Unique.{probes, build_discovery_plan-probes}
use ha_addon_petlibro_local.Discovery.Targets.{IsHost, subnet_discovery_targets-hosts}

abbrev writer : RuntimeStatusWriter
writer = observe_sps (new_runtime_status_writer true 8000 5) 640 360 77 30 10 11

abbrev small : Selection
small = record { first_au = 1 ∷ []; first_ts = 0; width = 640; height = 360 }

abbrev large : Selection
large = record { first_au = 2 ∷ []; first_ts = 900; width = 1920; height = 1080 }

abbrev config : ProbeConfig
config = record { audio = true; hd_wait = true }

round-Fits_example : Fits config first_state (round config first_state (video_found small))
round-Fits_example = round-Fits config first_state (video_found small)

abbrev events : List Event
events = video_found small ∷ audio_found ∷ video_found large ∷ []

abbrev result : ProbeState
result = record { selected = some large; have_audio = true; waiting_for_hd = false }

run_probe-events : run_probe config first_state events ≡ finished result
unfolding run_probe round select_video end_round is_complete
run_probe-events = refl

run_probe-Complete_example : Complete config result
run_probe-Complete_example = run_probe-Complete config events first_state run_probe-events

subnet_discovery_targets-hosts_example :
    (contains (subnet_discovery_targets 3232235781 30 1024) 3232235782 ≡ true) ↔ (
      (2 ^ (32 - 30) ≤ 1024)
      × IsHost (2 ^ (32 - 30) - 2) 1 (bit_and 3232235781 (mask_of 30)) 3232235781 3232235782)
subnet_discovery_targets-hosts_example =
    subnet_discovery_targets-hosts 3232235781 30 1024 3232235782

-- A cached address that the subnet's scan meets again.
abbrev subnets : List (Option (ℕ × ℕ))
subnets = some (3232235776, 30) ∷ none ∷ []

build_discovery_plan-probes_example :
    let p = build_discovery_plan (some 3232235777) subnets (some 3232235778 ∷ none ∷ []) [] in
    (probes p 3232235777 ≤ 1) × (probes p 0 ≡ 0)
build_discovery_plan-probes_example =
    build_discovery_plan-probes (some 3232235777) subnets (some 3232235778 ∷ none ∷ []) []
      3232235777
