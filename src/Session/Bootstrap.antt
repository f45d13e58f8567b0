-- ===== src/Session/Bootstrap.antt =====
-- `bootstrap` of pkg/petlibro/bootstrap.go: the commands after the login, an acknowledgement after
-- each, and the state from which the session's loops go on. What the network and the clock do is an
-- environment; the decryption of pkg/tutk is a parameter, and debug lines are left out.
pub mod Sends
pub mod Start
use ha_addon_petlibro_local.Prelude.{
  ℕ, ◌+◌, ◌-◌, ◌%◌, Bool, not, ◌||◌, Option, none, some, List, [], ◌∷◌, if◌then◌else◌, ltb, ◌==◌,
  length, drop, to_u16, u32_mod, add64,
}
use ha_addon_petlibro_local.Wire.Bytes.{at, u16_at}
use ha_addon_petlibro_local.Wire.Frames.{
  msg_session_d2c, inner_timing_feedback, inner_timing_probe, inner_data, marshal,
}
use ha_addon_petlibro_local.Ack.Receive.{Ack}
use ha_addon_petlibro_local.Ack.Reliable.{accept_reliable_control}
use ha_addon_petlibro_local.Ack.Window.{TransportAck, next_transport_ack_for_range}
use ha_addon_petlibro_local.Media.Extended.{DecodedMedia}
use ha_addon_petlibro_local.Media.Normal.{decode_bootstrap_media}
use ha_addon_petlibro_local.Media.Control.{reliable_control_sequence}
use ha_addon_petlibro_local.Assembler.Buffer.{Client}
use ha_addon_petlibro_local.Assembler.Datagram.{stats_of, store_stats, start_tracking}
use ha_addon_petlibro_local.Session.Send.{
  StartError, not_sent, no_av_channel, Attempt, done, failed, ◌>>=◌, Outbox, send_inner,
  next_counter,
}
use ha_addon_petlibro_local.Session.Commands.{Options, BootstrapCmd, stream_body, bootstrap_ioctrls}

-- The n-th datagram of the session is sent when the clock shows `clock n` milliseconds, and `sent n`
-- tells whether that works; after the command with index `i`, `window i` is read until the
-- deadline.
pub record Env : Type 0 where
  pub clock : ℕ → ℕ
  pub sent : ℕ → Bool
  pub window : ℕ → List (List ℕ)

pub record Startup : Type 0 where
  pub client : Client
  pub outbox : Outbox

-- `tick32` at the clock reading `now`, and `tick16`.
unfoldable pub tick32 : ℕ → ℕ → ℕ
tick32 base now = (now - base + 0xc000) % u32_mod

abbrev pub tick16 : ℕ → ℕ
tick16 now = to_u16 now

abbrev pub sent_count : Startup → ℕ
sent_count s = length s.outbox.wire

-- `if err := c.sendInner(body); err != nil { return err }`
unfoldable pub send_body : Env → Startup → List ℕ → Attempt Startup
send_body env s body =
    if env.sent (sent_count s)
    then done (record s { outbox = send_inner s.outbox body })
    else failed not_sent

abbrev pub count_inner : Startup → Startup
count_inner s = record s { outbox = next_counter s.outbox }

unfoldable pub accept_reliable : Client → ℕ → Client
accept_reliable c seq =
    let (ack, st) = accept_reliable_control c.ack (stats_of c) seq in
    record (store_stats c st) { ack = ack }

-- `nextTransportACKForRange` without holes, its sending, and `c.icounter++`.
unfoldable pub send_report : Env → Startup → ℕ → ℕ → Attempt Startup
unfolding send_body
send_report env s base high =
    let tick = tick16 (env.clock (sent_count s)) in
    let (t, ack) = next_transport_ack_for_range s.client.ack s.outbox.icounter base high [] tick in
    do
      s' ← send_body env (record s { client = record s.client { ack = ack } }) (marshal t)
      done (count_inner s')

-- What one inner message of the window means: `(client, bootstrapAVMax)`.
unfoldable pub higher : ℕ → Option DecodedMedia → ℕ
higher av_max none = av_max
higher av_max (some m) = if ltb av_max m.sub_wire then m.sub_wire else av_max

unfoldable pub accept_if : Client → Option ℕ → Client
accept_if c none = c
accept_if c (some seq) = accept_reliable c seq

unfoldable pub take_response : Client → ℕ → List ℕ → Client × ℕ
unfolding accept_if higher
take_response c av_max pkt =
    let inner = drop 0x1c pkt in
    if ltb (length pkt) 0x30 || not (u16_at pkt 8 == msg_session_d2c) || not (at inner 0 == 0x0c)
    then (c, av_max)
    else (
      accept_if c (reliable_control_sequence inner),
      higher av_max (decode_bootstrap_media inner),
    )

abbrev pub no_ack_range : ℕ
no_ack_range = 0xffff

abbrev pub av_floor : ℕ
av_floor = 0x3fff

module _ (reverse_trans_code : List ℕ → List ℕ) where
  unfoldable pub read_window : Client → ℕ → List (List ℕ) → Client × ℕ
  unfolding take_response
  read_window c av_max [] = (c, av_max)
  read_window c av_max (raw ∷ more) =
      let (c', av_max') = take_response c av_max (reverse_trans_code raw) in
      read_window c' av_max' more

  -- One round of the loop over the commands, with the highest position so far.
  unfoldable pub run_command : Env → Startup → ℕ → ℕ → BootstrapCmd → Attempt (Startup × ℕ)
  unfolding send_body send_report
  run_command env s av_max i cm = do
    s₁ ← send_body env s (inner_data s.outbox.icounter cm.channel_family (to_u16 i) cm.payload)
    let r = read_window s₁.client av_max (env.window i)
    s₂ ← send_report env (record (count_inner s₁) { client = r.0 }) no_ack_range no_ack_range
    done (s₂, r.1)

  unfoldable pub run_commands : Env → Startup → ℕ → ℕ → List BootstrapCmd → Attempt (Startup × ℕ)
  unfolding run_command
  run_commands env s av_max i [] = done (s, av_max)
  run_commands env s av_max i (cm ∷ cmds) =
      run_command env s av_max i cm >>= λ (s', av_max'). run_commands env s' av_max' (i + 1) cmds

-- Feedback, a report without a range, and a timing probe.
unfoldable pub timing_exchange : Env → ℕ → Startup → Attempt Startup
unfolding send_body send_report accept_reliable tick32
timing_exchange env base s = do
  s₁ ← send_body env s (inner_timing_feedback 0 0x1f (tick32 base (env.clock (sent_count s))) 4)
  s₂ ←
      send_report env (record s₁ { client = accept_reliable s₁.client 1 }) no_ack_range no_ack_range
  s₃ ←
      send_body env s₂
        (inner_timing_probe s₂.outbox.icounter (tick32 base (env.clock (sent_count s₂))))
  done (count_inner s₃)

-- Where the assembler and the receive tracking begin.
unfoldable pub start_streaming : Startup → ℕ → Startup
start_streaming s av_max =
    let ext = if av_max == av_floor then 0x4000 else av_max + 1 in
    let c = record s.client {
      wrap = record { ext = ext };
      av_next_ext = ext;
      av_high_ext = ext - 1;
      av_buffer = [];
    } in
    record s { client = start_tracking c av_max }

-- The AV-ready report, behind the check of the highest position.
unfoldable pub finish : Env → Startup → ℕ → Attempt Startup
unfolding send_report start_streaming
finish env s av_max =
    if ltb av_max av_floor
    then failed no_av_channel
    else do s' ← send_report env s av_floor av_max; done (start_streaming s' av_max)

module _ (reverse_trans_code : List ℕ → List ℕ) where
  unfoldable pub bootstrap : Env → Options → Startup → Attempt Startup
  unfolding timing_exchange run_commands finish
  bootstrap env o s = do
    s₁ ← timing_exchange env (env.clock (sent_count s)) s
    r ←
        run_commands reverse_trans_code env s₁ av_floor 0
          (bootstrap_ioctrls o (stream_body o o.stream_ctrl_variant))
    finish env r.0 r.1
