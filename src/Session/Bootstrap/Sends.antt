-- ===== src/Session/Bootstrap/Sends.antt =====
-- The parts of `bootstrap`: what they send, and the highest position that they see.
use ha_addon_petlibro_local.Prelude.{
  ℕ, suc, ◌+◌, ◌*◌, ◌≤◌, ◌<◌, ◌≡◌, ap, inl, inr, true, Bool-cases, ◌&&◌, ◌||◌, not, none, some,
  Option-cases, List, [], ◌∷◌, ltb, ◌==◌, length, drop, to_u16, arith,
}
use ha_addon_petlibro_local.Wire.Bytes.{AllBytes, AllBytes-drop, at, at-lt, u16_at}
use ha_addon_petlibro_local.Wire.Frames.{
  msg_session_d2c, inner_data, inner_timing_feedback, inner_timing_probe, marshal,
}
use ha_addon_petlibro_local.Ack.Window.{next_transport_ack_for_range}
use ha_addon_petlibro_local.Media.Extended.{
  DecodedMedia, decode_extended_media, is_extended_media_family,
}
use ha_addon_petlibro_local.Media.Extended.Accepts.{decode_extended_media-Accepted}
use ha_addon_petlibro_local.Media.Normal.{decode_bootstrap_media, decode_normal_media}
use ha_addon_petlibro_local.Media.Normal.Accepts.{decode_normal_media-Accepted}
use ha_addon_petlibro_local.Assembler.Buffer.{Client}
use ha_addon_petlibro_local.Session.Send.{
  Attempt, done, failed, not_sent, login_timeout, no_av_channel, ◌>>=◌,
}
use ha_addon_petlibro_local.Session.Send.Numbered.{
  Sends, Sends-none, send_inner-Sends, next_counter-Sends, Sends-trans, Post, Post-bind,
}
use ha_addon_petlibro_local.Session.Commands.{BootstrapCmd}
use ha_addon_petlibro_local.Session.Bootstrap.{
  Env, Startup, sent_count, send_body, send_report, take_response, higher, read_window, run_command,
  run_commands, timing_exchange, av_floor, no_ack_range, tick16, tick32, count_inner,
  accept_reliable,
}

-- `n` datagrams more.
abbrev pub Sent : Startup → ℕ → Startup → Type 0
Sent s n s' = Sends s.outbox s'.outbox n

send_body-Post :
    (env : Env) (s : Startup) (body : List ℕ) → Post env.sent (Sent s 1) (send_body env s body)
unfolding send_body
send_body-Post env s body = elim (Bool-cases (env.sent (sent_count s))) [
  | inl works ↦ rw works (send_inner-Sends s.outbox body)
  | inr fails ↦ rw fails (sent_count s, fails)
]

pub send_report-Post :
    (env : Env) (s : Startup) (base high : ℕ)
    → Post env.sent (Sent s 1) (send_report env s base high)
unfolding send_report
send_report-Post env s base high =
    let r =
      next_transport_ack_for_range s.client.ack s.outbox.icounter base high []
        (tick16 (env.clock (sent_count s))) in
    let s' = record s { client = record s.client { ack = r.1 } } in
    Post-bind env.sent (Sent s 1) (Sent s 1) (send_body env s' (marshal r.0))
      (λ t. done (count_inner t)) (send_body-Post env s' (marshal r.0))
      (λ t h. next_counter-Sends {o = s.outbox} {o' = t.outbox} {n = 1} h)

-- One more part of the sequence.
then_sends :
    (env : Env) (s t : Startup) (m n : ℕ) (k : Attempt Startup)
    → Sent s m t
    → Post env.sent (Sent t n) k
    → Post env.sent (Sent s (m + n)) k
then_sends env s t m n (done u) h p = Sends-trans m n h p
then_sends env s t m n (failed not_sent) h p = p
then_sends env s t m n (failed login_timeout) h p = absurd p
then_sends env s t m n (failed no_av_channel) h p = absurd p

probe : Env → ℕ → Startup → Attempt Startup
probe env base s =
    send_body env s (inner_timing_probe s.outbox.icounter (tick32 base (env.clock (sent_count s))))
    >>= λ t. done (count_inner t)

probe-Post : (env : Env) (base : ℕ) (s : Startup) → Post env.sent (Sent s 1) (probe env base s)
unfolding probe
probe-Post env base s =
    let body = inner_timing_probe s.outbox.icounter (tick32 base (env.clock (sent_count s))) in
    Post-bind env.sent (Sent s 1) (Sent s 1) (send_body env s body) (λ t. done (count_inner t))
      (send_body-Post env s body)
      (λ t h. next_counter-Sends {o = s.outbox} {o' = t.outbox} {n = 1} h)

report_and_probe : Env → ℕ → Startup → Attempt Startup
report_and_probe env base s =
    send_report env (record s { client = accept_reliable s.client 1 }) no_ack_range no_ack_range
    >>= probe env base

report_and_probe-Post :
    (env : Env) (base : ℕ) (s : Startup) → Post env.sent (Sent s 2) (report_and_probe env base s)
unfolding report_and_probe
report_and_probe-Post env base s =
    let s' = record s { client = accept_reliable s.client 1 } in
    Post-bind env.sent (Sent s 1) (Sent s 2) (send_report env s' no_ack_range no_ack_range)
      (probe env base) (send_report-Post env s' no_ack_range no_ack_range)
      (λ t h. then_sends env s t 1 1 (probe env base t) h (probe-Post env base t))

pub timing_exchange-Post :
    (env : Env) (base : ℕ) (s : Startup) → Post env.sent (Sent s 3) (timing_exchange env base s)
unfolding timing_exchange report_and_probe probe
timing_exchange-Post env base s =
    let body = inner_timing_feedback 0 0x1f (tick32 base (env.clock (sent_count s))) 4 in
    Post-bind env.sent (Sent s 1) (Sent s 3) (send_body env s body) (report_and_probe env base)
      (send_body-Post env s body)
      (λ t h.
        then_sends env s t 1 2 (report_and_probe env base t) h (report_and_probe-Post env base t))

-- The highest position is one of the 16-bit wire values from the floor on.
abbrev pub InWire : ℕ → Type 0
InWire av_max = (av_floor ≤ av_max) × (av_max < 65536)

u16-lt : (b : List ℕ) (i : ℕ) → AllBytes b → u16_at b i < 65536
u16-lt b i h = omega (arith, at-lt b i h, at-lt b (i + 1) h)

decoded-lt :
    (inner : List ℕ) (m : DecodedMedia)
    → AllBytes inner
    → decode_bootstrap_media inner ≡ some m
    → m.sub_wire < 65536
unfolding decode_bootstrap_media
decoded-lt inner m bytes h = elim (Bool-cases (length inner == 0 || not (at inner 0 == 0x0c))) [
  | inl foreign ↦ absurd (let k : none ≡ some m = rw foreign at h in cc)
  | inr own ↦
      elim (Bool-cases
        (is_extended_media_family (at inner 1) && (decode_extended_media inner).ok)) [
          | inl extended ↦
              let k : some (decode_extended_media inner).media ≡ some m = rw (own, extended) at h in
              let ok : (decode_extended_media inner).ok ≡ true = ground arith in
              let value = (decode_extended_media-Accepted inner ok).value in
              let wire : m.sub_wire ≡ u16_at inner 26 =
                cc (ap (λ (x : DecodedMedia). x.sub_wire) value) in
              omega (arith, wire, u16-lt inner 26 bytes)
          | inr normal ↦
              let k : decode_normal_media inner ≡ some m = rw (own, normal) at h in
              let a = decode_normal_media-Accepted inner k in
              omega (arith, a.sub_wire, u16-lt inner 18 bytes)
        ]
]

higher-InWire :
    (inner : List ℕ) (av_max : ℕ)
    → AllBytes inner
    → InWire av_max
    → InWire (higher av_max (decode_bootstrap_media inner))
unfolding higher
higher-InWire inner av_max bytes h = elim (Option-cases (decode_bootstrap_media inner)) [
  | inl nothing ↦ rw (higher, nothing) h
  | inr (m, found) ↦
      let wire = decoded-lt inner m bytes found in
      rw (higher, found) (ground (arith, wire, h.0, h.1))
]

take_response-InWire :
    (c : Client) (av_max : ℕ) (pkt : List ℕ)
    → AllBytes pkt
    → InWire av_max
    → InWire (take_response c av_max pkt).1
unfolding take_response
take_response-InWire c av_max pkt bytes h =
    elim (Bool-cases (
      ltb (length pkt) 0x30
      || not (u16_at pkt 8 == msg_session_d2c)
      || not (at (drop 0x1c pkt) 0 == 0x0c))) [
        | inl foreign ↦ rw foreign h
        | inr own ↦ rw own (higher-InWire (drop 0x1c pkt) av_max (AllBytes-drop 0x1c pkt bytes) h)
      ]

-- The first part of a command's round, with what follows it.
abbrev pub Reached : Startup → ℕ → Startup × ℕ → Type 0
Reached s n r = Sent s n r.0 × InWire r.1

finish_round : Env → ℕ → Startup → Attempt (Startup × ℕ)
finish_round env av_max s = send_report env s no_ack_range no_ack_range >>= λ t. done (t, av_max)

finish_round-Post :
    (env : Env) (av_max : ℕ) (s : Startup)
    → InWire av_max
    → Post env.sent (Reached s 1) (finish_round env av_max s)
unfolding finish_round
finish_round-Post env av_max s h =
    Post-bind env.sent (Sent s 1) (Reached s 1) (send_report env s no_ack_range no_ack_range)
      (λ t. done (t, av_max)) (send_report-Post env s no_ack_range no_ack_range) (λ t k. (k, h))

then_reaches :
    (env : Env) (s t : Startup) (m n : ℕ) (k : Attempt (Startup × ℕ))
    → Sent s m t
    → Post env.sent (Reached t n) k
    → Post env.sent (Reached s (m + n)) k
then_reaches env s t m n (done r) h p = (Sends-trans m n h p.0, p.1)
then_reaches env s t m n (failed not_sent) h p = p
then_reaches env s t m n (failed login_timeout) h p = absurd p
then_reaches env s t m n (failed no_av_channel) h p = absurd p

module _ (reverse_trans_code : List ℕ → List ℕ)
    (bytes : (raw : List ℕ) → AllBytes (reverse_trans_code raw)) where
  read_window-InWire :
      (c : Client) (av_max : ℕ) (raws : List (List ℕ))
      → InWire av_max
      → InWire (read_window reverse_trans_code c av_max raws).1
  unfolding read_window
  read_window-InWire c av_max [] h = h
  read_window-InWire c av_max (raw ∷ more) h =
      let r = take_response c av_max (reverse_trans_code raw) in
      read_window-InWire r.0 r.1 more
        (take_response-InWire c av_max (reverse_trans_code raw) (bytes raw) h)

  run_command-Post :
      (env : Env) (s : Startup) (av_max i : ℕ) (cm : BootstrapCmd)
      → InWire av_max
      → Post env.sent (Reached s 2) (run_command reverse_trans_code env s av_max i cm)
  unfolding run_command finish_round
  run_command-Post env s av_max i cm h =
      let body = inner_data s.outbox.icounter cm.channel_family (to_u16 i) cm.payload in
      let window = λ (t : Startup). read_window reverse_trans_code t.client av_max (env.window i) in
      let next = λ (t : Startup). record (count_inner t) { client = (window t).0 } in
      Post-bind env.sent (Sent s 1) (Reached s 2) (send_body env s body)
        (λ t. finish_round env (window t).1 (next t)) (send_body-Post env s body)
        λ t k.
          then_reaches env s (next t) 1 1 (finish_round env (window t).1 (next t))
            (next_counter-Sends {o = s.outbox} {o' = t.outbox} {n = 1} k)
            (finish_round-Post env (window t).1 (next t)
              (read_window-InWire t.client av_max (env.window i) h))

  pub run_commands-Post :
      (env : Env) (s : Startup) (av_max i : ℕ) (cmds : List BootstrapCmd)
      → InWire av_max
      → Post env.sent
          (Reached s (2 * length cmds))
          (run_commands reverse_trans_code env s av_max i cmds)
  unfolding run_commands
  run_commands-Post env s av_max i [] h = (Sends-none s.outbox, h)
  run_commands-Post env s av_max i (cm ∷ cmds) h =
      let more = λ (r : Startup × ℕ). run_commands reverse_trans_code env r.0 r.1 (i + 1) cmds in
      let total : 2 + 2 * length cmds ≡ 2 * suc (length cmds) = omega arith in
      rw (← total) (
        Post-bind env.sent (Reached s 2) (Reached s (2 + 2 * length cmds))
          (run_command reverse_trans_code env s av_max i cm) more
          (run_command-Post env s av_max i cm h)
          λ r k.
            then_reaches env s r.0 2 (2 * length cmds) (more r) k.0
              (run_commands-Post env r.0 r.1 (i + 1) cmds k.1))
