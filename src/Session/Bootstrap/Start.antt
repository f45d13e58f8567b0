-- ===== src/Session/Bootstrap/Start.antt =====
-- `bootstrap` fails only where a datagram is not written, numbers what it sends, and leaves a client
-- from which the session's loops can go on.
use ha_addon_petlibro_local.Prelude.{ℕ, ◌+◌, ◌-◌, ◌≡◌, List, []}
use ha_addon_petlibro_local.Assembler.Buffer.{Client}
use ha_addon_petlibro_local.Assembler.Datagram.{start_tracking}
use ha_addon_petlibro_local.Session.Send.Numbered.{Sends}
use ha_addon_petlibro_local.Session.Commands.{Options, BootstrapCmd, bootstrap_ioctrls, stream_body}
use ha_addon_petlibro_local.Session.Bootstrap.{Startup}
use ha_addon_petlibro_local.Session.Bootstrap.Sends.{InWire}
use ha_addon_petlibro_local.Session.Loop.Ordered.{Live}

-- Streaming begins after the position `av_max`: it counts as received, the one after it is emitted
-- next, and the loops find the state that they need.
pub record Begins (c : Client) (av_max : ℕ) : Type 0 where
  pub in_wire : InWire av_max
  pub next : c.av_next_ext ≡ av_max + 1
  pub watermark : c.ack.watermark ≡ av_max
  pub live : Live c

abbrev started_at : Startup → ℕ → ℕ → Client
started_at s av_max ext =
    start_tracking
      (record s.client {
        wrap = record { ext = ext };
        av_next_ext = ext;
        av_high_ext = ext - 1;
        av_buffer = [];
      })
      av_max

-- A session that has begun: `n` datagrams were sent, and streaming begins.
pub record Started (s : Startup) (n : ℕ) (t : Startup) : Type 0 where
  pub sends : Sends s.outbox t.outbox n
  pub begins : (av_max : ℕ) × Begins t.client av_max

-- The commands of a session.
abbrev pub commands : Options → List BootstrapCmd
commands o = bootstrap_ioctrls o (stream_body o o.stream_ctrl_variant)
