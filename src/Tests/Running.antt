-- ===== src/Tests/Running.antt =====
-- The running session of pkg/petlibro on a small example.
use ha_addon_petlibro_local.Prelude.{
  ◌-◌, ◌≡◌, refl, true, false, none, List, [], ◌∷◌, ℕ, arith, replicate,
}
use ha_addon_petlibro_local.Stats.{zero_counters, snapshot, CountersSnapshot}
use ha_addon_petlibro_local.Stats.Dump.{DumpState}
use ha_addon_petlibro_local.Stats.Dump.Telescope.{pkts_in}
use ha_addon_petlibro_local.Ack.Receive.{seen}
use ha_addon_petlibro_local.Ack.Receive.Advance.{Inv}
use ha_addon_petlibro_local.Ack.Window.Session.{Reach}
use ha_addon_petlibro_local.Ack.Window.Session.Safety.{Honest}
use ha_addon_petlibro_local.Assembler.Buffer.{Entry}
use ha_addon_petlibro_local.Assembler.Delivery.{Feeds, feed}
use ha_addon_petlibro_local.Assembler.Buffer.Ordered.{Ordered}
use ha_addon_petlibro_local.Session.Send.{Outbox}
use ha_addon_petlibro_local.Session.Maintenance.{keep_alive}
use ha_addon_petlibro_local.Session.Loop.{
  Processor, Wake, done_closed, ticked, received, Readings, recv_loop,
}
use ha_addon_petlibro_local.Session.Loop.Ordered.{Live, recv_loop-Delivers}
use ha_addon_petlibro_local.Session.System.{System, beat, make, Runs, here, next, made_in}
use ha_addon_petlibro_local.Session.System.Refine.{view, Runs-Reach}
use ha_addon_petlibro_local.Tests.Frames.{waiting, waiting-Ready}

waiting-Inv : Inv waiting.ack
waiting-Inv = record {
  separated = ground arith;
  below = ground arith;
  water = omega arith;
  honest = omega arith;
  counted = refl;
  capped = omega arith;
  bounded = omega arith;
}

waiting-Live : Live waiting
waiting-Live = record {
  ready = waiting-Ready;
  receipts = record { inv = waiting-Inv; same_high = refl };
}

abbrev no_dump : DumpState
no_dump = record {
  prev_stats = snapshot zero_counters;
  have_prev_stats = false;
  ack_curr_stall_warned = false;
  stall_stats_active = false;
  stall_stats_repeat = 0;
  stall_control_pkts = 0;
  stall_stats_watermark = 0;
  stall_stats_high = 0;
  stall_stats_current = 0;
  stall_stats_pending = 0;
}

abbrev proc : Processor
proc = record {
  client = waiting;
  dump = no_dump;
  status = none;
  last_force = 0;
  last_stats = 0;
  last_runtime_status = 0;
}

abbrev readings : Readings
readings = record {
  at_receipt = 200000000;
  sent_ok = true;
  at_force = 200000001;
  after_force = 200000002;
  at_stats = 200000003;
  after_stats = 200000004;
  at_status = 200000005;
  at_write = 200000006;
  after_status = 200000007;
}

-- A datagram that is too short, a tick, and the end of the session.
abbrev rounds : List (Wake × Readings)
rounds = (received (4 ∷ 2 ∷ []), readings) ∷ (ticked, readings) ∷ (done_closed, readings) ∷ []

abbrev plain : List ℕ → List ℕ
plain b = b

recv_loop-Delivers_example :
    let p' = recv_loop plain proc rounds in
    ((es : List Entry) × Feeds (feed proc.client) es (feed p'.client)
      × Ordered 16384 es (p'.client.av_next_ext - 1))
    × Live p'.client
recv_loop-Delivers_example = recv_loop-Delivers plain proc rounds waiting-Live (omega arith)

abbrev outbox : Outbox
outbox = record { nonce = replicate 8 7; kseq = 5; icounter = 9; wire = [] }

abbrev system : System
system = record {
  proc = proc;
  outbox = outbox;
  outgoing = none;
  in_flight = [];
  retired = λ p. false;
  consumed = [];
}

system-Honest : Honest (view system)
system-Honest = record {
  inv = waiting-Inv;
  outgoing = tt;
  in_flight = tt;
  retired = λ p e. absurd (ground arith);
}

abbrev beaten : System
beaten = record system { outbox = keep_alive system.outbox }

-- A keep-alive, and a report made.
run : Runs plain system 2 (made_in beaten 4)
run = next (next here (beat refl)) (make 4 refl refl)

Runs-Reach_example :
    Reach (view system) (view (made_in beaten 4))
    × Live (made_in beaten 4).proc.client
    × ((p : ℕ)
        → (made_in beaten 4).retired p ≡ true
        → seen (made_in beaten 4).proc.client.ack p ≡ true)
Runs-Reach_example = Runs-Reach plain run waiting-Live system-Honest (omega arith)

-- Three summaries, the counter wrapping around before the last.
abbrev with_pkts : ℕ → CountersSnapshot
with_pkts n = record (snapshot zero_counters) { pkts_in = n }

abbrev summaries : List CountersSnapshot
summaries = with_pkts 5 ∷ with_pkts 18446744073709551615 ∷ with_pkts 3 ∷ []
