-- ===== src/Tests/Receipts.antt =====
-- The receive state of pkg/petlibro/recv.go on small examples.
use ha_addon_petlibro_local.Prelude.{
  ◌+◌, ◌≡◌, refl, true, false, none, some, [], ◌∷◌, min, max, add16, sub16, add64, sub64, to_u16,
  arith,
}
use ha_addon_petlibro_local.Stats.{zero_counters}
use ha_addon_petlibro_local.Ack.Ranges.{insert_ack_seen, insert_from, extend_last, keep, new_range}
use ha_addon_petlibro_local.Ack.Ranges.Insert.{Inserts, insert_ack_seen-Inserts}
use ha_addon_petlibro_local.Ack.Receive.{
  Ack, AckTrace, mark_ack_received, seen, record_position, accept_range, watch_gap, restart_gap,
  advanced_by, advance, raise_high, take_ranges, count_duplicate, count_overflow, gap_is_old,
  gap_or_now, store_gauges,
}
use ha_addon_petlibro_local.Ack.Receive.Invariant.{Marked, mark_ack_received-Marked}
use ha_addon_petlibro_local.Ack.Receive.Advance.{Inv}
use ha_addon_petlibro_local.Ack.Window.{
  TransportAck, AckWindow, ack_window, mark_transport_ack_sent, next_transport_ack, scan,
  clamp_high, in_first, skip_ranges, transport_ack, visit, visit_hole,
}
use ha_addon_petlibro_local.Ack.Window.Complete.{Complete, ack_window-Complete}
use ha_addon_petlibro_local.Ack.Window.Session.{
  retires, Session, made, written, retire, position, receive, make, write, deliver, Reach, here,
  next,
}
use ha_addon_petlibro_local.Ack.Window.Session.Safety.{
  Sound, Honest, reported-mark_sent, next_transport_ack-Sound, retired_was_received,
}
use ha_addon_petlibro_local.Ack.Reliable.{accept_reliable_control}
use ha_addon_petlibro_local.Ack.Reliable.Contiguous.{
  Settled, Accepts, accept_reliable_control-Accepts,
}
use ha_addon_petlibro_local.Seq.{extend, advance_to}
use ha_addon_petlibro_local.Seq.Extend.{extend-to_u16, advance_to-max}

-- Everything up to 100 was received, and 102.
abbrev gapped : Ack
gapped = record {
  reported = 99;
  watermark = 100;
  high = 102;
  seen_ranges = record { first = 102; last = 102 } ∷ [];
  seen_pending = 1;
  reliable_recv = 7;
  reliable_recv_set = true;
  reliable_seen = 9 ∷ [];
  send_count = 3;
  gap_started = none;
  pending_warn = 32;
}

abbrev quiet : AckTrace
quiet = record { verbose = false; trace_ack = false }

gapped-Inv : Inv gapped
gapped-Inv = record {
  separated = ground arith;
  below = ground arith;
  water = omega arith;
  honest = omega arith;
  counted = refl;
  capped = omega arith;
  bounded = omega arith;
}

gapped-Settled : Settled gapped
unfolding add16
gapped-Settled = record {
  word = omega arith;
  stopped = λ e. refl;
  fresh = λ e. absurd (ground arith);
}

insert_ack_seen-Inserts_example :
    Inserts 100 104 1 gapped.seen_ranges 104 (insert_ack_seen gapped.seen_ranges 104)
insert_ack_seen-Inserts_example =
    insert_ack_seen-Inserts 100 104 104 gapped.seen_ranges (omega arith) (omega arith) (omega arith)
      (ground arith) (ground arith)

mark_ack_received-Marked_example :
    Marked gapped 101 (mark_ack_received quiet 5 gapped zero_counters 101).0
mark_ack_received-Marked_example =
    mark_ack_received-Marked quiet 5 101 gapped zero_counters gapped-Inv (omega arith)

ack_window-Complete_example : Complete gapped (ack_window gapped)
ack_window-Complete_example = ack_window-Complete gapped gapped-Inv

reported-mark_sent_example :
    (mark_transport_ack_sent gapped (ack_window gapped)).reported ≡ min 100 (99 + 65535)
reported-mark_sent_example = reported-mark_sent gapped gapped-Inv

next_transport_ack-Sound_example :
    let (t, w, a') = next_transport_ack gapped 4 5 in
    Sound gapped w.base_ext t × (w.contiguous_ext ≡ 100)
next_transport_ack-Sound_example = next_transport_ack-Sound gapped 4 5 gapped-Inv

accept_reliable_control-Accepts_example :
    Accepts gapped 8 (accept_reliable_control gapped zero_counters 8).0
accept_reliable_control-Accepts_example =
    accept_reliable_control-Accepts gapped zero_counters 8 gapped-Settled (omega arith)

extend-to_u16_example : extend (record { ext = 70000 }) (to_u16 70003) ≡ some 70003
extend-to_u16_example =
    extend-to_u16 (record { ext = 70000 }) 70003 (omega arith) (omega arith) (omega arith)

advance_to-max_example : (advance_to (record { ext = 65535 }) (to_u16 65537)).ext ≡ max 65535 65537
advance_to-max_example =
    advance_to-max (record { ext = 65535 }) 65537 (omega arith) (omega arith) (omega arith)

-- A session in which 101 arrives, is reported, and the report reaches the camera.
abbrev start : Session
start = record { ack = gapped; outgoing = none; in_flight = []; retired = λ p. false }

start-Honest : Honest start
start-Honest = record {
  inv = gapped-Inv;
  outgoing = tt;
  in_flight = tt;
  retired = λ p e. absurd (ground arith);
}

abbrev received : Session
received = record start { ack = (mark_ack_received quiet 5 gapped zero_counters 101).0 }

abbrev report : TransportAck
report = (next_transport_ack received.ack 4 5).0

abbrev window : AckWindow
window = (next_transport_ack received.ack 4 5).1

abbrev sent : Session
sent = written (made received 4 5) report window

abbrev delivered : Session
delivered = record sent { in_flight = []; retired = retire sent.retired window.base_ext report }

session : Reach start delivered
session =
    next
      (next
        (next
          (next here
            (receive received.ack (position quiet 5 101 zero_counters (omega arith) refl) refl))
          (make 4 5 refl))
        (write report window refl refl))
      (deliver window.base_ext report [] [] refl refl)

retired_101 : delivered.retired 101 ≡ true
unfolding retires next_transport_ack mark_ack_received record_position insert_ack_seen insert_from
    add64 accept_range watch_gap restart_gap advanced_by advance raise_high sub64 take_ranges sub16
    scan clamp_high extend_last keep new_range count_duplicate count_overflow gap_is_old gap_or_now
    store_gauges ack_window in_first skip_ranges transport_ack visit visit_hole add16
retired_101 = refl

retired_was_received_example : seen delivered.ack 101 ≡ true
retired_was_received_example = retired_was_received 101 start-Honest session retired_101
