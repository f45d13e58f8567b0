-- ===== src/Session/Maintenance.antt =====
-- `maintenanceLoop` of pkg/petlibro/recv.go. Between making a report and committing it the goroutine
-- holds no lock, so the two are steps of their own. Trace lines are left out.
use ha_addon_petlibro_local.Prelude.{ℕ, Bool, if◌then◌else◌, length, add64}
use ha_addon_petlibro_local.Stats.{Counters}
use ha_addon_petlibro_local.Wire.Frames.{build_alive_c2d, marshal}
use ha_addon_petlibro_local.Ack.Window.{
  TransportAck, AckWindow, next_transport_ack, mark_transport_ack_sent,
}
use ha_addon_petlibro_local.Assembler.Buffer.{Client}
use ha_addon_petlibro_local.Assembler.Datagram.{stats_of, store_stats}
use ha_addon_petlibro_local.Session.Send.{Outbox, send, send_inner, next_counter}

-- `case <-alive.C`.
unfoldable pub keep_alive : Outbox → Outbox
unfolding send
keep_alive o = send o (build_alive_c2d o.nonce)

-- `case <-ack.C`, up to the report and its window.
unfoldable pub make_report : Client → Outbox → ℕ → TransportAck × AckWindow × Client
make_report c o tick =
    let (t, w, ack) = next_transport_ack c.ack o.icounter tick in (t, w, record c { ack = ack })

unfoldable pub store_report : Counters → TransportAck → Bool → Counters
store_report st t sent_ok = record st {
  ack_prev_low16 = t.av_base;
  ack_current_low16 = t.av_high;
  ack_nack_count = length t.missing;
  ack_send_count = t.send_count;
  ack_sent = if sent_ok then add64 st.ack_sent 1 else st.ack_sent;
}

-- What follows `sendInner`, which returned no error if `sent_ok`.
unfoldable pub commit_report : Client → TransportAck → AckWindow → Bool → Client
unfolding store_report
commit_report c t w sent_ok =
    let ack = if sent_ok then mark_transport_ack_sent c.ack w else c.ack in
    record (store_stats c (store_report (stats_of c) t sent_ok)) { ack = ack }

unfoldable pub write_report : Client → Outbox → TransportAck → AckWindow → Bool → Client × Outbox
unfolding commit_report send_inner next_counter
write_report c o t w sent_ok =
    (commit_report c t w sent_ok, next_counter (send_inner o (marshal t)))
