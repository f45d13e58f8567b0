-- ===== src/Session/Loop.antt =====
-- `recvLoop`, `readerGoroutine` and `handleEncryptedDatagram` of pkg/petlibro/recv.go, and `Close` of
-- client.go. What `select` picks and every clock reading are arguments; the decryption of pkg/tutk is
-- a parameter. Times are nanoseconds.
pub mod Ordered
use ha_addon_petlibro_local.Prelude.{
  ℕ, ◌-◌, Bool, true, false, not, ◌&&◌, Option, none, some, List, [], ◌∷◌, ◌++◌, if◌then◌else◌, ltb,
  length, add64, ◌==◌,
}
use ha_addon_petlibro_local.Stats.{Counters, snapshot}
use ha_addon_petlibro_local.Stats.Dump.{DumpState, dump_stats}
use ha_addon_petlibro_local.Status.{RuntimeStatusWriter, update_health, mark_offline}
use ha_addon_petlibro_local.Assembler.Stream.{Stream}
use ha_addon_petlibro_local.Assembler.Buffer.{Client, force_drain}
use ha_addon_petlibro_local.Assembler.Datagram.{stats_of, store_stats, parse_datagram}

-- What the processor goroutine owns, with the local variables of its loop.
pub record Processor : Type 0 where
  pub client : Client
  pub dump : DumpState
  pub status : Option RuntimeStatusWriter
  pub last_force : ℕ
  pub last_stats : ℕ
  pub last_runtime_status : ℕ

-- What the first `select` of a round finds: `done` closed, the reader's channel closed, a raw
-- datagram, or the ticker.
pub data Wake : Type 0 where
  done_closed raw_closed ticked : Wake
  received : List ℕ → Wake

-- The clock as a round reads it: for the receipt, at each `time.Since` and after each periodic call;
-- and whether the response to a timing probe was sent.
pub record Readings : Type 0 where
  pub at_receipt : ℕ
  pub sent_ok : Bool
  pub at_force : ℕ
  pub after_force : ℕ
  pub at_stats : ℕ
  pub after_stats : ℕ
  pub at_status : ℕ
  pub at_write : ℕ
  pub after_status : ℕ

abbrev pub force_interval : ℕ
force_interval = 100000000

abbrev pub summary_interval : ℕ
summary_interval = 5000000000

unfoldable pub count_read : Counters → ℕ → Counters
count_read st n = record st { bytes_in = add64 st.bytes_in n; pkts_in = add64 st.pkts_in 1 }

unfoldable pub force_if_due : Processor → Readings → Processor
force_if_due p t =
    if ltb force_interval (t.at_force - p.last_force)
    then record p { client = force_drain p.client; last_force = t.after_force }
    else p

unfoldable pub summarise_if_due : Processor → Readings → Processor
summarise_if_due p t =
    if p.client.stream.verbose && ltb summary_interval (t.at_stats - p.last_stats)
    then record p {
      dump = (dump_stats p.dump (snapshot (stats_of p.client))).0;
      last_stats = t.after_stats;
    }
    else p

unfoldable pub publish_if_due : Processor → Readings → Option RuntimeStatusWriter → Processor
publish_if_due p t none = p
publish_if_due p t (some w) =
    if ltb summary_interval (t.at_status - p.last_runtime_status)
    then record p {
      status = some (update_health w (snapshot (stats_of p.client)) t.at_write);
      last_runtime_status = t.after_status;
    }
    else p

unfoldable pub periodic : Processor → Readings → Processor
unfolding force_if_due summarise_if_due publish_if_due
periodic p t = let p' = summarise_if_due (force_if_due p t) t in publish_if_due p' t p'.status

module _ (reverse_trans_code : List ℕ → List ℕ) where
  unfoldable pub handle_encrypted_datagram : Client → Readings → List ℕ → Client
  handle_encrypted_datagram c t raw =
      parse_datagram c t.at_receipt t.sent_ok (reverse_trans_code raw)

  -- `none` stands for the return.
  unfoldable pub recv_round : Processor → Wake → Readings → Option Processor
  unfolding handle_encrypted_datagram
  recv_round p done_closed t = none
  recv_round p raw_closed t = none
  recv_round p ticked t = some (periodic p t)
  recv_round p (received raw) t =
      let c = store_stats p.client (count_read (stats_of p.client) (length raw)) in
      some (periodic (record p { client = handle_encrypted_datagram c t raw }) t)

  -- The loop over what happens to it; the rounds after its return are not made.
  unfoldable pub recv_loop : Processor → List (Wake × Readings) → Processor
  unfolding recv_round
  recv_loop p [] = p
  recv_loop p ((w, t) ∷ rounds) = elim (recv_round p w t) [
    | none ↦ p
    | some p' ↦ recv_loop p' rounds
  ]

-- The channel between the reader and the processor.
abbrev pub raw_cap : ℕ
raw_cap = 4096

-- The reader goroutine's view: the queue of raw datagrams, whether it is closed, and the counters.
pub record Reader : Type 0 where
  pub queue : List (List ℕ)
  pub closed : Bool
  pub stats : Counters

-- What one read returns.
pub data ReadResult : Type 0 where
  timed_out failed : ReadResult
  got : List ℕ → ReadResult

unfoldable pub hand_over : Reader → List ℕ → Reader
hand_over r raw =
    if length raw == 0
    then r
    else if ltb (length r.queue) raw_cap
    then record r { queue = r.queue ++ (raw ∷ []) }
    else record r { stats = record r.stats { reader_drops = add64 r.stats.reader_drops 1 } }

-- One round of the loop while `done` is open: it ends only by closing the channel.
unfoldable pub read_round : Reader → ReadResult → Reader
unfolding hand_over
read_round r timed_out = record r {
  stats = record r.stats { recv_timeouts = add64 r.stats.recv_timeouts 1 };
}
read_round r failed = record r { closed = true }
read_round r (got raw) = hand_over r raw

unfoldable pub publish_offline :
    Option RuntimeStatusWriter → Counters → ℕ → ℕ → Option RuntimeStatusWriter
publish_offline none st at_health at_offline = none
publish_offline (some w) st at_health at_offline =
    some (mark_offline (update_health w (snapshot st) at_health) at_offline)

-- `Close` under `closeOnce`: the second call does nothing. Closing sockets and dumps is left out.
unfoldable pub close : Processor → ℕ → ℕ → Processor
unfolding publish_offline
close p at_health at_offline = if p.client.stream.done then p else record p {
  client = record p.client { stream = record p.client.stream { done = true } };
  status = publish_offline p.status (stats_of p.client) at_health at_offline;
}
