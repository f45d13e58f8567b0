-- ===== src/Session/Loop/Ordered.antt =====
-- The processor goroutine refines the feed: through all datagrams and ticks of a session, fragments
-- reach `emit` by rising position, each position at most once.
use ha_addon_petlibro_local.Prelude.{
  ℕ, suc, ◌+◌, ◌*◌, ◌-◌, ◌≤◌, ◌<◌, ◌≡◌, refl, ◌∙◌, inl, inr, Bool-cases, Option, none, some,
  Option-cases, List, [], ◌∷◌, ◌++◌, ltb, length, u64_mod, arith,
}
use ha_addon_petlibro_local.Ack.Receive.{Ack}
use ha_addon_petlibro_local.Ack.Window.Session.{Receipt}
use ha_addon_petlibro_local.Stats.{Counters}
use ha_addon_petlibro_local.Status.{RuntimeStatusWriter}
use ha_addon_petlibro_local.Assembler.Buffer.{Entry, Client, force_drain}
use ha_addon_petlibro_local.Assembler.Buffer.Ordered.{Ordered}
use ha_addon_petlibro_local.Assembler.Buffer.Ticks.{force_drain-Ticked}
use ha_addon_petlibro_local.Assembler.Delivery.{
  Feeds, idle, counts, feed, Feeds-trans, Feeds-Ordered,
}
use ha_addon_petlibro_local.Assembler.Delivery.Refine.{force_drain-Feeds}
use ha_addon_petlibro_local.Assembler.Delivery.Still.{force_drain-Still}
use ha_addon_petlibro_local.Assembler.Datagram.{stats_of, store_stats}
use ha_addon_petlibro_local.Assembler.Datagram.Steady.{Ready, Receipts}
use ha_addon_petlibro_local.Assembler.Datagram.Position.{parse_datagram-Parsed}
use ha_addon_petlibro_local.Session.Loop.{
  Processor, Wake, done_closed, raw_closed, ticked, received, Readings, force_interval, count_read,
  force_if_due, summarise_if_due, publish_if_due, periodic, handle_encrypted_datagram, recv_round,
  recv_loop,
}

-- Between two rounds: the buffer is placed, and the receive state is valid and in step with it.
pub record Live (c : Client) : Type 0 where
  pub ready : Ready c
  pub receipts : Receipts c

-- The receipts of some rounds, one after the other.
pub data Acks (a : Ack) : Ack → Type 0 where
  no_more : Acks a a
  then_one : {b c : Ack} → Acks a b → Receipt b c → Acks a c

Acks-trans : {a b c : Ack} → Acks a b → Acks b c → Acks a c
Acks-trans l no_more = l
Acks-trans l (then_one m r) = then_one (Acks-trans l m) r

-- What a part of the session does: fragments are emitted as the feed allows, and the highest position
-- rises by at most `room`.
pub record Ran (c c' : Client) (room : ℕ) : Type 0 where
  pub live : Live c'
  pub fed : (es : List Entry) × Feeds (feed c) es (feed c')
  pub rise : c'.av_high_ext ≤ c.av_high_ext + room
  pub acks : Acks c.ack c'.ack

Ran-trans : {c d e : Client} (m n : ℕ) → Ran c d m → Ran d e n → Ran c e (m + n)
Ran-trans m n r s = record {
  live = s.live;
  fed = (r.fed.0 ++ s.fed.0, Feeds-trans r.fed.1 s.fed.1);
  rise = omega (arith, r.rise, s.rise);
  acks = Acks-trans r.acks s.acks;
}

stay : (c : Client) → Live c → Ran c c 0
stay c l = record { live = l; fed = ([], idle); rise = omega arith; acks = no_more }

-- A tick of `forceDrain`.
force_drain-Ran : (c : Client) → Live c → Ran c (force_drain c) 0
force_drain-Ran c l =
    let s = force_drain-Still c in
    let t = force_drain-Ticked c l.ready.placed in
    record {
      live = record {
        ready = record { placed = t.1.placed; in_step = rw (s.wrap, s.high) l.ready.in_step };
        receipts = record {
          inv = rw s.ack l.receipts.inv;
          same_high = rw (s.ack, s.high) l.receipts.same_high;
        };
      };
      fed = force_drain-Feeds c l.ready.placed;
      rise = rw s.high (omega arith);
      acks = rw s.ack no_more;
    }

-- The periodic work: the summary and the status leave the client alone.
publish-client :
    (p : Processor) (t : Readings) (w : Option RuntimeStatusWriter)
    → (publish_if_due p t w).client ≡ p.client
unfolding publish_if_due
publish-client p t none = refl
publish-client p t (some w) = ground arith

summarise-client : (p : Processor) (t : Readings) → (summarise_if_due p t).client ≡ p.client
unfolding summarise_if_due
summarise-client p t = ground arith

periodic-client : (p : Processor) (t : Readings) → (periodic p t).client ≡ (force_if_due p t).client
unfolding periodic
periodic-client p t =
    let p' = summarise_if_due (force_if_due p t) t in
    publish-client p' t p'.status ∙ summarise-client (force_if_due p t) t

force-Ran :
    (p : Processor) (t : Readings) → Live p.client → Ran p.client (force_if_due p t).client 0
unfolding force_if_due
force-Ran p t l = elim (Bool-cases (ltb force_interval (t.at_force - p.last_force))) [
  | inl due ↦ rw due (force_drain-Ran p.client l)
  | inr early ↦ rw early (stay p.client l)
]

periodic-Ran : (p : Processor) (t : Readings) → Live p.client → Ran p.client (periodic p t).client 0
periodic-Ran p t l = rw (periodic-client p t) (force-Ran p t l)

-- Counting what was read comes first.
counted-Live : (c : Client) (st : Counters) → Live c → Live (store_stats c st)
counted-Live c st l = record {
  ready = record {
    placed = record { ordered = l.ready.placed.ordered; room = l.ready.placed.room };
    in_step = l.ready.in_step;
  };
  receipts = record { inv = l.receipts.inv; same_high = l.receipts.same_high };
}

-- How far one round raises the highest position.
abbrev pub round_room : ℕ
round_room = 32768

-- Of one round's outcome.
abbrev pub RoundRan : Client → Option Processor → Type 0
RoundRan c none = Unit {0}
RoundRan c (some p') = Ran c p'.client round_room

widen : {c c' : Client} → Ran c c' 0 → Ran c c' round_room
widen r = record { live = r.live; fed = r.fed; rise = omega (arith, r.rise); acks = r.acks }

module _ (reverse_trans_code : List ℕ → List ℕ) where
  received-Ran :
      (p : Processor) (t : Readings) (raw : List ℕ)
      → Live p.client
      → p.client.av_high_ext + 65536 < u64_mod
      → let c = store_stats p.client (count_read (stats_of p.client) (length raw)) in
        Ran p.client (handle_encrypted_datagram reverse_trans_code c t raw) round_room
  unfolding handle_encrypted_datagram
  received-Ran p t raw l room =
      let st = count_read (stats_of p.client) (length raw) in
      let c = store_stats p.client st in
      let live = counted-Live p.client st l in
      let q =
        parse_datagram-Parsed c t.at_receipt t.sent_ok (reverse_trans_code raw) live.ready room in
      record {
        live = record { ready = q.ready; receipts = q.receipts live.receipts };
        fed = (q.fed.0, counts st q.fed.1);
        rise = omega (arith, q.rise.1);
        acks = then_one no_more q.receipt;
      }

  pub recv_round-Ran :
      (p : Processor) (w : Wake) (t : Readings)
      → Live p.client
      → p.client.av_high_ext + 65536 < u64_mod
      → RoundRan p.client (recv_round reverse_trans_code p w t)
  unfolding recv_round
  recv_round-Ran p done_closed t l room = tt
  recv_round-Ran p raw_closed t l room = tt
  recv_round-Ran p ticked t l room = widen (periodic-Ran p t l)
  recv_round-Ran p (received raw) t l room =
      let r = received-Ran p t raw l room in
      let st = count_read (stats_of p.client) (length raw) in
      let c = handle_encrypted_datagram reverse_trans_code (store_stats p.client st) t raw in
      Ran-trans 32768 0 r (periodic-Ran (record p { client = c }) t r.live)

  recv_loop-Ran :
      (p : Processor) (rounds : List (Wake × Readings))
      → Live p.client
      → p.client.av_high_ext + round_room * length rounds + 65536 < u64_mod
      → Ran p.client (recv_loop reverse_trans_code p rounds).client (round_room * length rounds)
  unfolding recv_loop
  recv_loop-Ran p [] l room = stay p.client l
  recv_loop-Ran p ((w, t) ∷ rounds) l room =
      let round = recv_round-Ran p w t l (omega arith) in
      elim (Option-cases (recv_round reverse_trans_code p w t)) [
        | inl returned ↦
            rw (recv_loop, returned)
              (record { live = l; fed = ([], idle); rise = omega arith; acks = no_more })
        | inr (p', goes_on) ↦
            let r : Ran p.client p'.client round_room = rw goes_on at round in
            let rest = recv_loop-Ran p' rounds r.live (omega (arith, r.rise)) in
            let total : round_room + round_room * length rounds ≡ round_room * suc (length rounds) =
              omega arith in
            rw (recv_loop, goes_on)
              (rw total at (Ran-trans round_room (round_room * length rounds) r rest))
      ]

  -- Whatever datagrams and ticks a session brings, in whatever order and however they are decrypted:
  -- the fragments that reach `emit` have strictly rising positions from the client's next one on,
  -- `emit` and counting are all that happens to the stream, and the next round finds a placed buffer
  -- and a valid receive state again. The session starts from such a state, far from 64 bits.
  pub recv_loop-Delivers :
      (p : Processor) (rounds : List (Wake × Readings))
      → Live p.client
      → p.client.av_high_ext + round_room * length rounds + 65536 < u64_mod
      → let p' = recv_loop reverse_trans_code p rounds in
        ((es : List Entry) × Feeds (feed p.client) es (feed p'.client)
          × Ordered p.client.av_next_ext es (p'.client.av_next_ext - 1))
        × Live p'.client
  recv_loop-Delivers p rounds l room =
      let r = recv_loop-Ran p rounds l room in
      ((r.fed.0, r.fed.1, Feeds-Ordered _ r.fed.1 (omega arith)), r.live)
