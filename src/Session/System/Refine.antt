-- ===== src/Session/System/Refine.antt =====
-- The running session refines the session of receipts and reports.
use ha_addon_petlibro_local.Prelude.{
  ℕ, ◌+◌, ◌*◌, ◌≤◌, ◌<◌, ◌≡◌, refl, sym, ap, ◌∙◌, Bool, true, false, some, List, u64_mod, arith,
}
use ha_addon_petlibro_local.Ack.Receive.{Ack, seen}
use ha_addon_petlibro_local.Ack.Receive.Advance.{Inv}
use ha_addon_petlibro_local.Ack.Window.{
  TransportAck, AckWindow, next_transport_ack, transport_ack, mark_transport_ack_sent,
}
use ha_addon_petlibro_local.Ack.Window.Session as Abstract
use ha_addon_petlibro_local.Ack.Window.Session.{Session, Reach}
use ha_addon_petlibro_local.Ack.Window.Session.Safety.{Honest, Reach-Honest}
use ha_addon_petlibro_local.Assembler.Buffer.{Client}
use ha_addon_petlibro_local.Session.Loop.{Processor, Wake, Readings, recv_round}
use ha_addon_petlibro_local.Session.Loop.Ordered.{
  Live, Ran, Acks, no_more, then_one, recv_round-Ran, round_room,
}
use ha_addon_petlibro_local.Session.Maintenance.{make_report, commit_report, write_report}
use ha_addon_petlibro_local.Session.System.{
  System, Step, round, beat, make, write, consume, deliver, lose, Runs, here, next, made_in,
  written_in,
}

-- What the abstract session shows of a running one.
abbrev pub view : System → Session
view s = record {
  ack = s.proc.client.ack;
  outgoing = s.outgoing;
  in_flight = s.in_flight;
  retired = s.retired;
}

Reach-trans : {s t u : Session} → Reach s t → Reach t u → Reach s u
Reach-trans r Abstract.here = r
Reach-trans r (Abstract.next q st) = Abstract.next (Reach-trans r q) st

-- The receipts of a round are steps of the abstract session.
Acks-Reach : (s : Session) {a : Ack} → Acks s.ack a → Reach s (record s { ack = a })
Acks-Reach s no_more = Abstract.here
Acks-Reach s (then_one l r) = Abstract.next (Acks-Reach s l) (Abstract.receive _ r refl)

-- One step of the running session: the abstract session follows, the client stays live, and the
-- highest position rises by at most one round's room.
pub record Follows (s u : System) : Type 0 where
  pub reach : Reach (view s) (view u)
  pub live : Live u.proc.client
  pub rise : u.proc.client.av_high_ext ≤ s.proc.client.av_high_ext + round_room

-- Another receive state and other counters leave a client live.
other_ack :
    (c c' : Client)
    → Live c
    → c'.av_buffer ≡ c.av_buffer
    → c'.av_next_ext ≡ c.av_next_ext
    → c'.av_high_ext ≡ c.av_high_ext
    → c'.wrap ≡ c.wrap
    → Inv c'.ack
    → c'.ack.high ≡ c.ack.high
    → Live c'
other_ack c c' l buffer next_ext high wrap inv ack_high = record {
  ready = record {
    placed = record {
      ordered = rw (buffer, next_ext, high) l.ready.placed.ordered;
      room = rw high l.ready.placed.room;
    };
    in_step = rw (wrap, high) l.ready.in_step;
  };
  receipts = record { inv = inv; same_high = ack_high ∙ l.receipts.same_high ∙ sym high };
}

module _ (reverse_trans_code : List ℕ → List ℕ) where
  round-Follows :
      (s : System) (w : Wake) (t : Readings) (p : Processor)
      → Live s.proc.client
      → s.proc.client.av_high_ext + 65536 < u64_mod
      → recv_round reverse_trans_code s.proc w t ≡ some p
      → Follows s (record s { proc = p })
  round-Follows s w t p l room e =
      let r : Ran s.proc.client p.client round_room =
        rw e at (recv_round-Ran reverse_trans_code s.proc w t l room) in
      record { reach = Acks-Reach (view s) r.acks; live = r.live; rise = r.rise }

  -- A step that the abstract session takes at once, and that leaves the buffer alone.
  at_once :
      (s u : System)
      → Live s.proc.client
      → Honest (view s)
      → Abstract.Step (view s) (view u)
      → u.proc.client.av_buffer ≡ s.proc.client.av_buffer
      → u.proc.client.av_next_ext ≡ s.proc.client.av_next_ext
      → u.proc.client.av_high_ext ≡ s.proc.client.av_high_ext
      → u.proc.client.wrap ≡ s.proc.client.wrap
      → u.proc.client.ack.high ≡ s.proc.client.ack.high
      → Follows s u
  at_once s u l h st buffer next_ext high wrap ack_high =
      let r : Reach (view s) (view u) = Abstract.next Abstract.here st in
      record {
        reach = r;
        live =
            other_ack s.proc.client u.proc.client l buffer next_ext high wrap (Reach-Honest h r).inv
              ack_high;
        rise = rw high (omega arith);
      }

  make-Follows :
      (s : System) (tick : ℕ) → Live s.proc.client → Honest (view s) → Follows s (made_in s tick)
  unfolding make_report next_transport_ack transport_ack
  make-Follows s tick l h =
      at_once s (made_in s tick) l h (Abstract.make s.outbox.icounter tick refl) refl refl refl refl
        refl

  high-mark_sent : (a : Ack) (w : AckWindow) → (mark_transport_ack_sent a w).high ≡ a.high
  unfolding mark_transport_ack_sent
  high-mark_sent a w = ground arith

  write-Follows :
      (s : System) (t : TransportAck) (w : AckWindow) (sent_ok : Bool)
      → Live s.proc.client
      → Honest (view s)
      → s.outgoing ≡ some (t, w)
      → Follows s (written_in s t w sent_ok)
  unfolding write_report commit_report
  write-Follows s t w true l h e =
      at_once s (written_in s t w true) l h (Abstract.write t w e refl) refl refl refl refl
        (high-mark_sent s.proc.client.ack w)
  write-Follows s t w false l h e =
      at_once s (written_in s t w false) l h (Abstract.write_fails refl) refl refl refl refl refl

  -- A step that the abstract session does not see.
  unseen :
      (s u : System)
      → Live s.proc.client
      → view u ≡ view s
      → u.proc.client.av_buffer ≡ s.proc.client.av_buffer
      → u.proc.client.av_next_ext ≡ s.proc.client.av_next_ext
      → u.proc.client.av_high_ext ≡ s.proc.client.av_high_ext
      → u.proc.client.wrap ≡ s.proc.client.wrap
      → Follows s u
  unseen s u l same buffer next_ext high wrap =
      let ack : u.proc.client.ack ≡ s.proc.client.ack = ap (λ (v : Session). v.ack) same in
      record {
        reach = rw same Abstract.here;
        live =
            other_ack s.proc.client u.proc.client l buffer next_ext high wrap
              (rw ack l.receipts.inv) (rw ack refl);
        rise = rw high (omega arith);
      }

  Step-Follows :
      {s u : System}
      → Step reverse_trans_code s u
      → Live s.proc.client
      → Honest (view s)
      → s.proc.client.av_high_ext + 65536 < u64_mod
      → Follows s u
  Step-Follows {s} (round w t p ran e) l h room = rw e (round-Follows s w t p l room ran)
  Step-Follows {s} (beat e) l h room = rw e (unseen s _ l refl refl refl refl refl)
  Step-Follows {s} (make tick free e) l h room = rw e (make-Follows s tick l h)
  Step-Follows {s} (write t w sent_ok o e) l h room = rw e (write-Follows s t w sent_ok l h o)
  Step-Follows {s} (consume p frames o e) l h room = rw e (unseen s _ l refl refl refl refl refl)
  Step-Follows {s} (deliver base t front back f e) l h room =
      rw e (at_once s _ l h (Abstract.deliver base t front back f refl) refl refl refl refl refl)
  Step-Follows {s} (lose base t front back f e) l h room =
      rw e (at_once s _ l h (Abstract.lose base t front back f refl) refl refl refl refl refl)

  -- Many steps.
  pub record RunsTo (s : System) (n : ℕ) (u : System) : Type 0 where
    pub reach : Reach (view s) (view u)
    pub live : Live u.proc.client
    pub rise : u.proc.client.av_high_ext ≤ s.proc.client.av_high_ext + round_room * n

  Runs-RunsTo :
      {s u : System} {n : ℕ}
      → Runs reverse_trans_code s n u
      → Live s.proc.client
      → Honest (view s)
      → s.proc.client.av_high_ext + round_room * n + 65536 < u64_mod
      → RunsTo s n u
  Runs-RunsTo here l h room = record { reach = Abstract.here; live = l; rise = omega arith }
  Runs-RunsTo (next r st) l h room =
      let q = Runs-RunsTo r l h (omega arith) in
      let f = Step-Follows st q.live (Reach-Honest h q.reach) (omega (arith, q.rise)) in
      record {
        reach = Reach-trans q.reach f.reach;
        live = f.live;
        rise = omega (arith, q.rise, f.rise);
      }

  -- However the processor, the maintenance goroutine, the consumer, the network and the camera are
  -- interleaved, the running session takes only steps of the session of receipts and reports, and the
  -- client is live after each. So what the camera has dropped from its resend queue is what the client
  -- has received. The session starts live and honest, far from 64 bits for its number of steps.
  pub Runs-Reach :
      {s u : System} {n : ℕ}
      → Runs reverse_trans_code s n u
      → Live s.proc.client
      → Honest (view s)
      → s.proc.client.av_high_ext + round_room * n + 65536 < u64_mod
      → Reach (view s) (view u)
        × Live u.proc.client
        × ((p : ℕ) → u.retired p ≡ true → seen u.proc.client.ack p ≡ true)
  Runs-Reach r l h room =
      let q = Runs-RunsTo r l h room in (q.reach, q.live, (Reach-Honest h q.reach).retired)
