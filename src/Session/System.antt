-- ===== src/Session/System.antt =====
-- A running session: the processor's rounds, the maintenance goroutine's sends, the consumer of
-- `ReadPacket` and the network, interleaved as they come. The wire to the camera holds the reports
-- that were written, each with the full position of its base.
pub mod Refine
use ha_addon_petlibro_local.Prelude.{
  ℕ, suc, ◌≡◌, Bool, true, false, Option, none, some, List, [], ◌∷◌, ◌++◌, if◌then◌else◌,
}
use ha_addon_petlibro_local.Ack.Window.{TransportAck, AckWindow}
use ha_addon_petlibro_local.Ack.Window.Session.{retire}
use ha_addon_petlibro_local.Assembler.Stream.{Stream, Packet}
use ha_addon_petlibro_local.Assembler.Buffer.{Client}
use ha_addon_petlibro_local.Session.Send.{Outbox}
use ha_addon_petlibro_local.Session.Loop.{Processor, Wake, Readings, recv_round}
use ha_addon_petlibro_local.Session.Maintenance.{keep_alive, make_report, write_report}

pub record System : Type 0 where
  pub proc : Processor
  pub outbox : Outbox
  pub outgoing : Option (TransportAck × AckWindow)
  pub in_flight : List (ℕ × TransportAck)
  pub retired : ℕ → Bool
  pub consumed : List Packet

abbrev pub with_client : System → Client → System
with_client s c = record s { proc = record s.proc { client = c } }

abbrev pub made_in : System → ℕ → System
made_in s tick =
    let (t, w, c) = make_report s.proc.client s.outbox tick in
    record (with_client s c) { outgoing = some (t, w) }

abbrev pub written_in : System → TransportAck → AckWindow → Bool → System
written_in s t w sent_ok =
    let (c, o) = write_report s.proc.client s.outbox t w sent_ok in
    record (with_client s c) {
      outbox = o;
      outgoing = none;
      in_flight = if sent_ok then (w.base_ext, t) ∷ s.in_flight else s.in_flight;
    }

-- `ReadPacket` takes what waits longest.
unfoldable pub read_packet : List Packet → Option (Packet × List Packet)
read_packet [] = none
read_packet (p ∷ frames) = some (p, frames)

abbrev pub consumed_in : System → Packet → List Packet → System
consumed_in s p frames = record s {
  proc = record s.proc {
    client = record s.proc.client { stream = record s.proc.client.stream { frames = frames } };
  };
  consumed = s.consumed ++ (p ∷ []);
}

module _ (reverse_trans_code : List ℕ → List ℕ) where
  pub data Step (s : System) (u : System) : Type 0 where
    round :
        (w : Wake) (t : Readings) (p : Processor)
        → recv_round reverse_trans_code s.proc w t ≡ some p
        → u ≡ record s { proc = p }
        → Step s u
    beat : u ≡ record s { outbox = keep_alive s.outbox } → Step s u
    make : (tick : ℕ) → s.outgoing ≡ none → u ≡ made_in s tick → Step s u
    write :
        (t : TransportAck) (w : AckWindow) (sent_ok : Bool)
        → s.outgoing ≡ some (t, w)
        → u ≡ written_in s t w sent_ok
        → Step s u
    consume :
        (p : Packet) (frames : List Packet)
        → read_packet s.proc.client.stream.frames ≡ some (p, frames)
        → u ≡ consumed_in s p frames
        → Step s u
    deliver :
        (base : ℕ) (t : TransportAck) (front back : List (ℕ × TransportAck))
        → s.in_flight ≡ front ++ ((base, t) ∷ back)
        → u ≡ record s { in_flight = front ++ back; retired = retire s.retired base t }
        → Step s u
    lose :
        (base : ℕ) (t : TransportAck) (front back : List (ℕ × TransportAck))
        → s.in_flight ≡ front ++ ((base, t) ∷ back)
        → u ≡ record s { in_flight = front ++ back }
        → Step s u

  -- `n` steps.
  pub data Runs (s : System) : ℕ → System → Type 0 where
    here : Runs s 0 s
    next : {n : ℕ} {t u : System} → Runs s n t → Step t u → Runs s (suc n) u
