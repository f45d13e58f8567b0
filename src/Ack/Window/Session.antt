-- ===== src/Ack/Window/Session.antt =====
-- Receiving, reporting and the camera's resend queue as interleaved steps: the processor goroutine
-- marks positions, the maintenance goroutine makes and commits reports, the network delivers or
-- loses them, and the camera retires what a report acknowledges.
pub mod Safety
use ha_addon_petlibro_local.Prelude.{
  ℕ, ◌+◌, ◌-◌, ◌<◌, ◌≡◌, Bool, not, ◌&&◌, ◌||◌, Option, none, some, List, [], ◌∷◌, ◌++◌, ltb, leb,
  contains, sub16, u64_mod,
}
use ha_addon_petlibro_local.Stats.{Counters}
use ha_addon_petlibro_local.Ack.Receive.{Ack, AckTrace, mark_ack_received}
use ha_addon_petlibro_local.Ack.Reliable.{accept_reliable_control}
use ha_addon_petlibro_local.Ack.Window.{
  TransportAck, AckWindow, next_transport_ack, mark_transport_ack_sent,
}

-- Whether the camera drops position `p` from its resend queue on report `t`, whose base it knows as
-- the full position `base` (`retireAF203Pending` of ack_test.go).
unfoldable pub retires : ℕ → TransportAck → ℕ → Bool
retires base t p =
    ltb base p && leb (p - base) (sub16 t.av_high t.av_base) && not (contains t.missing (p - base))

-- `outgoing` is made but not yet written; `in_flight` holds written reports with their bases.
pub record Session : Type 0 where
  pub ack : Ack
  pub outgoing : Option (TransportAck × AckWindow)
  pub in_flight : List (ℕ × TransportAck)
  pub retired : ℕ → Bool

abbrev pub retire : (ℕ → Bool) → ℕ → TransportAck → ℕ → Bool
retire retired base t p = retired p || retires base t p

abbrev pub made : Session → ℕ → ℕ → Session
made s ordinal tick =
    let (t, w, a) = next_transport_ack s.ack ordinal tick in
    record s { ack = a; outgoing = some (t, w) }

abbrev pub written : Session → TransportAck → AckWindow → Session
written s t w = record s {
  ack = mark_transport_ack_sent s.ack w;
  outgoing = none;
  in_flight = (w.base_ext, t) ∷ s.in_flight;
}

-- What one datagram does to the receive state: nothing, a position, or a reliable control message.
pub data Receipt (a b : Ack) : Type 0 where
  nothing : b ≡ a → Receipt a b
  position :
      (trace : AckTrace) (now p : ℕ) (st : Counters)
      → p + 1 < u64_mod
      → b ≡ (mark_ack_received trace now a st p).0
      → Receipt a b
  control : (st : Counters) (seq : ℕ) → b ≡ (accept_reliable_control a st seq).0 → Receipt a b

pub data Step (s : Session) (u : Session) : Type 0 where
  receive : (a : Ack) → Receipt s.ack a → u ≡ record s { ack = a } → Step s u
  make : (ordinal tick : ℕ) → u ≡ made s ordinal tick → Step s u
  write :
      (t : TransportAck) (w : AckWindow) → s.outgoing ≡ some (t, w) → u ≡ written s t w → Step s u
  write_fails : u ≡ record s { outgoing = none } → Step s u
  deliver :
      (base : ℕ) (t : TransportAck) (front back : List (ℕ × TransportAck))
      → s.in_flight ≡ front ++ ((base, t) ∷ back)
      → u ≡ record s { in_flight = front ++ back; retired = retire s.retired base t }
      → Step s u
  lose :
      (base : ℕ) (t : TransportAck) (front back : List (ℕ × TransportAck))
      → s.in_flight ≡ front ++ ((base, t) ∷ back)
      → u ≡ record s { in_flight = front ++ back }
      → Step s u

pub data Reach (s : Session) : Session → Type 0 where
  here : Reach s s
  next : {t u : Session} → Reach s t → Step t u → Reach s u
