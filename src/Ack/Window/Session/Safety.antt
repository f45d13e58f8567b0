-- ===== src/Ack/Window/Session/Safety.antt =====
-- The camera never retires a position that the client did not receive, whatever the interleaving.
use ha_addon_petlibro_local.Prelude.{
  ℕ, ◌+◌, ◌≤◌, ◌≡◌, ◌∙◌, true, Option, none, some, List, [], ◌∷◌, ◌++◌, sub16, min, arith,
}
use ha_addon_petlibro_local.Ack.Receive.{Ack, seen}
use ha_addon_petlibro_local.Ack.Receive.Invariant.{
  added, known, refused, Marked, mark_ack_received-Marked,
}
use ha_addon_petlibro_local.Ack.Receive.Advance.{Inv}
use ha_addon_petlibro_local.Ack.Reliable.Apart.{accept_reliable_control-Apart}
use ha_addon_petlibro_local.Ack.Window.{
  TransportAck, AckWindow, ack_window, mark_transport_ack_sent, transport_ack, next_transport_ack,
}
use ha_addon_petlibro_local.Ack.Window.Complete.{ack_window-Complete}
use ha_addon_petlibro_local.Ack.Window.Session.{
  Session, Step, Receipt, nothing, position, control, receive, make, write, write_fails, deliver,
  lose, Reach, here, next, retires, made, written,
}

-- One commit of a valid state's own window reports as far as the watermark and the 16-bit span of the
-- wire allow.
pub reported-mark_sent :
    (a : Ack)
    → Inv a
    → (mark_transport_ack_sent a (ack_window a)).reported ≡ min a.watermark (a.reported + 65535)
unfolding mark_transport_ack_sent
reported-mark_sent a v = let w = ack_window-Complete a v in ground (arith, w.maximal, w.contiguous)

-- A commit of a window, made on this state or on an earlier one, keeps the invariant.
mark_sent-Inv :
    (a : Ack) (w : AckWindow)
    → Inv a
    → w.contiguous_ext ≤ a.watermark
    → Inv (mark_transport_ack_sent a w)
unfolding mark_transport_ack_sent
mark_sent-Inv a w v h = ground arith

seen-mark_sent : (a : Ack) (w : AckWindow) (p : ℕ) → seen (mark_transport_ack_sent a w) p ≡ seen a p
unfolding mark_transport_ack_sent
seen-mark_sent a w p = ground arith

-- Everything that the report retires was received.
abbrev pub Sound : Ack → ℕ → TransportAck → Type 0
Sound a base t = (p : ℕ) → retires base t p ≡ true → seen a p ≡ true

-- The report that `nextTransportACK` makes of a valid state retires only what was received, in spite
-- of its 16-bit positions, and its window ends at the watermark's contiguous position.
pub next_transport_ack-Sound :
    (a : Ack) (ordinal tick : ℕ)
    → Inv a
    → let (t, w, a') = next_transport_ack a ordinal tick in
      Sound a w.base_ext t × (w.contiguous_ext ≡ a.watermark)
unfolding next_transport_ack transport_ack retires sub16
next_transport_ack-Sound a ordinal tick v =
    let w = ack_window-Complete a v in (λ p h. ground (arith, w.described p), w.contiguous)

abbrev pub OutgoingSound : Ack → Option (TransportAck × AckWindow) → Type 0
OutgoingSound a none = Unit {0}
OutgoingSound a (some (t, w)) = Sound a w.base_ext t × (w.contiguous_ext ≤ a.watermark)

abbrev pub AllSound : Ack → List (ℕ × TransportAck) → Type 0
AllSound a [] = Unit {0}
AllSound a ((base, t) ∷ rs) = Sound a base t × AllSound a rs

pub record Honest (s : Session) : Type 0 where
  pub inv : Inv s.ack
  pub outgoing : OutgoingSound s.ack s.outgoing
  pub in_flight : AllSound s.ack s.in_flight
  pub retired : (p : ℕ) → s.retired p ≡ true → seen s.ack p ≡ true

-- The later state has seen all that the earlier one has, and has the higher watermark.
record Later (a b : Ack) : Type 0 where
  keeps : (p : ℕ) → seen a p ≡ true → seen b p ≡ true
  grows : a.watermark ≤ b.watermark

OutgoingSound-mono :
    (a b : Ack) (o : Option (TransportAck × AckWindow))
    → Later a b
    → OutgoingSound a o
    → OutgoingSound b o
OutgoingSound-mono a b none l h = tt
OutgoingSound-mono a b (some (t, w)) l h = (λ p r. l.keeps p (h.0 p r), omega (arith, h.1, l.grows))

AllSound-mono :
    (a b : Ack) (rs : List (ℕ × TransportAck)) → Later a b → AllSound a rs → AllSound b rs
AllSound-mono a b [] l h = tt
AllSound-mono a b ((base, t) ∷ rs) l h = (λ p r. l.keeps p (h.0 p r), AllSound-mono a b rs l h.1)

AllSound-drop :
    (a : Ack) (x : ℕ × TransportAck) (front back : List (ℕ × TransportAck))
    → AllSound a (front ++ (x ∷ back))
    → Sound a x.0 x.1 × AllSound a (front ++ back)
AllSound-drop a (base, t) [] back h = h
AllSound-drop a x ((base, t) ∷ front) back h =
    let (this, rest) = AllSound-drop a x front back h.1 in (this, (h.0, rest))

Marked-Later : {a b : Ack} {s : ℕ} → Marked a s b → Later a b
Marked-Later m = record {
  keeps = λ p h. elim m.outcome [
    | added fresh exactly ↦ exactly p ∙ ground arith
    | known old same ↦ same p ∙ h
    | refused fresh full same ↦ same p ∙ h
  ];
  grows = m.grows;
}

mark_sent-Later : (a : Ack) (w : AckWindow) → Later a (mark_transport_ack_sent a w)
unfolding mark_transport_ack_sent
mark_sent-Later a w = record { keeps = λ p h. seen-mark_sent a w p ∙ h; grows = ground arith }

send_count-Inv : (a : Ack) (n : ℕ) → Inv a → Inv (record a { send_count = n })
send_count-Inv a n v = record {
  separated = v.separated;
  below = v.below;
  water = v.water;
  honest = v.honest;
  counted = v.counted;
  capped = v.capped;
  bounded = v.bounded;
}

made-Honest : (s : Session) (ordinal tick : ℕ) → Honest s → Honest (made s ordinal tick)
unfolding next_transport_ack transport_ack
made-Honest s ordinal tick h = record {
  inv = send_count-Inv s.ack _ h.inv;
  outgoing = ((next_transport_ack-Sound s.ack ordinal tick h.inv).0, omega arith);
  in_flight =
      AllSound-mono s.ack ((made s ordinal tick).ack) s.in_flight
        (record { keeps = λ p r. r; grows = omega arith }) h.in_flight;
  retired = h.retired;
}

written-Honest :
    (s : Session) (t : TransportAck) (w : AckWindow)
    → Honest s
    → s.outgoing ≡ some (t, w)
    → Honest (written s t w)
written-Honest s t w h e =
    let o : OutgoingSound s.ack (some (t, w)) = rw e at h.outgoing in
    let later = mark_sent-Later s.ack w in
    record {
      inv = mark_sent-Inv s.ack w h.inv o.1;
      outgoing = tt;
      in_flight =
          (λ p r. later.keeps p (o.0 p r), AllSound-mono s.ack _ s.in_flight later h.in_flight);
      retired = λ p r. later.keeps p (h.retired p r);
    }

-- A datagram keeps the invariant, and all that was seen.
Receipt-Later : {a b : Ack} → Receipt a b → Inv a → Inv b × Later a b
Receipt-Later {a} (nothing e) v = rw e (v, record { keeps = λ p h. h; grows = omega arith })
Receipt-Later {a} (position trace now p st room e) v =
    let m = mark_ack_received-Marked trace now p a st v room in rw e (m.inv, Marked-Later m)
Receipt-Later {a} (control st seq e) v =
    let m = accept_reliable_control-Apart a st seq in
    rw e (m.inv v, record { keeps = λ p h. m.same_seen p ∙ h; grows = omega (arith, m.watermark) })

-- One step keeps what the camera retired within what the client received.
Step-Honest : {s u : Session} → Step s u → Honest s → Honest u
Step-Honest {s} (receive a r e) h =
    let (inv, later) = Receipt-Later r h.inv in
    rw e (record {
      inv = inv;
      outgoing = OutgoingSound-mono s.ack a s.outgoing later h.outgoing;
      in_flight = AllSound-mono s.ack a s.in_flight later h.in_flight;
      retired = λ q r. later.keeps q (h.retired q r);
    })
Step-Honest {s} (make ordinal tick e) h = rw e (made-Honest s ordinal tick h)
Step-Honest {s} (write t w o e) h = rw e (written-Honest s t w h o)
Step-Honest {s} (write_fails e) h =
    rw e (record { inv = h.inv; outgoing = tt; in_flight = h.in_flight; retired = h.retired })
Step-Honest {s} (deliver base t front back f e) h =
    let (this, rest) = AllSound-drop s.ack (base, t) front back (rw f at h.in_flight) in
    rw e (record {
      inv = h.inv;
      outgoing = h.outgoing;
      in_flight = rest;
      retired = λ p r. ground (arith, h.retired p, this p);
    })
Step-Honest {s} (lose base t front back f e) h = rw e (record {
  inv = h.inv;
  outgoing = h.outgoing;
  in_flight = (AllSound-drop s.ack (base, t) front back (rw f at h.in_flight)).1;
  retired = h.retired;
})

-- Honesty lasts through a session.
pub Reach-Honest : {s u : Session} → Honest s → Reach s u → Honest u
Reach-Honest h here = h
Reach-Honest h (next r st) = Step-Honest st (Reach-Honest h r)

-- In a session of receipts, reports made, written or failed, and deliveries in any order or not at
-- all, what the camera has dropped from its resend queue is what the client has received. The
-- session starts from an honest state.
pub retired_was_received :
    {s u : Session} (p : ℕ) → Honest s → Reach s u → u.retired p ≡ true → seen u.ack p ≡ true
retired_was_received p h r e = (Reach-Honest h r).retired p e
