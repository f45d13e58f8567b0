-- ===== src/Assembler/Datagram/Position.antt =====
-- What a datagram does to the reorder buffer and the position counters.
use ha_addon_petlibro_local.Prelude.{
  ap, ℕ, ◌+◌, ◌≤◌, ◌<◌, ◌≡◌, refl, inl, inr, Bool, Bool-cases, ◌||◌, Option, none, some, List, ltb,
  ◌==◌, length, u64_mod, arith,
}
use ha_addon_petlibro_local.Stats.{Counters}
use ha_addon_petlibro_local.Seq.{WrapSeq, extend}
use ha_addon_petlibro_local.Wire.Bytes.{at}
use ha_addon_petlibro_local.Media.Extended.{DecodedMedia}
use ha_addon_petlibro_local.Media.Control.{reliable_control_sequence}
use ha_addon_petlibro_local.Assembler.Channel.{PendingFrag}
use ha_addon_petlibro_local.Assembler.Buffer.{Client, Entry, deliver, drain_contiguous}
use ha_addon_petlibro_local.Assembler.Buffer.Deliver.{
  Drains, drains_idle, drains_next, Settled, drain_contiguous-Drains, Drains-Settled,
}
use ha_addon_petlibro_local.Assembler.Datagram.{
  stats_of, store_stats, handle_transport_control, respond, transport_control, accept_control,
  choose_media, raise_av_high, mark_received, store_frag, place_media, take_media, take_inner,
  inner_of, dispatch, parse_datagram,
}
use ha_addon_petlibro_local.Assembler.Counts.{count_channel, count_assembled}
use ha_addon_petlibro_local.Ack.Receive.{Ack}
use ha_addon_petlibro_local.Ack.Reliable.Apart.{accept_reliable_control-Apart}
use ha_addon_petlibro_local.Ack.Window.Session.{nothing, control}
use ha_addon_petlibro_local.Assembler.Stream.{with_stats}
use ha_addon_petlibro_local.Assembler.Delivery.{Feeds, feed}
use ha_addon_petlibro_local.Assembler.Delivery.Refine.{Drains-Feeds}
use ha_addon_petlibro_local.Assembler.Datagram.Steady.{
  Ready, Parsed, unmoved, Same-Parsed, Raised, raise_av_high-Raised, mark_received-Raised,
  late-Parsed, store_frag-Placed, Acked, Counted-Feeds, marked-Receipts, marked-Receipt,
}

deliver-wrap :
    (c : Client) (e : PendingFrag) {w : WrapSeq} → w ≡ (deliver c c.av_next_ext e).wrap → w ≡ c.wrap
unfolding deliver
deliver-wrap c e h = h

-- A drain leaves the wire counter.
Drains-wrap : {c c' : Client} {es : List Entry} → Drains c es c' → c'.wrap ≡ c.wrap
Drains-wrap (drains_idle hole) = refl
Drains-wrap {c = c} (drains_next {e = e} found rest) = deliver-wrap c e (Drains-wrap rest)

deliver-ack :
    (c : Client) (e : PendingFrag) {a : Ack} → a ≡ (deliver c c.av_next_ext e).ack → a ≡ c.ack
unfolding deliver
deliver-ack c e h = h

Drains-ack : {c c' : Client} {es : List Entry} → Drains c es c' → c'.ack ≡ c.ack
Drains-ack (drains_idle hole) = refl
Drains-ack {c = c} (drains_next {e = e} found rest) = deliver-ack c e (Drains-ack rest)

-- What the drain's result says of the client before the fragment.
Settled-Parsed :
    (c d : Client) (m : DecodedMedia) (p : ℕ) {c' : Client}
    → Raised c d p
    → Acked c d
    → {es : List Entry} → Feeds (feed (store_frag d m p)) es (feed c')
    → Settled (store_frag d m p) c'
    → c'.wrap ≡ (store_frag d m p).wrap
    → c'.ack ≡ (store_frag d m p).ack
    → Parsed c c'
unfolding store_frag
Settled-Parsed c d m p raised acked {es} l s wrap ack = record {
  ready = record { placed = s.placed; in_step = rw (s.same_high, wrap) raised.in_step };
  hole = λ h. s.hole;
  forward = omega (arith, s.forward, raised.next);
  rise = rw s.same_high raised.high;
  fed = (
    es,
    Counted-Feeds c (store_frag d m p) raised.next
        (
          (count_assembled (stats_of d)),
          ap (λ t. with_stats t (count_assembled (stats_of d))) raised.stream.1,
        )
        l,
  );
  receipts = λ v.
      let w = acked.receipts v in
      record { inv = rw ack w.inv; same_high = rw (ack, s.same_high) w.same_high };
  receipt = rw ack acked.receipt;
}

drain-Parsed :
    (c d : Client) (m : DecodedMedia) (p : ℕ)
    → Ready c
    → c.av_high_ext + 65536 < u64_mod
    → Raised c d p
    → Acked c d
    → c.av_next_ext ≤ p
    → Parsed c (drain_contiguous (store_frag d m p))
drain-Parsed c d m p r room raised acked ahead =
    let placed = store_frag-Placed c d m p r room raised ahead in
    let (es, run) = drain_contiguous-Drains (store_frag d m p) in
    Settled-Parsed c d m p raised acked (Drains-Feeds placed run) (Drains-Settled placed run)
      (Drains-wrap run) (Drains-ack run)

place_media-Parsed :
    (c : Client) (now : ℕ) (m : DecodedMedia) (position : Option ℕ)
    → Ready c
    → c.av_high_ext + 65536 < u64_mod
    → extend c.wrap m.sub_wire ≡ position
    → Parsed c (place_media c now m position)
unfolding place_media
place_media-Parsed c now m none r room e =
    Same-Parsed c _ r refl refl refl refl (_, refl) (λ v. v) refl (nothing refl)
place_media-Parsed c now m (some p) r room e =
    let raised = mark_received-Raised c _ now p p (raise_av_high-Raised c m.sub_wire p r e) in
    let wide : p + 1 < u64_mod = omega (arith, raised.reached, raised.high.1) in
    let acked : Acked c (mark_received (raise_av_high c p m.sub_wire) now p) = record {
      receipts = marked-Receipts c m.sub_wire now p wide;
      receipt = marked-Receipt c m.sub_wire now p wide;
    } in
    elim (Bool-cases (ltb p c.av_next_ext)) [
      | inl late ↦ rw late (late-Parsed c _ p _ r room raised acked)
      | inr ahead ↦ rw ahead (drain-Parsed c _ m p r room raised acked (ground arith))
    ]

transport_control-Parsed :
    (c : Client) (inner : List ℕ) (sent_ok : Bool)
    → Ready c
    → Parsed c (transport_control c inner sent_ok)
unfolding transport_control
transport_control-Parsed c inner sent_ok r =
    let (response, st) = handle_transport_control (stats_of c) inner in go response st
  where
    go :
        (response : Option (List ℕ)) (st : _)
        → Parsed c (respond (store_stats c st) response sent_ok)
    go none st =
        unfold respond in
        Same-Parsed c _ r refl refl refl refl (_, refl) (λ v. v) refl (nothing refl)
    go (some body) st =
        unfold respond in
        Same-Parsed c _ r refl refl refl refl (_, refl) (λ v. v) refl (nothing refl)

accept_control-Parsed : (c : Client) (seq : ℕ) → Ready c → Parsed c (accept_control c seq)
unfolding accept_control
accept_control-Parsed c seq r =
    let same = accept_reliable_control-Apart c.ack (stats_of c) seq in
    Same-Parsed c _ r refl refl refl refl (_, refl) same.inv same.high
      (control (stats_of c) seq refl)

store-Ready : (c : Client) (st : Counters) → Ready c → Ready (store_stats c st)
store-Ready c st r = record {
  placed = record { ordered = r.placed.ordered; room = r.placed.room };
  in_step = r.in_step;
}

-- Counting first is part of what is done to the client before.
store_first :
    (c : Client) (st : Counters) {c' : Client} → Parsed (store_stats c st) c' → Parsed c c'
store_first c st q = record {
  ready = q.ready;
  hole = q.hole;
  forward = q.forward;
  rise = q.rise;
  fed = (q.fed.0, Counted-Feeds c (store_stats c st) refl (st, refl) q.fed.1);
  receipts = λ v. q.receipts (record { inv = v.inv; same_high = v.same_high });
  receipt = q.receipt;
}

take_media-Parsed :
    (c : Client) (now : ℕ) (media : Option DecodedMedia)
    → Ready c
    → c.av_high_ext + 65536 < u64_mod
    → Parsed c (take_media c now media)
unfolding take_media
take_media-Parsed c now none r room = unmoved c r
take_media-Parsed c now (some m) r room =
    let st = count_channel (stats_of c) m.channel in
    store_first c st (place_media-Parsed (store_stats c st) now m _ (store-Ready c st r) room refl)

take_inner-Parsed :
    (c : Client) (now : ℕ) (inner : List ℕ) (control : Option ℕ)
    → Ready c
    → c.av_high_ext + 65536 < u64_mod
    → Parsed c (take_inner c now inner control)
unfolding take_inner
take_inner-Parsed c now inner (some seq) r room = accept_control-Parsed c seq r
take_inner-Parsed c now inner none r room = elim (Bool-cases (ltb (length inner) 36)) [
  | inl short ↦ rw short (unmoved c r)
  | inr long ↦ rw long (of_media (choose_media (stats_of c) inner))
]
  where
    of_media :
        (chosen : Option DecodedMedia × Counters)
        → Parsed c (take_media (store_stats c chosen.1) now chosen.0)
    of_media (media, st) =
        store_first c st (take_media-Parsed (store_stats c st) now media (store-Ready c st r) room)

dispatch-Parsed :
    (c : Client) (now : ℕ) (sent_ok : Bool) (inner : Option (List ℕ))
    → Ready c
    → c.av_high_ext + 65536 < u64_mod
    → Parsed c (dispatch c now sent_ok inner)
unfolding dispatch
dispatch-Parsed c now sent_ok none r room = unmoved c r
dispatch-Parsed c now sent_ok (some inner) r room =
    elim (Bool-cases (at inner 0 == 0x09 || at inner 0 == 0x0a || at inner 0 == 0x0b)) [
      | inl transport ↦ rw transport (transport_control-Parsed c inner sent_ok r)
      | inr other ↦ elim (Bool-cases (at inner 0 == 0x0c)) [
        | inl data_family ↦
            rw (other, data_family)
              (take_inner-Parsed c now inner (reliable_control_sequence inner) r room)
        | inr unknown ↦ rw (other, unknown) (unmoved c r)
      ]
    ]

-- Whatever the bytes of a datagram, a ready client far from 64 bits is ready for the next one: the
-- buffered positions lie between the next one and the highest one, and the wire counter is in step.
-- A next position that was not waiting leaves one that is not waiting, neither counter moves back,
-- and the highest position rises by at most 32768. The stream is only fed and counted, and a valid
-- receive state stays valid and takes at most one receipt.
pub parse_datagram-Parsed :
    (c : Client) (now : ℕ) (sent_ok : Bool) (pkt : List ℕ)
    → Ready c
    → c.av_high_ext + 65536 < u64_mod
    → Parsed c (parse_datagram c now sent_ok pkt)
unfolding parse_datagram
parse_datagram-Parsed c now sent_ok pkt r room = dispatch-Parsed c now sent_ok (inner_of pkt) r room
