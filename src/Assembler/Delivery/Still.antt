-- ===== src/Assembler/Delivery/Still.antt =====
-- What a tick of `forceDrain` leaves alone: the highest position, the wire counter and the receive
-- state.
use ha_addon_petlibro_local.Prelude.{
  ◌-◌, ◌≡◌, refl, ◌∙◌, inl, inr, Bool, true, false, Bool-cases, List, [], ◌∷◌, length, leb, ltb,
  ◌==◌, ℕ,
}
use ha_addon_petlibro_local.Assembler.Buffer.{
  Entry, Client, deliver, due, flush_keys, flush_due, reset_stall, watch_stall, force_drain,
  force_drain_stall_ticks,
}
use ha_addon_petlibro_local.Assembler.Buffer.Ticks.{busy_tick, force_drain-busy}

pub record Still (c c' : Client) : Type 0 where
  pub high : c'.av_high_ext ≡ c.av_high_ext
  pub wrap : c'.wrap ≡ c.wrap
  pub ack : c'.ack ≡ c.ack

own : (c : Client) → Still c c
own c = record { high = refl; wrap = refl; ack = refl }

then-Still : {c d e : Client} → Still c d → Still d e → Still c e
then-Still s t = record { high = t.high ∙ s.high; wrap = t.wrap ∙ s.wrap; ack = t.ack ∙ s.ack }

flush_keys-Still : (es : List Entry) (c : Client) → Still c (flush_keys c es)
unfolding flush_keys deliver
flush_keys-Still [] c = own c
flush_keys-Still ((i, e) ∷ es) c =
    let s = flush_keys-Still es (deliver c i e) in
    record { high = s.high; wrap = s.wrap; ack = s.ack }

reset_stall-Still : (stalled : Bool) (c : Client) → Still c (reset_stall stalled c)
unfolding reset_stall
reset_stall-Still true c = record { high = refl; wrap = refl; ack = refl }
reset_stall-Still false c = own c

flush_due-Still :
    (c : Client) (stalled : Bool) (threshold : ℕ) → Still c (flush_due c stalled threshold)
unfolding flush_due
flush_due-Still c stalled threshold =
    let es = due stalled threshold c.av_buffer in
    elim (Bool-cases (length es == 0)) [
      | inl none_due ↦ rw none_due (own c)
      | inr some_due ↦
          let s = flush_keys-Still es _ in
          rw some_due (
            then-Still (record { high = s.high; wrap = s.wrap; ack = s.ack })
              (reset_stall-Still stalled _))
    ]

busy_tick-Still : (c : Client) (stalled : Bool) → Still c (busy_tick c stalled)
unfolding busy_tick
busy_tick-Still c true = flush_due-Still c true c.av_high_ext
busy_tick-Still c false = elim (Bool-cases (ltb c.av_high_ext 8)) [
  | inl low ↦ rw low (own c)
  | inr high ↦ rw high (flush_due-Still c false (c.av_high_ext - 8))
]

watch_stall-Still : (c : Client) → Still c (watch_stall c)
unfolding watch_stall
watch_stall-Still c = elim (Bool-cases (c.av_high_ext == c.last_high_ext)) [
  | inl same ↦ rw same (record { high = refl; wrap = refl; ack = refl })
  | inr moved ↦ rw moved (record { high = refl; wrap = refl; ack = refl })
]

pub force_drain-Still : (c : Client) → Still c (force_drain c)
force_drain-Still c = elim (Bool-cases (length c.av_buffer == 0)) [
  | inl nothing_left ↦
      unfold force_drain in rw nothing_left (record { high = refl; wrap = refl; ack = refl })
  | inr busy ↦
      let stalled = leb force_drain_stall_ticks (watch_stall c).stall_ticks in
      rw (force_drain-busy c busy)
        (then-Still (watch_stall-Still c) (busy_tick-Still (watch_stall c) stalled))
]
