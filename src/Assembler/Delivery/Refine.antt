-- ===== src/Assembler/Delivery/Refine.antt =====
-- `drainContiguous` and `forceDrain` deliver as the abstract feed allows.
use mathlib.Core.Path.{subst}
use ha_addon_petlibro_local.Prelude.{
  ℕ, suc, ◌+◌, ◌-◌, ◌≤◌, ◌<◌, ◌≡◌, refl, inl, inr, Bool, true, false, Bool-cases, List, [], ◌∷◌,
  ◌++◌, length, ltb, leb, ◌==◌, add64-eq, u64_mod, arith,
}
use ha_addon_petlibro_local.Assembler.Channel.{PendingFrag}
use ha_addon_petlibro_local.Assembler.Buffer.{
  Entry, Client, deliver, due, flush_keys, flush_due, reset_stall, watch_stall, force_drain,
  force_drain_stall_ticks,
}
use ha_addon_petlibro_local.Assembler.Buffer.Ordered.{Ordered, find_frag_le}
use ha_addon_petlibro_local.Assembler.Buffer.Deliver.{
  Drains, drains_idle, drains_next, Placed, deliver-Placed,
}
use ha_addon_petlibro_local.Assembler.Buffer.Flush.{kept, due_all, due_prefix}
use ha_addon_petlibro_local.Assembler.Buffer.Ticks.{busy_tick, watch_stall-Placed, force_drain-busy}
use ha_addon_petlibro_local.Assembler.Delivery.{
  Feed, Feeds, idle, counts, emits, feed, deliver-feed,
}

-- One delivery at or above the next position, and what follows it.
deliver-Feeds :
    (c : Client) (k : ℕ) {e : PendingFrag} {es : List Entry} {g : Feed}
    → c.av_next_ext ≤ k
    → k + 1 < u64_mod
    → Feeds (feed (deliver c k e)) es g
    → Feeds (feed c) ((k, e) ∷ es) g
deliver-Feeds c k {e} {es} {g} below room l =
    emits k e below (subst (λ f. Feeds f es g) (deliver-feed c k e room) l)

pub Drains-Feeds :
    {c c' : Client} {es : List Entry} → Placed c → Drains c es c' → Feeds (feed c) es (feed c')
Drains-Feeds p (drains_idle hole) = idle
Drains-Feeds {c = c} p (drains_next {e = e} found rest) =
    let below = find_frag_le _ _ c.av_buffer c.av_next_ext p.ordered found in
    deliver-Feeds c c.av_next_ext (omega arith) (omega (arith, below, p.room))
      (Drains-Feeds (deliver-Placed c e p found) rest)

next-deliver :
    (c : Client) (k : ℕ) (e : PendingFrag) → k + 1 < u64_mod → (deliver c k e).av_next_ext ≡ suc k
unfolding deliver
next-deliver c k e room = omega (arith, add64-eq k 1 room)

flush_keys-Feeds :
    (c : Client) (hi : ℕ) (es : List Entry)
    → Ordered c.av_next_ext es hi
    → hi + 1 < u64_mod
    → Feeds (feed c) es (feed (flush_keys c es))
unfolding flush_keys
flush_keys-Feeds c hi [] o room = idle
flush_keys-Feeds c hi ((k, e) ∷ es) (p, q, r) room =
    let next = next-deliver c k e (omega arith) in
    deliver-Feeds c k p (omega arith) (flush_keys-Feeds (deliver c k e) hi es (rw next r) room)

Ordered-front :
    (lo hi : ℕ) (front back : List Entry) → Ordered lo (front ++ back) hi → Ordered lo front hi
Ordered-front lo hi [] back h = tt
Ordered-front lo hi ((k, e) ∷ front) back (p, q, r) = (p, q, Ordered-front (suc k) hi front back r)

due-Ordered :
    (stalled : Bool) (threshold lo hi : ℕ) (b : List Entry)
    → Ordered lo b hi
    → Ordered lo (due stalled threshold b) hi
due-Ordered true threshold lo hi b h = rw (due_all threshold b) h
due-Ordered false threshold lo hi b h =
    Ordered-front lo hi (due false threshold b) (kept threshold b)
      (rw (due_prefix lo hi threshold b h) at h)

feed-reset_stall : (stalled : Bool) (c : Client) → feed (reset_stall stalled c) ≡ feed c
unfolding reset_stall
feed-reset_stall true c = refl
feed-reset_stall false c = refl

flush_due-Feeds :
    (c : Client) (stalled : Bool) (threshold : ℕ)
    → Placed c
    → (es : List Entry) × Feeds (feed c) es (feed (flush_due c stalled threshold))
unfolding flush_due
flush_due-Feeds c stalled threshold p =
    let es = due stalled threshold c.av_buffer in
    elim (Bool-cases (length es == 0)) [
      | inl none_due ↦ rw none_due ([], idle)
      | inr some_due ↦
          rw (some_due, feed-reset_stall)
            (
              es,
              counts _ (
                  flush_keys-Feeds _ c.av_high_ext es
                    (due-Ordered stalled threshold _ _ _ p.ordered) p.room),
            )
    ]

busy_tick-Feeds :
    (c : Client) (stalled : Bool)
    → Placed c
    → (es : List Entry) × Feeds (feed c) es (feed (busy_tick c stalled))
unfolding busy_tick
busy_tick-Feeds c true p = flush_due-Feeds c true c.av_high_ext p
busy_tick-Feeds c false p = elim (Bool-cases (ltb c.av_high_ext 8)) [
  | inl low ↦ rw low ([], idle)
  | inr high ↦ rw high (flush_due-Feeds c false (c.av_high_ext - 8) p)
]

feed-watch_stall : (c : Client) → feed (watch_stall c) ≡ feed c
unfolding watch_stall
feed-watch_stall c = elim (Bool-cases (c.av_high_ext == c.last_high_ext)) [
  | inl same ↦ rw same refl
  | inr moved ↦ rw moved refl
]

-- A tick delivers as the feed allows.
pub force_drain-Feeds :
    (c : Client) → Placed c → (es : List Entry) × Feeds (feed c) es (feed (force_drain c))
force_drain-Feeds c p = elim (Bool-cases (length c.av_buffer == 0)) [
  | inl nothing_left ↦ unfold force_drain in rw nothing_left ([], idle)
  | inr busy ↦
      let stalled = leb force_drain_stall_ticks (watch_stall c).stall_ticks in
      let (es, l) = busy_tick-Feeds (watch_stall c) stalled (watch_stall-Placed c p) in
      rw (force_drain-busy c busy) (
        es,
        subst (λ f. Feeds f es (feed (busy_tick (watch_stall c) stalled))) (feed-watch_stall c) l,
      )
]
