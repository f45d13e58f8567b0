-- ===== src/Ack/Receive/Invariant.antt =====
-- The invariant of the receive-side ACK state, and what one received position does to the set of
-- positions that count as seen.
use ha_addon_petlibro_local.Prelude.{
  ℕ, ◌+◌, ◌≤◌, ◌<◌, ◌≡◌, refl, ◌∙◌, if◌then◌else◌, ◌⊎◌, inl, inr, true, false, ◌||◌, List, ◌==◌,
  ltb, leb, Bool-cases, add64, add64-eq, sub64-eq, arith, length, u64_mod,
}
use ha_addon_petlibro_local.Stats.{Counters}
use ha_addon_petlibro_local.Ack.Ranges.{
  AckSeenRange, Insertion, inserted, duplicate, overflow, insert_ack_seen, max_ack_seen_ranges,
}
use ha_addon_petlibro_local.Ack.Ranges.Insert.{Adds, Inserts, insert_ack_seen-Inserts}
use ha_addon_petlibro_local.Ack.Receive.{
  Ack, AckTrace, seen, advance, raise_high, restart_gap, watch_gap, take_ranges, accept_range,
  record_position, advanced_by, mark_ack_received,
}
use ha_addon_petlibro_local.Ack.Receive.Advance.{
  Inv, Separated-mono, size-le, advance-Advanced, raise_high-Inv,
}

-- The fields that the invariant and `seen` read, and which the gap clock leaves alone.
record SameCore (a b : Ack) : Type 0 where
  watermark : b.watermark ≡ a.watermark
  high : b.high ≡ a.high
  reported : b.reported ≡ a.reported
  ranges : b.seen_ranges ≡ a.seen_ranges
  pending : b.seen_pending ≡ a.seen_pending

gap-SameCore :
    (t : AckTrace) (now advanced : ℕ) (a : Ack)
    → SameCore a (watch_gap t now (restart_gap t now advanced a))
unfolding watch_gap restart_gap
gap-SameCore t now advanced a = ground arith

SameCore-Inv : (a b : Ack) → SameCore a b → Inv a → Inv b
SameCore-Inv a b e v = record {
  separated = rw (e.watermark, e.ranges) v.separated;
  below = rw (e.high, e.ranges) v.below;
  water = omega (arith, e.watermark, e.high, v.water);
  honest = omega (arith, e.watermark, e.reported, v.honest);
  counted = rw (e.pending, e.ranges) v.counted;
  capped = rw e.ranges v.capped;
  bounded = rw e.high v.bounded;
}

-- What a newly seen position makes of the state.
record Took (a : Ack) (s : ℕ) (b : Ack) : Type 0 where
  inv : Inv b
  grows : a.watermark ≤ b.watermark
  high : b.high ≡ a.high
  reported : b.reported ≡ a.reported
  exactly : (p : ℕ) → seen b p ≡ (seen a p || p == s)

take_ranges-Took :
    (a : Ack) (s : ℕ) (out : List AckSeenRange)
    → Inv a
    → Adds a.watermark a.high a.seen_ranges s out
    → length out ≤ max_ack_seen_ranges
    → Took a s (take_ranges a out)
unfolding take_ranges
take_ranges-Took a s out v adds cap =
    let total = size-le a.watermark a.high out v.water adds.separated adds.below in
    let w =
      advance-Advanced 0 a.watermark a.high out v.water v.bounded (omega (arith, v.bounded))
        adds.separated adds.below in
    let plus = add64-eq a.seen_pending 1 (omega (arith, v.counted, v.bounded, adds.one_more)) in
    let minus =
      sub64-eq (add64 a.seen_pending 1) (advance 0 a.watermark out).0
        (omega (arith, v.counted, adds.one_more, w.counts, w.moved))
        (omega (arith, v.counted, v.bounded, adds.one_more)) in
    record {
      inv = record {
        separated = w.separated;
        below = w.below;
        water = w.water;
        honest = omega (arith, v.honest, w.grows);
        counted = omega (arith, v.counted, adds.one_more, w.counts, w.moved);
        capped = omega (arith, w.count_le);
        bounded = v.bounded;
      };
      grows = w.grows;
      high = refl;
      reported = refl;
      exactly = λ p. ground (arith, w.same p, adds.exactly p);
    }

-- What one call of `markACKReceived` for position `s` makes of the state `a`: `added` when `s` was
-- new, `known` when it was seen already, `refused` when it was new and 256 ranges are held.
pub data Outcome (a : Ack) (s : ℕ) (b : Ack) : Type 0 where
  added : seen a s ≡ false → ((p : ℕ) → seen b p ≡ (seen a p || p == s)) → Outcome a s b
  known : seen a s ≡ true → ((p : ℕ) → seen b p ≡ seen a p) → Outcome a s b
  refused :
      seen a s ≡ false
      → length a.seen_ranges ≡ max_ack_seen_ranges
      → ((p : ℕ) → seen b p ≡ seen a p)
      → Outcome a s b

pub record Marked (a : Ack) (s : ℕ) (b : Ack) : Type 0 where
  pub inv : Inv b
  pub grows : a.watermark ≤ b.watermark
  pub reported : b.reported ≡ a.reported
  pub high_grows : a.high ≤ b.high
  pub high_covers : s ≤ b.high
  pub high_from : (b.high ≡ a.high) ⊎ (b.high ≡ s)
  pub outcome : Outcome a s b

record_position-Marked :
    (t : AckTrace) (now s : ℕ) (a : Ack) (st : Counters) (i : Insertion)
    → Inv a
    → s ≤ a.high
    → a.watermark < s
    → Inserts a.watermark a.high (length a.seen_ranges) a.seen_ranges s i
    → Marked a s (record_position t now a st i).0
unfolding record_position accept_range
record_position-Marked t now s a st (inserted out) v hs hw (adds, fresh, room) =
    let took = take_ranges-Took a s out v adds (omega (arith, v.capped, adds.count_le, room)) in
    let core = gap-SameCore t now (advanced_by a out) (take_ranges a out) in
    record {
      inv = SameCore-Inv (take_ranges a out) _ core took.inv;
      grows = omega (arith, core.watermark, took.grows);
      reported = core.reported ∙ took.reported;
      high_grows = omega (arith, core.high, took.high);
      high_covers = omega (arith, core.high, took.high);
      high_from = inl (core.high ∙ took.high);
      outcome = added (ground arith) (λ p. rw (core.watermark, core.ranges) (took.exactly p));
    }
record_position-Marked t now s a st duplicate v hs hw dup = record {
  inv = v;
  grows = omega arith;
  reported = refl;
  high_grows = omega arith;
  high_covers = hs;
  high_from = inl refl;
  outcome = known (ground arith) (λ p. refl);
}
record_position-Marked t now s a st overflow v hs hw (full, fresh) = record {
  inv = v;
  grows = omega arith;
  reported = refl;
  high_grows = omega arith;
  high_covers = hs;
  high_from = inl refl;
  outcome = refused (ground arith) (omega (arith, v.capped)) (λ p. refl);
}

-- The state with the high mark raised differs from the state in that mark only.
Marked-raise :
    (a b : Ack) (s hi : ℕ)
    → a.high ≤ hi
    → (hi ≡ a.high) ⊎ (hi ≡ s)
    → Marked (record a { high = hi }) s b
    → Marked a s b
Marked-raise a b s hi le from m = record {
  inv = m.inv;
  grows = m.grows;
  reported = m.reported;
  high_grows = omega (arith, m.high_grows);
  high_covers = m.high_covers;
  high_from = ground (arith, m.high_from);
  outcome = elim m.outcome [
    | added fresh exactly ↦ added fresh exactly
    | known old same ↦ known old same
    | refused fresh full same ↦ refused fresh full same
  ];
}

placed-Marked :
    (t : AckTrace) (now s : ℕ) (a : Ack) (st st' : Counters)
    → Inv a
    → s ≤ a.high
    → Marked a s
        (if leb s a.watermark
          then (a, st)
          else record_position t now a st' (insert_ack_seen a.seen_ranges s)).0
placed-Marked t now s a st st' v h = elim (Bool-cases (leb s a.watermark)) [
  | inl old ↦ rw old (record {
    inv = v;
    grows = omega arith;
    reported = refl;
    high_grows = omega arith;
    high_covers = h;
    high_from = inl refl;
    outcome = known (rw old refl) (λ p. refl);
  })
  | inr above ↦ rw above (
      record_position-Marked t now s a st' _ v h (ground arith) (
        insert_ack_seen-Inserts a.watermark a.high s a.seen_ranges v.bounded h (ground arith)
          (Separated-mono a.seen_ranges (omega arith) v.separated) v.below))
]

-- `markACKReceived` keeps the invariant, never moves the watermark back, leaves the reported
-- position alone, raises the high mark just as far as the position needs, and makes that position
-- seen and no other, unless it was seen already or 256 ranges are held.
pub mark_ack_received-Marked :
    (t : AckTrace) (now s : ℕ) (a : Ack) (st : Counters)
    → Inv a
    → s + 1 < u64_mod
    → Marked a s (mark_ack_received t now a st s).0
unfolding mark_ack_received raise_high
mark_ack_received-Marked t now s a st v h =
    let raised = raise_high-Inv a s v h in
    elim (Bool-cases (ltb a.high s)) [
      | inl up ↦
          rw (up, raise_high)
            (Marked-raise a _ s s (ground arith) (inr refl) (
              placed-Marked t now s (record a { high = s }) _ _ (rw (up, raise_high) at raised.0)
                (omega arith)))
      | inr same ↦ rw (same, raise_high) (placed-Marked t now s a _ _ v (ground arith))
    ]
