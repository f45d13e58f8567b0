-- ===== src/Assembler/Datagram/Steady.antt =====
-- The state between two datagrams, and what receiving one position does to it.
use mathlib.Core.Path.{subst}
use ha_addon_petlibro_local.Prelude.{
  sym, ap, ◌∙◌, [], ℕ, ◌+◌, ◌≤◌, ◌<◌, ◌≡◌, refl, inl, inr, Bool-cases, none, some, List,
  if◌then◌else◌, ltb, u64_mod, arith, add64,
}
use ha_addon_petlibro_local.Stats.{Counters}
use ha_addon_petlibro_local.Seq.{WrapSeq, extend, advance_to, advance_past}
use ha_addon_petlibro_local.Media.Extended.{DecodedMedia}
use ha_addon_petlibro_local.Ack.Receive.{mark_ack_received}
use ha_addon_petlibro_local.Ack.Receive.Invariant.{mark_ack_received-Marked}
use ha_addon_petlibro_local.Ack.Receive.Advance.{Inv}
use ha_addon_petlibro_local.Ack.Window.Session.{Receipt, nothing, position}
use ha_addon_petlibro_local.Assembler.Stream.{Stream, with_stats}
use ha_addon_petlibro_local.Assembler.Delivery.{Feed, Feeds, idle, counts, feed, count_in}
use ha_addon_petlibro_local.Assembler.Buffer.{Client, Entry, find_frag}
use ha_addon_petlibro_local.Assembler.Buffer.Ordered.{Ordered-weaken, put_frag-Ordered}
use ha_addon_petlibro_local.Assembler.Buffer.Deliver.{Placed}
use ha_addon_petlibro_local.Assembler.Datagram.{
  stats_of, store_stats, pending_frag, raise_av_high, mark_received, store_frag,
}

-- Between two datagrams or ticks: the buffer is placed, and the wire counter stands at the highest
-- position or, before the first fragment, one ahead.
pub record Ready (c : Client) : Type 0 where
  pub placed : Placed c
  pub in_step : (c.av_high_ext ≤ c.wrap.ext) × (c.wrap.ext ≤ c.av_high_ext + 1)

-- The receive state is valid, and its high mark is the buffer's.
pub record Receipts (c : Client) : Type 0 where
  pub inv : Inv c.ack
  pub same_high : c.ack.high ≡ c.av_high_ext

-- Only the counters of a stream differ.
abbrev pub Counted : Stream → Stream → Type 0
Counted s s' = (st : Counters) × (s' ≡ with_stats s st)

-- What a datagram does: the counters move forward, fragments are emitted as the feed allows, and the
-- receive state stays valid.
pub record Parsed (c c' : Client) : Type 0 where
  pub ready : Ready c'
  pub hole :
      find_frag c.av_buffer c.av_next_ext ≡ none → find_frag c'.av_buffer c'.av_next_ext ≡ none
  pub forward : c.av_next_ext ≤ c'.av_next_ext
  pub rise : (c.av_high_ext ≤ c'.av_high_ext) × (c'.av_high_ext < c.av_high_ext + 32769)
  pub fed : (es : List Entry) × Feeds (feed c) es (feed c')
  pub receipts : Receipts c → Receipts c'
  pub receipt : Receipt c.ack c'.ack

pub unmoved : (c : Client) → Ready c → Parsed c c
unmoved c r = record {
  ready = r;
  hole = λ h. h;
  forward = omega arith;
  rise = (omega arith, omega arith);
  fed = ([], idle);
  receipts = λ v. v;
  receipt = nothing refl;
}

Counted-feed :
    (c c' : Client) (st : Counters)
    → c'.av_next_ext ≡ c.av_next_ext
    → c'.stream ≡ with_stats c.stream st
    → feed c' ≡ count_in (feed c) st
Counted-feed c c' st next stream = rw (next, stream) refl

-- Where only counters changed, nothing was emitted.
pub Counted-Feeds :
    (c c' : Client)
    → c'.av_next_ext ≡ c.av_next_ext
    → Counted c.stream c'.stream
    → {es : List Entry} {g : Feed} → Feeds (feed c') es g
    → Feeds (feed c) es g
Counted-Feeds c c' next (st, stream) {es} {g} l =
    counts st (subst (λ f. Feeds f es g) (Counted-feed c c' st next stream) l)

-- A change of the counters, the reliable position or the sent bodies moves nothing.
pub Same-Parsed :
    (c c' : Client)
    → Ready c
    → c'.av_buffer ≡ c.av_buffer
    → c'.av_next_ext ≡ c.av_next_ext
    → c'.av_high_ext ≡ c.av_high_ext
    → c'.wrap ≡ c.wrap
    → Counted c.stream c'.stream
    → (Inv c.ack → Inv c'.ack)
    → c'.ack.high ≡ c.ack.high
    → Receipt c.ack c'.ack
    → Parsed c c'
Same-Parsed c c' r buffer next high wrap stream inv ack_high receipt = record {
  ready = record {
    placed = record {
      ordered = rw (buffer, next, high) r.placed.ordered;
      room = rw high r.placed.room;
    };
    in_step = rw (high, wrap) r.in_step;
  };
  hole = λ h. rw (buffer, next) h;
  forward = rw next (omega arith);
  rise = rw high (omega arith, omega arith);
  fed = ([], Counted-Feeds c c' next stream idle);
  receipts = λ v. record { inv = inv v.inv; same_high = ack_high ∙ v.same_high ∙ sym high };
  receipt = receipt;
}

-- The client after the position is known and its receipt is recorded.
pub record Raised (c c' : Client) (p : ℕ) : Type 0 where
  pub buffer : c'.av_buffer ≡ c.av_buffer
  pub next : c'.av_next_ext ≡ c.av_next_ext
  pub high : (c.av_high_ext ≤ c'.av_high_ext) × (c'.av_high_ext < c.av_high_ext + 32769)
  pub reached : p ≤ c'.av_high_ext
  pub stream : Counted c.stream c'.stream
  pub in_step : (c'.av_high_ext ≤ c'.wrap.ext) × (c'.wrap.ext ≤ c'.av_high_ext + 1)

extend_lt : (w : WrapSeq) (wire : ℕ) {p : ℕ} → extend w wire ≡ some p → p < w.ext + 32768
unfolding extend add64
extend_lt w wire h = ground arith

advance_to-eq :
    (w : WrapSeq) (wire : ℕ) {p : ℕ}
    → extend w wire ≡ some p
    → (advance_to w wire).ext ≡ (if ltb w.ext p then p else w.ext)
unfolding advance_to advance_past
advance_to-eq w wire {p = p} h = elim (Bool-cases (ltb w.ext p)) [
  | inl ahead ↦ rw (h, ahead) refl
  | inr behind ↦ rw (h, behind) refl
]

pub raise_av_high-Raised :
    (c : Client) (wire p : ℕ)
    → Ready c
    → extend c.wrap wire ≡ some p
    → Raised c (raise_av_high c p wire) p
unfolding raise_av_high
raise_av_high-Raised c wire p r e =
    let bound = extend_lt c.wrap wire e in
    let new = advance_to-eq c.wrap wire e in
    elim (Bool-cases (ltb c.av_high_ext p)) [
      | inl higher ↦ rw higher (record {
        buffer = refl;
        next = refl;
        high = (ground arith, ground (arith, bound, r.in_step.1));
        reached = ground arith;
        stream = (c.stream.stats, refl);
        in_step = (ground (arith, new, r.in_step.0), ground (arith, new, r.in_step.1));
      })
      | inr known ↦ rw known (record {
        buffer = refl;
        next = refl;
        high = (omega arith, omega arith);
        reached = ground arith;
        stream = (c.stream.stats, refl);
        in_step = r.in_step;
      })
    ]

pub mark_received-Raised :
    (c d : Client) (now p q : ℕ) → Raised c d p → Raised c (mark_received d now q) p
unfolding mark_received
mark_received-Raised c d now p q r = record {
  buffer = r.buffer;
  next = r.next;
  high = r.high;
  reached = r.reached;
  stream = (
    (mark_ack_received d.trace now d.ack (stats_of d) q).1,
    ap (λ t. with_stats t (mark_ack_received d.trace now d.ack (stats_of d) q).1) r.stream.1,
  );
  in_step = r.in_step;
}

-- Marking the position that the high mark was raised for keeps the receive state valid.
pub marked-Receipts :
    (c : Client) (wire now p : ℕ)
    → p + 1 < u64_mod
    → Receipts c
    → Receipts (mark_received (raise_av_high c p wire) now p)
unfolding mark_received raise_av_high
marked-Receipts c wire now p room v =
    let m = mark_ack_received-Marked c.trace now p c.ack (stats_of c) v.inv room in
    elim (Bool-cases (ltb c.av_high_ext p)) [
      | inl higher ↦ rw higher (record {
        inv = m.inv;
        same_high = ground (arith, m.high_grows, m.high_covers, m.high_from, v.same_high);
      })
      | inr known ↦ rw known (record {
        inv = m.inv;
        same_high = ground (arith, m.high_grows, m.high_covers, m.high_from, v.same_high);
      })
    ]

pub marked-Receipt :
    (c : Client) (wire now p : ℕ)
    → p + 1 < u64_mod
    → Receipt c.ack (mark_received (raise_av_high c p wire) now p).ack
unfolding mark_received raise_av_high
marked-Receipt c wire now p room = elim (Bool-cases (ltb c.av_high_ext p)) [
  | inl higher ↦ rw higher (position c.trace now p (stats_of c) room refl)
  | inr known ↦ rw known (position c.trace now p (stats_of c) room refl)
]

-- What is done to the receive state before a fragment is placed.
pub record Acked (c d : Client) : Type 0 where
  pub receipts : Receipts c → Receipts d
  pub receipt : Receipt c.ack d.ack

pub late-Parsed :
    (c d : Client) (p : ℕ) (st : Counters)
    → Ready c
    → c.av_high_ext + 65536 < u64_mod
    → Raised c d p
    → Acked c d
    → Parsed c (store_stats d st)
late-Parsed c d p st r room raised acked = record {
  ready = record {
    placed = record {
      ordered =
          rw (raised.buffer, raised.next)
            (Ordered-weaken _ _ _ _ c.av_buffer r.placed.ordered (omega arith) raised.high.0);
      room = omega (arith, raised.high.1);
    };
    in_step = raised.in_step;
  };
  hole = λ h. rw (raised.buffer, raised.next) h;
  forward = rw raised.next (omega arith);
  rise = raised.high;
  fed = (
    [],
    Counted-Feeds c (store_stats d st) raised.next (st, ap (λ t. with_stats t st) raised.stream.1)
        idle,
  );
  receipts = λ v. let w = acked.receipts v in record { inv = w.inv; same_high = w.same_high };
  receipt = acked.receipt;
}

pub store_frag-Placed :
    (c d : Client) (m : DecodedMedia) (p : ℕ)
    → Ready c
    → c.av_high_ext + 65536 < u64_mod
    → Raised c d p
    → c.av_next_ext ≤ p
    → Placed (store_frag d m p)
unfolding store_frag
store_frag-Placed c d m p r room raised ahead = record {
  ordered =
      rw (raised.buffer, raised.next)
        (put_frag-Ordered c.av_next_ext c.av_high_ext d.av_high_ext c.av_buffer p (pending_frag m p)
          r.placed.ordered ahead raised.reached raised.high.0);
  room = omega (arith, raised.high.1);
}
