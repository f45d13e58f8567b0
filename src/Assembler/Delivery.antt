-- ===== src/Assembler/Delivery.antt =====
-- What the reassembler promises, apart from datagrams, buffers and ticks: fragments reach `emit` by
-- rising position, each position at most once, and nothing else touches the stream's state than the
-- counters.
pub mod Refine
pub mod Still
use ha_addon_petlibro_local.Prelude.{
  ℕ, suc, ◌+◌, ◌≤◌, ◌<◌, ◌≡◌, refl, List, [], ◌∷◌, ◌++◌, add64, add64-eq, u64_mod, arith,
}
use ha_addon_petlibro_local.Stats.{Counters}
use ha_addon_petlibro_local.Assembler.Channel.{PendingFrag}
use ha_addon_petlibro_local.Assembler.Stream.{Stream, with_stats}
use ha_addon_petlibro_local.Assembler.Emit.{emit}
use ha_addon_petlibro_local.Assembler.Buffer.{Entry, Client, deliver}
use ha_addon_petlibro_local.Assembler.Buffer.Ordered.{Ordered}

-- The abstract state: the lowest position that may still be emitted, and the stream.
pub record Feed : Type 0 where
  pub next : ℕ
  pub stream : Stream

abbrev pub count_in : Feed → Counters → Feed
count_in f st = record f { stream = with_stats f.stream st }

abbrev pub emit_at : Feed → ℕ → PendingFrag → Feed
emit_at f k e = record { next = suc k; stream = emit f.stream e }

-- `Feeds f es g`: from `f`, the fragments `es` are emitted in this order, and `g` is left.
pub data Feeds : Feed → List Entry → Feed → Type 0 where
  idle : {f : Feed} → Feeds f [] f
  counts :
      {f g : Feed} {es : List Entry} (st : Counters) → Feeds (count_in f st) es g → Feeds f es g
  emits :
      {f g : Feed} {es : List Entry} (k : ℕ) (e : PendingFrag)
      → f.next ≤ k
      → Feeds (emit_at f k e) es g
      → Feeds f ((k, e) ∷ es) g

pub Feeds-trans :
    {f g h : Feed} {es fs : List Entry} → Feeds f es g → Feeds g fs h → Feeds f (es ++ fs) h
Feeds-trans idle r = r
Feeds-trans (counts st l) r = counts st (Feeds-trans l r)
Feeds-trans (emits k e below l) r = emits k e below (Feeds-trans l r)

Feeds-forward : {f g : Feed} {es : List Entry} → Feeds f es g → f.next ≤ g.next
Feeds-forward idle = omega arith
Feeds-forward (counts st l) = Feeds-forward l
Feeds-forward (emits k e below l) = omega (arith, Feeds-forward l)

-- The emitted positions rise from the feed's next one, and all stay below its last next one.
pub Feeds-Ordered :
    {f g : Feed} {es : List Entry} (hi : ℕ) → Feeds f es g → g.next ≤ suc hi → Ordered f.next es hi
Feeds-Ordered hi idle top = tt
Feeds-Ordered hi (counts st l) top = Feeds-Ordered hi l top
Feeds-Ordered hi (emits k e below l) top =
    (below, omega (arith, Feeds-forward l), Feeds-Ordered hi l top)

-- The abstract state of a client.
abbrev pub feed : Client → Feed
feed c = record { next = c.av_next_ext; stream = c.stream }

-- One delivery of the client is one emission.
pub deliver-feed :
    (c : Client) (k : ℕ) (e : PendingFrag)
    → k + 1 < u64_mod
    → feed (deliver c k e) ≡ emit_at (feed c) k e
unfolding deliver
deliver-feed c k e room =
    let one : add64 k 1 ≡ suc k = omega (arith, add64-eq k 1 room) in rw one refl
