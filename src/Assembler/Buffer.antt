-- ===== src/Assembler/Buffer.antt =====
-- The reorder buffer of pkg/petlibro/assembler.go: `drainContiguous` and `forceDrain`.
pub mod Ordered
pub mod Deliver
pub mod Flush
pub mod Ticks
pub mod Stall
use ha_addon_petlibro_local.Prelude.{
  ℕ, zero, suc, ◌-◌, ◌%◌, Bool, true, false, ◌||◌, Option, none, some, List, [], ◌∷◌, if◌then◌else◌,
  ltb, leb, ◌==◌, length, add64,
}
use ha_addon_petlibro_local.Stats.{Counters}
use ha_addon_petlibro_local.Seq.{WrapSeq}
use ha_addon_petlibro_local.Ack.Receive.{Ack, AckTrace}
use ha_addon_petlibro_local.Assembler.Channel.{PendingFrag}
use ha_addon_petlibro_local.Assembler.Stream.{Stream, with_stats}
use ha_addon_petlibro_local.Assembler.Emit.{emit}
use ha_addon_petlibro_local.Assembler.Counts.{count_force_drain}

abbrev pub Entry : Type 0
Entry = ℕ × PendingFrag

-- The processor goroutine's part of `Client`. `av_buffer` lists the map's entries by rising key, and
-- `sent` the bodies handed to `sendInner`.
pub record Client : Type 0 where
  pub stream : Stream
  pub ack : Ack
  pub trace : AckTrace
  pub wrap : WrapSeq
  pub av_buffer : List Entry
  pub av_next_ext : ℕ
  pub av_high_ext : ℕ
  pub av_next_observed : ℕ
  pub stall_ticks : ℕ
  pub last_high_ext : ℕ
  pub sent : List (List ℕ)

unfoldable pub find_frag : List Entry → ℕ → Option PendingFrag
find_frag [] k = none
find_frag ((j, e) ∷ b) k = let rest = find_frag b k in if j == k then some e else rest

unfoldable pub put_frag : List Entry → ℕ → PendingFrag → List Entry
put_frag [] k e = (k, e) ∷ []
put_frag ((j, f) ∷ b) k e =
    let rest = put_frag b k e in
    if ltb k j then (k, e) ∷ (j, f) ∷ b else if j == k then (k, e) ∷ b else (j, f) ∷ rest

unfoldable pub delete_frag : List Entry → ℕ → List Entry
delete_frag [] k = []
delete_frag ((j, f) ∷ b) k = let rest = delete_frag b k in if j == k then b else (j, f) ∷ rest

-- What the two loops do with the entry at `k`.
unfoldable pub deliver : Client → ℕ → PendingFrag → Client
deliver c k e = record c {
  av_buffer = delete_frag c.av_buffer k;
  av_next_ext = add64 k 1;
  av_next_observed = add64 k 1;
  stream = emit c.stream e;
}

-- Each round of the loop takes an entry away, so as many rounds as there are entries are enough.
unfoldable pub drain_from : ℕ → Client → Client
drain_from zero c = c
drain_from (suc fuel) c = elim (find_frag c.av_buffer c.av_next_ext) [
  | none ↦ c
  | some e ↦ drain_from fuel (deliver c c.av_next_ext e)
]

unfoldable pub drain_contiguous : Client → Client
drain_contiguous c = drain_from (length c.av_buffer) c

abbrev pub force_drain_stall_ticks : ℕ
force_drain_stall_ticks = 5

-- The entries that the loop over the map picks out, sorted by key.
unfoldable pub due : Bool → ℕ → List Entry → List Entry
due stalled threshold [] = []
due stalled threshold ((k, e) ∷ b) =
    let rest = due stalled threshold b in if stalled || leb k threshold then (k, e) ∷ rest else rest

unfoldable pub flush_keys : Client → List Entry → Client
flush_keys c [] = c
flush_keys c ((k, e) ∷ es) = flush_keys (deliver c k e) es

unfoldable pub reset_stall : Bool → Client → Client
reset_stall stalled c = if stalled then record c { stall_ticks = 0 } else c

-- From the collection of the keys on.
unfoldable pub flush_due : Client → Bool → ℕ → Client
unfolding reset_stall
flush_due c stalled threshold =
    let es = due stalled threshold c.av_buffer in
    let counted = record c {
      stream = with_stats c.stream (count_force_drain c.stream.stats (length es));
    } in
    if length es == 0 then c else reset_stall stalled (flush_keys counted es)

-- One tick of the stall clock. `stallTicks` is a uint8.
unfoldable pub watch_stall : Client → Client
watch_stall c =
    if c.av_high_ext == c.last_high_ext
    then record c { stall_ticks = suc c.stall_ticks % 256 }
    else record c { stall_ticks = 0; last_high_ext = c.av_high_ext }

unfoldable pub force_drain : Client → Client
unfolding watch_stall flush_due
force_drain c =
    let c' = watch_stall c in
    let stalled = leb force_drain_stall_ticks c'.stall_ticks in
    if length c.av_buffer == 0
    then record c { stall_ticks = 0; last_high_ext = c.av_high_ext }
    else if stalled
    then flush_due c' true c.av_high_ext
    else if ltb c.av_high_ext 8
    then c'
    else flush_due c' false (c.av_high_ext - 8)
