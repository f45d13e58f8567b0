-- ===== src/Assembler/Buffer/Deliver.antt =====
-- `drainContiguous` delivers the run of buffered positions and stops at the first hole.
use ha_addon_petlibro_local.Prelude.{
  ℕ, zero, suc, ◌+◌, ◌≤◌, ◌<◌, ◌≡◌, refl, inl, inr, none, some, Option-cases, List, [], ◌∷◌, length,
  add64-eq, u64_mod, arith,
}
use ha_addon_petlibro_local.Assembler.Channel.{PendingFrag}
use ha_addon_petlibro_local.Assembler.Buffer.{
  Entry, Client, find_frag, deliver, drain_from, drain_contiguous,
}
use ha_addon_petlibro_local.Assembler.Buffer.Ordered.{
  Ordered, delete_frag-Ordered_first, length-delete_frag, find_frag_le,
}

-- `Drains c es c'`: from `c`, the fragments `es` are emitted one by one, each from the position next
-- in turn, and in `c'` that position is not buffered.
pub data Drains : Client → List Entry → Client → Type 0 where
  drains_idle : {c : Client} → find_frag c.av_buffer c.av_next_ext ≡ none → Drains c [] c
  drains_next :
      {c c' : Client} {e : PendingFrag} {es : List Entry}
      → find_frag c.av_buffer c.av_next_ext ≡ some e
      → Drains (deliver c c.av_next_ext e) es c'
      → Drains c ((c.av_next_ext, e) ∷ es) c'

find_frag-empty : (b : List Entry) (k : ℕ) → length b ≤ 0 → find_frag b k ≡ none
unfolding find_frag
find_frag-empty [] k h = refl
find_frag-empty (x ∷ b) k h = absurd (omega arith)

drain_from-Drains :
    (fuel : ℕ) (c : Client)
    → length c.av_buffer ≤ fuel
    → (es : List Entry) × Drains c es (drain_from fuel c)
unfolding drain_from
drain_from-Drains zero c h = ([], drains_idle (find_frag-empty c.av_buffer c.av_next_ext h))
drain_from-Drains (suc fuel) c h = elim (Option-cases (find_frag c.av_buffer c.av_next_ext)) [
  | inl hole ↦ rw (drain_from, hole) ([], drains_idle hole)
  | inr (e, found) ↦
      let fewer = length-delete_frag c.av_buffer c.av_next_ext found in
      let (es, rest) =
        drain_from-Drains fuel (deliver c c.av_next_ext e)
          (unfold deliver in omega (arith, fewer)) in
      rw (drain_from, found) ((c.av_next_ext, e) ∷ es, drains_next found rest)
]

-- `drainContiguous` returns: it emits the fragments from the next position on, in order and without
-- a gap, and stops where the next position is not buffered.
pub drain_contiguous-Drains : (c : Client) → (es : List Entry) × Drains c es (drain_contiguous c)
unfolding drain_contiguous
drain_contiguous-Drains c = drain_from-Drains (length c.av_buffer) c (omega arith)

-- The buffer's keys lie from the next position to the highest one, which is far from 64 bits.
pub record Placed (c : Client) : Type 0 where
  pub ordered : Ordered c.av_next_ext c.av_buffer c.av_high_ext
  pub room : c.av_high_ext + 1 < u64_mod

pub deliver-Placed :
    (c : Client) (e : PendingFrag)
    → Placed c
    → find_frag c.av_buffer c.av_next_ext ≡ some e
    → Placed (deliver c c.av_next_ext e)
unfolding deliver
deliver-Placed c e p found =
    let below = find_frag_le _ _ c.av_buffer c.av_next_ext p.ordered found in
    let next = add64-eq c.av_next_ext 1 (omega (arith, below, p.room)) in
    let one : c.av_next_ext + 1 ≡ suc c.av_next_ext = omega arith in
    record {
      ordered =
          rw (next, one)
            (delete_frag-Ordered_first c.av_high_ext c.av_buffer c.av_next_ext p.ordered);
      room = p.room;
    }

-- Where a drain leads.
pub record Settled (c c' : Client) : Type 0 where
  pub placed : Placed c'
  pub same_high : c'.av_high_ext ≡ c.av_high_ext
  pub forward : c.av_next_ext ≤ c'.av_next_ext
  pub hole : find_frag c'.av_buffer c'.av_next_ext ≡ none

forward_lem :
    (c : Client) (e : PendingFrag) {n : ℕ}
    → (deliver c c.av_next_ext e).av_next_ext ≤ n
    → c.av_next_ext ≤ c.av_high_ext
    → c.av_high_ext + 1 < u64_mod
    → c.av_next_ext ≤ n
unfolding deliver
forward_lem c e h below room = omega (arith, h, add64-eq c.av_next_ext 1 (omega arith))

same_high_lem :
    (c : Client) (e : PendingFrag) {n : ℕ}
    → n ≡ (deliver c c.av_next_ext e).av_high_ext
    → n ≡ c.av_high_ext
unfolding deliver
same_high_lem c e h = h

pub Drains-Settled : {c c' : Client} {es : List Entry} → Placed c → Drains c es c' → Settled c c'
Drains-Settled p (drains_idle hole) = record {
  placed = p;
  same_high = refl;
  forward = omega arith;
  hole = hole;
}
Drains-Settled {c = c} p (drains_next {e = e} found rest) =
    let s = Drains-Settled (deliver-Placed c e p found) rest in
    let below = find_frag_le _ _ c.av_buffer c.av_next_ext p.ordered found in
    record {
      placed = s.placed;
      same_high = same_high_lem c e s.same_high;
      forward = forward_lem c e s.forward below p.room;
      hole = s.hole;
    }
