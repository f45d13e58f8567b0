-- ===== src/Ack/Receive/Advance.antt =====
-- The invariant of the receive-side ACK state of pkg/petlibro/recv.go, and the steps that move the
-- watermark over the ranges and raise the high mark.
use ha_addon_petlibro_local.Prelude.{
  ℕ, suc, ◌+◌, ◌-◌, ◌≤◌, ◌<◌, ◌≡◌, refl, inl, inr, ◌||◌, List, [], ◌∷◌, ◌==◌, ltb, leb, Bool-cases,
  add64, add64-eq, sub64, sub64-eq, arith, length, u64_mod,
}
use ha_addon_petlibro_local.Ack.Ranges.{
  AckSeenRange, covered, size, Separated, Below, max_ack_seen_ranges,
}
use ha_addon_petlibro_local.Ack.Receive.{Ack, advance, raise_high}

-- The ranges are sorted with holes between them, the first above the position after the watermark;
-- `seen_pending` counts their positions; what was reported was received.
pub record Inv (a : Ack) : Type 0 where
  pub separated : Separated (suc a.watermark) a.seen_ranges
  pub below : Below a.high a.seen_ranges
  pub water : a.watermark ≤ a.high
  pub honest : a.reported ≤ a.watermark
  pub counted : a.seen_pending ≡ size a.seen_ranges
  pub capped : length a.seen_ranges ≤ max_ack_seen_ranges
  pub bounded : a.high + 1 < u64_mod

pub Separated-mono :
    {lo lo' : ℕ} (rs : List AckSeenRange) → lo' ≤ lo → Separated lo rs → Separated lo' rs
Separated-mono [] h sep = tt
Separated-mono (r ∷ rs) h sep = (omega arith, sep.1, sep.2)

Below-mono : {top top' : ℕ} (rs : List AckSeenRange) → top ≤ top' → Below top rs → Below top' rs
Below-mono [] h b = tt
Below-mono (r ∷ rs) h b = (omega arith, Below-mono rs h b.1)

-- The ranges hold no more positions than there are above `lo`.
pub size-le :
    (lo top : ℕ) (rs : List AckSeenRange)
    → lo ≤ top
    → Separated lo rs
    → Below top rs
    → size rs + lo ≤ top
size-le lo top [] h sep b = omega arith
size-le lo top (r ∷ []) h sep b = omega arith
size-le lo top (r ∷ t ∷ ts) h sep b =
    omega (arith, size-le (suc r.last) top (t ∷ ts) (omega arith) sep.2 b.1)

-- What the loop over the contiguous ranges leaves.
pub record Advanced (acc w top : ℕ) (rs : List AckSeenRange) (out : ℕ × ℕ × List AckSeenRange)
    : Type 0 where
  pub separated : Separated (suc out.1) out.2
  pub below : Below top out.2
  pub grows : w ≤ out.1
  pub water : out.1 ≤ top
  pub counts : out.0 ≡ acc + (out.1 - w)
  pub moved : size out.2 + (out.1 - w) ≡ size rs
  pub count_le : length out.2 ≤ length rs
  pub same : (p : ℕ) → (leb p out.1 || covered out.2 p) ≡ (leb p w || covered rs p)

Advanced-step :
    (acc acc' w top : ℕ) (r : AckSeenRange) (rs : List AckSeenRange)
    (out : ℕ × ℕ × List AckSeenRange)
    → r.first ≡ suc w
    → r.first ≤ r.last
    → acc' ≡ acc + (r.last - w)
    → Advanced acc' r.last top rs out
    → Advanced acc w top (r ∷ rs) out
Advanced-step acc acc' w top r rs out e le ea h = record {
  separated = h.separated;
  below = h.below;
  grows = omega (arith, h.grows);
  water = h.water;
  counts = omega (arith, h.counts, h.grows);
  moved = omega (arith, h.moved, h.grows);
  count_le = omega (arith, h.count_le);
  same = λ p. ground (arith, h.same p);
}

pub advance-Advanced :
    (acc w top : ℕ) (rs : List AckSeenRange)
    → w ≤ top
    → top + 1 < u64_mod
    → acc + (top - w) < u64_mod
    → Separated w rs
    → Below top rs
    → Advanced acc w top rs (advance acc w rs)
unfolding advance
advance-Advanced acc w top [] h ht ha sep b = record {
  separated = tt;
  below = tt;
  grows = omega arith;
  water = h;
  counts = omega arith;
  moved = omega arith;
  count_le = omega arith;
  same = λ p. refl;
}
advance-Advanced acc w top (r ∷ rs) h ht ha sep b = elim (Bool-cases (r.first == add64 w 1)) [
  | inl next ↦ rw next (
      let d = sub64-eq r.last w (omega arith) (omega arith) in
      let e = add64-eq acc (sub64 r.last w) (omega arith) in
      Advanced-step acc (add64 acc (sub64 r.last w)) w top r rs _ (ground (arith, add64-eq w 1))
        sep.1 (omega arith)
        (advance-Advanced (add64 acc (sub64 r.last w)) r.last top rs (omega arith) ht (omega arith)
          (Separated-mono rs (omega arith) sep.2) b.1))
  | inr hole ↦ rw hole (record {
    separated = ground (arith, add64-eq w 1);
    below = b;
    grows = omega arith;
    water = h;
    counts = omega arith;
    moved = omega arith;
    count_le = omega arith;
    same = λ p. refl;
  })
]

pub raise_high-Inv :
    (a : Ack) (s : ℕ) → Inv a → s + 1 < u64_mod → Inv (raise_high a s) × (s ≤ (raise_high a s).high)
unfolding raise_high
raise_high-Inv a s v h = elim (Bool-cases (ltb a.high s)) [
  | inl up ↦ rw up (
    record {
      separated = v.separated;
      below = Below-mono a.seen_ranges (ground arith) v.below;
      water = ground arith;
      honest = v.honest;
      counted = v.counted;
      capped = v.capped;
      bounded = h;
    },
    omega arith,
  )
  | inr same ↦ rw same (v, ground arith)
]
