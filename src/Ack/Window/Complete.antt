-- ===== src/Ack/Window/Complete.antt =====
-- `ackWindowLocked` describes the interval that it reports completely.
use ha_addon_petlibro_local.Prelude.{
  ℕ, zero, suc, ◌+◌, ◌-◌, ◌≤◌, ◌<◌, ◌≡◌, refl, ◌∙◌, ◌⊎◌, inl, inr, true, false, not, ◌||◌, List, [],
  ◌∷◌, ◌++◌, ◌==◌, ltb, leb, Bool-cases, contains, contains-append, add64, add64-eq, sub64,
  sub64-eq, to_u16, min, arith, length, length-append, u64_mod,
}
use ha_addon_petlibro_local.Ack.Ranges.{AckSeenRange, covered, Separated}
use ha_addon_petlibro_local.Ack.Ranges.Insert.{covered_below}
use ha_addon_petlibro_local.Ack.Receive.{Ack, seen}
use ha_addon_petlibro_local.Ack.Receive.Advance.{Inv, Separated-mono}
use ha_addon_petlibro_local.Ack.Window.{
  AckWindow, max_transport_nacks, skip_ranges, in_first, Visit, continue, stop, visit_hole, visit,
  scan, clamp_high, ack_window,
}

-- The cursor lands on the ranges that still matter.
record Skips (seq lo : ℕ) (rs out : List AckSeenRange) : Type 0 where
  separated : Separated lo out
  tail : (q : ℕ) → seq ≤ q → covered out q ≡ covered rs q
  here : in_first seq out ≡ covered rs seq

skip_ranges-Skips :
    (seq lo : ℕ) (rs : List AckSeenRange) → Separated lo rs → Skips seq lo rs (skip_ranges seq rs)
unfolding skip_ranges in_first
skip_ranges-Skips seq lo [] sep = record { separated = tt; tail = λ q h. refl; here = refl }
skip_ranges-Skips seq lo (r ∷ rs) sep = elim (Bool-cases (ltb r.last seq)) [
  | inl past ↦ rw past (
      let rest = skip_ranges-Skips seq (suc r.last) rs sep.2 in
      record {
        separated = Separated-mono _ (omega arith) rest.separated;
        tail = λ q h. ground (arith, rest.tail q);
        here = ground (arith, rest.here);
      })
  | inr far ↦ rw far (record {
    separated = sep;
    tail = λ q h. refl;
    here = ground (arith, covered_below (suc r.last) seq rs sep.2);
  })
]

-- The loop's state in front of position `seq`: the holes are those of `(base, seq)`.
record Scanned (w base seq : ℕ) (all rs : List AckSeenRange) (missing : List ℕ) : Type 0 where
  separated : Separated 0 rs
  tail : (q : ℕ) → seq ≤ q → covered rs q ≡ covered all q
  described :
      (p : ℕ) → base < p → p < seq → contains missing (p - base) ≡ not (leb p w || covered all p)
  offsets : (d : ℕ) → contains missing d ≡ true → (0 < d) × (base + d < seq)
  short : length missing ≤ max_transport_nacks

not_yet :
    (w base seq d : ℕ) (all rs : List AckSeenRange) (missing : List ℕ)
    → Scanned w base seq all rs missing
    → seq ≤ base + d
    → contains missing d ≡ false
not_yet w base seq d all rs missing s h = elim (Bool-cases (contains missing d)) [
  | inl e ↦ absurd (omega (arith, s.offsets d e))
  | inr e ↦ e
]

-- A round that finds `seq` seen leaves the holes alone.
Scanned-seen :
    (w base seq : ℕ) (all rs rs' : List AckSeenRange) (missing : List ℕ)
    → Scanned w base seq all rs missing
    → Separated 0 rs'
    → ((q : ℕ) → suc seq ≤ q → covered rs' q ≡ covered all q)
    → (leb seq w || covered all seq) ≡ true
    → Scanned w base (suc seq) all rs' missing
Scanned-seen w base seq all rs rs' missing s sep tail here = record {
  separated = sep;
  tail = tail;
  described = λ p lo hi. elim (Bool-cases (p == seq)) [
    | inl e ↦
        let same : p ≡ seq = ground arith in
        rw (same, here) (not_yet w base seq (seq - base) all rs missing s (omega arith))
    | inr ne ↦ s.described p lo (ground arith)
  ];
  offsets = λ d h. omega (arith, s.offsets d h);
  short = s.short;
}

-- A round that finds `seq` missing lists its offset.
Scanned-hole :
    (w base seq : ℕ) (all rs rs' : List AckSeenRange) (missing : List ℕ)
    → Scanned w base seq all rs missing
    → Separated 0 rs'
    → ((q : ℕ) → suc seq ≤ q → covered rs' q ≡ covered all q)
    → (leb seq w || covered all seq) ≡ false
    → base < seq
    → length missing < max_transport_nacks
    → Scanned w base (suc seq) all rs' (missing ++ ((seq - base) ∷ []))
Scanned-hole w base seq all rs rs' missing s sep tail here lo room = record {
  separated = sep;
  tail = tail;
  described = λ p lo' hi. elim (Bool-cases (p == seq)) [
    | inl e ↦ let same : p ≡ seq = ground arith in rw (same, here, contains-append) (ground arith)
    | inr ne ↦ rw contains-append (ground (arith, s.described p lo'))
  ];
  offsets = λ d. rw contains-append (λ h. ground (arith, s.offsets d));
  short = omega (arith, length-append missing ((seq - base) ∷ []));
}

-- What the finished loop says of `(base, high]`, out of which it reports `(base, out.1]`.
pub record Described (w base high : ℕ) (all : List AckSeenRange) (out : List ℕ × ℕ) : Type 0 where
  pub within : out.1 ≤ high
  pub above : base ≤ out.1
  pub described :
      (p : ℕ) → base < p → p ≤ out.1 → contains out.0 (p - base) ≡ not (leb p w || covered all p)
  pub offsets : (d : ℕ) → contains out.0 d ≡ true → (0 < d) × (base + d ≤ out.1)
  pub short : length out.0 ≤ max_transport_nacks
  pub maximal :
      (out.1 ≡ high)
      ⊎ ((length out.0 ≡ max_transport_nacks)
          × ((leb (suc out.1) w || covered all (suc out.1)) ≡ false))

-- What one round of the loop establishes.
abbrev Next : ℕ → ℕ → ℕ → List AckSeenRange → List ℕ → Visit → Type 0
Next w base seq all missing (continue rs' missing') = Scanned w base (suc seq) all rs' missing'
Next w base seq all missing stop =
    (length missing ≡ max_transport_nacks) × ((leb seq w || covered all seq) ≡ false)

visit_hole-Next :
    (w base seq : ℕ) (all rs rs' : List AckSeenRange) (missing : List ℕ)
    → base < seq
    → seq < u64_mod
    → seq - base < 65536
    → Scanned w base seq all rs missing
    → Separated 0 rs'
    → ((q : ℕ) → suc seq ≤ q → covered rs' q ≡ covered all q)
    → (leb seq w || covered all seq) ≡ false
    → Next w base seq all missing (visit_hole base seq rs' missing)
unfolding visit_hole
visit_hole-Next w base seq all rs rs' missing lo hi span s sep tail gap =
    elim (Bool-cases (length missing == max_transport_nacks)) [
      | inl full ↦ rw full (ground arith, gap)
      | inr room ↦ rw room (
          let exact : to_u16 (sub64 seq base) ≡ seq - base = omega (arith, sub64-eq seq base) in
          rw exact (
            Scanned-hole w base seq all rs rs' missing s sep tail gap lo (ground (arith, s.short))))
    ]

visit-Next :
    (w base seq : ℕ) (all rs : List AckSeenRange) (missing : List ℕ)
    → base < seq
    → seq < u64_mod
    → seq - base < 65536
    → Scanned w base seq all rs missing
    → Next w base seq all missing (visit w base seq rs missing)
unfolding visit
visit-Next w base seq all rs missing lo hi span s =
    let skip = skip_ranges-Skips seq 0 rs s.separated in
    let later = λ (q : ℕ) (h : suc seq ≤ q). skip.tail q (omega arith) ∙ s.tail q (omega arith) in
    let here = skip.here ∙ s.tail seq (omega arith) in
    elim (Bool-cases (leb seq w)) [
      | inl old ↦ rw old (
          Scanned-seen w base seq all rs rs missing s s.separated (λ q h. s.tail q (omega arith))
            (ground arith))
      | inr new ↦ rw new (elim (Bool-cases (in_first seq (skip_ranges seq rs))) [
        | inl got ↦
            rw got (
              Scanned-seen w base seq all rs _ missing s skip.separated later
                (ground (arith, here)))
        | inr gap ↦ rw gap (
            visit_hole-Next w base seq all rs _ missing lo hi span s skip.separated later
              (ground (arith, here)))
      ])
    ]

scan-Described :
    (w base high rounds seq : ℕ) (all rs : List AckSeenRange) (missing : List ℕ)
    → base < seq
    → seq + rounds ≡ suc high
    → high + 1 < u64_mod
    → high - base < 65536
    → Scanned w base seq all rs missing
    → Described w base high all (scan w base high rounds seq rs missing)
unfolding scan
scan-Described w base high zero seq all rs missing lo e hb hs s = record {
  within = omega arith;
  above = omega arith;
  described = λ p l h. s.described p l (omega arith);
  offsets = λ d h. omega (arith, s.offsets d h);
  short = s.short;
  maximal = inl refl;
}
scan-Described w base high (suc rounds) seq all rs missing lo e hb hs s =
    go (visit w base seq rs missing)
      (visit-Next w base seq all rs missing lo (omega arith) (omega arith) s)
      (λ rs' missing' n.
        scan-Described w base high rounds (suc seq) all rs' missing' (omega arith) (omega arith) hb
          hs n)
  where
    go :
        (v : Visit)
        → Next w base seq all missing v
        → ((rs' : List AckSeenRange) (missing' : List ℕ)
            → Scanned w base (suc seq) all rs' missing'
            → Described w base high all (scan w base high rounds (suc seq) rs' missing'))
        → Described w base high all (elim v [
          | continue rs' missing' ↦ scan w base high rounds (add64 seq 1) rs' missing'
          | stop ↦ (missing, sub64 seq 1)
        ])
    go (continue rs' missing') n ih =
        let step : add64 seq 1 ≡ suc seq = omega (arith, add64-eq seq 1) in
        rw step (ih rs' missing' n)
    go stop (full, gap) ih =
        let step : sub64 seq 1 ≡ seq - 1 = omega (arith, sub64-eq seq 1) in
        let back : suc (seq - 1) ≡ seq = omega arith in
        rw step (record {
          within = omega arith;
          above = omega arith;
          described = λ p l h. s.described p l (omega arith);
          offsets = λ d h. omega (arith, s.offsets d h);
          short = s.short;
          maximal = inr (full, rw back gap);
        })

clamp_high-eq :
    (base high : ℕ)
    → base ≤ high
    → high + 1 < u64_mod
    → clamp_high base high ≡ min high (base + 65535)
unfolding clamp_high
clamp_high-eq base high h hb = ground (arith, sub64-eq high base, add64-eq base 65535)

-- A report that says of every position in `(base_ext, high_ext]` whether it was received.
pub record Complete (a : Ack) (w : AckWindow) : Type 0 where
  pub base : w.base_ext ≡ a.reported
  pub contiguous : w.contiguous_ext ≡ a.watermark
  pub above : w.base_ext ≤ w.high_ext
  pub within : w.high_ext ≤ a.high
  pub span : w.high_ext ≤ w.base_ext + 65535
  pub described :
      (p : ℕ)
      → w.base_ext < p
      → p ≤ w.high_ext
      → contains w.missing (p - w.base_ext) ≡ not (seen a p)
  pub offsets : (d : ℕ) → contains w.missing d ≡ true → (0 < d) × (w.base_ext + d ≤ w.high_ext)
  pub short : length w.missing ≤ max_transport_nacks
  pub maximal :
      (w.high_ext ≡ min a.high (a.reported + 65535))
      ⊎ ((length w.missing ≡ max_transport_nacks) × (seen a (suc w.high_ext) ≡ false))

-- `ackWindowLocked` on a valid state reports from the last reported position on, and describes the
-- reported interval completely: an offset is listed as missing exactly when the position was not
-- received. At most 256 offsets of at most 16 bits are listed. The interval ends at the highest
-- received position, at the 16-bit span, or right in front of a hole that no longer fits.
pub ack_window-Complete : (a : Ack) → Inv a → Complete a (ack_window a)
unfolding ack_window
ack_window-Complete a v =
    let clamp = clamp_high-eq a.reported a.high (omega arith) v.bounded in
    let step : add64 a.reported 1 ≡ suc a.reported = omega (arith, add64-eq a.reported 1) in
    let start =
      scan-Described a.watermark a.reported (clamp_high a.reported a.high)
        (clamp_high a.reported a.high - a.reported) (add64 a.reported 1) a.seen_ranges a.seen_ranges
        [] (omega arith) (omega arith) (omega arith) (omega arith)
        (record {
          separated = Separated-mono a.seen_ranges (omega arith) v.separated;
          tail = λ q h. refl;
          described = λ p lo hi. absurd (omega arith);
          offsets = λ d h. cc;
          short = omega arith;
        }) in
    record {
      base = refl;
      contiguous = refl;
      above = start.above;
      within = omega (arith, start.within);
      span = omega (arith, start.within);
      described = start.described;
      offsets = start.offsets;
      short = start.short;
      maximal = elim start.maximal [ inl e ↦ inl (e ∙ clamp) | inr (full, gap) ↦ inr (full, gap) ];
    }
