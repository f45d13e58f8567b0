-- ===== src/Ack/Ranges/Insert.antt =====
-- What `insertACKSeenLocked` does to the set of positions that the ranges stand for.
use ha_addon_petlibro_local.Prelude.{
  ℕ, suc, ◌+◌, Bool-cases, leb, ltb, add64, ◌&&◌, ◌≤◌, ◌<◌, ◌≡◌, refl, ◌⊎◌, inl, inr, true, false,
  ◌||◌, List, [], ◌∷◌, ◌==◌, add64-eq, arith, length, u64_mod,
}
use ha_addon_petlibro_local.Ack.Ranges.{
  AckSeenRange, Insertion, inserted, duplicate, overflow, extend_last, new_range, keep, insert_from,
  insert_ack_seen, covered, size, Separated, Below, max_ack_seen_ranges,
}

-- `out` holds what `rs` holds and `s`, above `lo` and up to `top`.
pub record Adds (lo top : ℕ) (rs : List AckSeenRange) (s : ℕ) (out : List AckSeenRange)
    : Type 0 where
  pub separated : Separated lo out
  pub below : Below top out
  pub one_more : size out ≡ suc (size rs)
  pub count_le : length out ≤ suc (length rs)
  pub exactly : (p : ℕ) → covered out p ≡ (covered rs p || p == s)

extend_last-Adds :
    (lo top s : ℕ) (r : AckSeenRange) (rs : List AckSeenRange)
    → s + 1 < u64_mod
    → s ≤ top
    → s ≡ suc r.last
    → Separated lo (r ∷ rs)
    → Below top (r ∷ rs)
    → Adds lo top (r ∷ rs) s (extend_last r rs s) × (length (extend_last r rs s) ≤ suc (length rs))
unfolding extend_last
extend_last-Adds lo top s r [] h ht e sep bel = (
  record {
    separated = ground arith;
    below = ground arith;
    one_more = ground arith;
    count_le = ground arith;
    exactly = λ p. ground arith;
  },
  ground arith,
)
extend_last-Adds lo top s r (t ∷ ts) h ht e sep bel = (
  record {
    separated = ground (arith, add64-eq s 1);
    below = ground (arith, add64-eq s 1);
    one_more = ground (arith, add64-eq s 1);
    count_le = ground (arith, add64-eq s 1);
    exactly = λ p. ground (arith, add64-eq s 1);
  },
  ground (arith, add64-eq s 1),
)

-- A position below all of the ranges is in none of them.
pub covered_below :
    (lo p : ℕ) (rs : List AckSeenRange) → Separated lo rs → p ≤ lo → covered rs p ≡ false
covered_below lo p [] sep h = refl
covered_below lo p (r ∷ rs) sep h = ground (arith, covered_below (suc r.last) p rs sep.2)

-- What the caller may rely on, for each of the three outcomes.
abbrev pub Inserts : ℕ → ℕ → ℕ → List AckSeenRange → ℕ → Insertion → Type 0
Inserts lo top count rs s (inserted out) =
    Adds lo top rs s out
    × (covered rs s ≡ false)
    × (length out ≤ length rs ⊎ count < max_ack_seen_ranges)
Inserts lo top count rs s duplicate = covered rs s ≡ true
Inserts lo top count rs s overflow = (max_ack_seen_ranges ≤ count) × (covered rs s ≡ false)

new_range-Inserts :
    (lo top count s : ℕ) (rs : List AckSeenRange)
    → s ≤ top
    → lo < s
    → Separated (suc s) rs
    → Below top rs
    → Inserts lo top count rs s (new_range count s rs)
unfolding new_range
new_range-Inserts lo top count s rs ht hl sep bel =
    elim (Bool-cases (leb max_ack_seen_ranges count)) [
      | inl full ↦ rw full (ground arith, covered_below (suc s) s rs sep (omega arith))
      | inr room ↦ rw room (
        record {
          separated = (omega arith, omega arith, sep);
          below = (ht, bel);
          one_more = omega arith;
          count_le = omega arith;
          exactly = λ p. ground arith;
        },
        covered_below (suc s) s rs sep (omega arith),
        inr (ground arith),
      )
    ]

keep-Inserts :
    (lo top count s : ℕ) (r : AckSeenRange) (rs : List AckSeenRange) (i : Insertion)
    → suc r.last < s
    → Separated lo (r ∷ rs)
    → Below top (r ∷ rs)
    → Inserts (suc r.last) top count rs s i
    → Inserts lo top count (r ∷ rs) s (keep r i)
unfolding keep
keep-Inserts lo top count s r rs (inserted out) h sep bel (adds, fresh, room) = (
  record {
    separated = (sep.0, sep.1, adds.separated);
    below = (bel.0, adds.below);
    one_more = omega (arith, adds.one_more);
    count_le = omega (arith, adds.count_le);
    exactly = λ p. ground (arith, adds.exactly p);
  },
  ground arith,
  ground arith,
)
keep-Inserts lo top count s r rs duplicate h sep bel seen = ground arith
keep-Inserts lo top count s r rs overflow h sep bel (full, fresh) = (full, ground arith)

-- The case of a position right in front of the range `r`.
first-Adds :
    (lo top s : ℕ) (r : AckSeenRange) (rs : List AckSeenRange)
    → lo < s
    → suc s ≡ r.first
    → Separated lo (r ∷ rs)
    → Below top (r ∷ rs)
    → Adds lo top (r ∷ rs) s (record r { first = s } ∷ rs)
first-Adds lo top s r rs hl e sep bel = record {
  separated = (hl, omega arith, sep.2);
  below = bel;
  one_more = omega arith;
  count_le = omega arith;
  exactly = λ p. ground arith;
}

insert_from-Inserts :
    (lo top count s : ℕ) (rs : List AckSeenRange)
    → top + 1 < u64_mod
    → s ≤ top
    → lo < s
    → Separated lo rs
    → Below top rs
    → Inserts lo top count rs s (insert_from count rs s)
unfolding insert_from
insert_from-Inserts lo top count s [] ht hs hl sep bel =
    new_range-Inserts lo top count s [] hs hl tt tt
insert_from-Inserts lo top count s (r ∷ rs) ht hs hl sep bel =
    let up = add64-eq s 1 (omega arith) in
    let next = add64-eq r.last 1 (omega arith) in
    elim (Bool-cases (leb r.first s && leb s r.last)) [
      | inl inside ↦ rw inside (ground arith)
      | inr outside ↦ rw outside (elim (Bool-cases (add64 s 1 == r.first)) [
        | inl before ↦ rw before (
          first-Adds lo top s r rs hl (ground arith) sep bel,
          ground (arith, covered_below (suc r.last) s rs sep.2),
          inl (omega arith),
        )
        | inr apart ↦ rw apart (elim (Bool-cases (s == add64 r.last 1)) [
          | inl after ↦ rw after (
              let out = extend_last-Adds lo top s r rs (omega arith) hs (ground arith) sep bel in
              (out.0, ground (arith, covered_below (suc r.last) s rs sep.2), inl out.1))
          | inr far ↦ rw far (elim (Bool-cases (ltb s r.first)) [
            | inl low ↦
                rw low
                  (new_range-Inserts lo top count s (r ∷ rs) hs hl (ground arith, sep.1, sep.2) bel)
            | inr high ↦ rw high (
                keep-Inserts lo top count s r rs _ (ground arith) sep bel (
                  insert_from-Inserts (suc r.last) top count s rs ht hs (ground arith) sep.2 bel.1))
          ])
        ])
      ])
    ]

-- `insertACKSeenLocked` on sorted ranges above `lo` and up to `top`: a position in a range is a
-- duplicate, a new one is added and nothing else, and it is refused only when 256 ranges are held.
pub insert_ack_seen-Inserts :
    (lo top s : ℕ) (rs : List AckSeenRange)
    → top + 1 < u64_mod
    → s ≤ top
    → lo < s
    → Separated lo rs
    → Below top rs
    → Inserts lo top (length rs) rs s (insert_ack_seen rs s)
unfolding insert_ack_seen
insert_ack_seen-Inserts lo top s rs = insert_from-Inserts lo top (length rs) s rs
