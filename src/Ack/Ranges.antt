-- ===== src/Ack/Ranges.antt =====
-- `ackSeenRange` and `insertACKSeenLocked` of pkg/petlibro/recv.go: the sorted ranges of positions
-- that were received above the contiguous watermark.
pub mod Insert
use ha_addon_petlibro_local.Prelude.{
  ℕ, suc, ◌≤◌, ◌<◌, ◌≡◌, Bool, ◌&&◌, ◌||◌, false, List, [], ◌∷◌, if◌then◌else◌, ltb, leb, ◌==◌,
  add64, length, ◌+◌, ◌-◌,
}

pub record AckSeenRange : Type 0 where
  pub first : ℕ
  pub last : ℕ

-- The cap `maxACKSeenRanges` of client.go.
abbrev pub max_ack_seen_ranges : ℕ
max_ack_seen_ranges = 256

-- `(inserted, duplicate)` with the ranges after the call: `overflow` is `(false, false)`.
pub data Insertion : Type 0 where
  inserted : List AckSeenRange → Insertion
  duplicate overflow : Insertion

-- `r.last = subExt`, joined with the next range where the two now touch.
unfoldable pub extend_last : AckSeenRange → List AckSeenRange → ℕ → List AckSeenRange
extend_last r [] sub_ext = record r { last = sub_ext } ∷ []
extend_last r (t ∷ ts) sub_ext =
    if add64 sub_ext 1 == t.first
    then record r { last = t.last } ∷ ts
    else record r { last = sub_ext } ∷ t ∷ ts

-- A fresh range in front of `rest`, unless all `count` slots are taken.
unfoldable pub new_range : ℕ → ℕ → List AckSeenRange → Insertion
new_range count sub_ext rest =
    if leb max_ack_seen_ranges count
    then overflow
    else inserted (record { first = sub_ext; last = sub_ext } ∷ rest)

-- The ranges that the loop has passed stay in front.
unfoldable pub keep : AckSeenRange → Insertion → Insertion
keep r (inserted rs) = inserted (r ∷ rs)
keep r duplicate = duplicate
keep r overflow = overflow

-- The loop, on the ranges not yet passed; `count` is the length of the whole slice.
unfoldable pub insert_from : ℕ → List AckSeenRange → ℕ → Insertion
insert_from count [] sub_ext = new_range count sub_ext []
insert_from count (r ∷ rs) sub_ext =
    let later = keep r (insert_from count rs sub_ext) in
    if leb r.first sub_ext && leb sub_ext r.last
    then duplicate
    else if add64 sub_ext 1 == r.first
    then inserted (record r { first = sub_ext } ∷ rs)
    else if sub_ext == add64 r.last 1
    then inserted (extend_last r rs sub_ext)
    else if ltb sub_ext r.first
    then new_range count sub_ext (r ∷ rs)
    else later

unfoldable pub insert_ack_seen : List AckSeenRange → ℕ → Insertion
insert_ack_seen rs sub_ext = insert_from (length rs) rs sub_ext

-- Whether a position lies in one of the ranges.
abbrev pub covered : List AckSeenRange → ℕ → Bool
covered [] p = false
covered (r ∷ rs) p = (leb r.first p && leb p r.last) || covered rs p

-- How many positions the ranges hold.
abbrev pub size : List AckSeenRange → ℕ
size [] = 0
size (r ∷ rs) = suc (r.last - r.first) + size rs

-- Sorted, each range non-empty, and a hole of one position at least before each: the first starts
-- above `lo`, and each next one leaves out the position after its predecessor.
abbrev pub Separated : ℕ → List AckSeenRange → Type 0
Separated lo [] = Unit {0}
Separated lo (r ∷ rs) = (lo < r.first) × (r.first ≤ r.last) × Separated (suc r.last) rs

-- Every position is at most `top`.
abbrev pub Below : ℕ → List AckSeenRange → Type 0
Below top [] = Unit {0}
Below top (r ∷ rs) = (r.last ≤ top) × Below top rs
