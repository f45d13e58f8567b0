-- ===== src/Assembler/Buffer/Ordered.antt =====
-- The reorder buffer is a finite map whose keys lie between the next position and the highest one.
use ha_addon_petlibro_local.Prelude.{
  ℕ, suc, ◌≤◌, ◌≡◌, refl, inl, inr, some, List, [], ◌∷◌, length, ltb, ◌==◌, Bool-cases, arith,
}
use ha_addon_petlibro_local.Assembler.Channel.{PendingFrag}
use ha_addon_petlibro_local.Assembler.Buffer.{Entry, find_frag, put_frag, delete_frag}

-- Keys rise from `lo` to at most `hi`.
abbrev pub Ordered : ℕ → List Entry → ℕ → Type 0
Ordered lo [] hi = Unit {0}
Ordered lo ((k, e) ∷ b) hi = (lo ≤ k) × (k ≤ hi) × Ordered (suc k) b hi

pub Ordered-weaken :
    (lo lo' hi hi' : ℕ) (b : List Entry) → Ordered lo b hi → lo' ≤ lo → hi ≤ hi' → Ordered lo' b hi'
Ordered-weaken lo lo' hi hi' [] h l u = tt
Ordered-weaken lo lo' hi hi' ((k, e) ∷ b) (p, q, r) l u =
    (omega arith, omega arith, Ordered-weaken _ _ _ _ b r (omega arith) u)

pub put_frag-Ordered :
    (lo hi hi' : ℕ) (b : List Entry) (k : ℕ) (e : PendingFrag)
    → Ordered lo b hi
    → lo ≤ k
    → k ≤ hi'
    → hi ≤ hi'
    → Ordered lo (put_frag b k e) hi'
unfolding put_frag
put_frag-Ordered lo hi hi' [] k e h l u v = (l, u, tt)
put_frag-Ordered lo hi hi' ((j, f) ∷ b) k e (p, q, r) l u v = elim (Bool-cases (ltb k j)) [
  | inl before ↦
      rw before (l, u, (ground arith, omega arith, Ordered-weaken _ _ _ _ b r (omega arith) v))
  | inr later ↦ elim (Bool-cases (j == k)) [
    | inl same ↦
        let e : j ≡ k = ground arith in
        let r' : Ordered (suc k) b hi' = Ordered-weaken _ _ _ _ b r (omega arith) v in
        rw (later, same) (l, u, r')
    | inr other ↦
        let j<k : suc j ≤ k = ground arith in
        rw (later, other) (p, omega arith, put_frag-Ordered _ hi hi' b k e r j<k u v)
  ]
]

delete_frag-Ordered :
    (lo hi : ℕ) (b : List Entry) (k : ℕ) → Ordered lo b hi → Ordered lo (delete_frag b k) hi
unfolding delete_frag
delete_frag-Ordered lo hi [] k h = tt
delete_frag-Ordered lo hi ((j, f) ∷ b) k (p, q, r) = elim (Bool-cases (j == k)) [
  | inl same ↦ rw same (Ordered-weaken _ _ _ _ b r (omega arith) (omega arith))
  | inr other ↦ rw other (p, q, delete_frag-Ordered _ hi b k r)
]

-- Deleting the lowest possible key raises the lower bound.
pub delete_frag-Ordered_first :
    (hi : ℕ) (b : List Entry) (k : ℕ) → Ordered k b hi → Ordered (suc k) (delete_frag b k) hi
unfolding delete_frag
delete_frag-Ordered_first hi [] k h = tt
delete_frag-Ordered_first hi ((j, f) ∷ b) k (p, q, r) = elim (Bool-cases (j == k)) [
  | inl same ↦
      let e : j ≡ k = ground arith in
      rw same (Ordered-weaken _ _ _ _ b r (omega arith) (omega arith))
  | inr other ↦
      let k<j : suc k ≤ j = ground arith in rw other (k<j, q, delete_frag-Ordered _ hi b k r)
]

pub length-delete_frag :
    (b : List Entry) (k : ℕ) {e : PendingFrag}
    → find_frag b k ≡ some e
    → length b ≡ suc (length (delete_frag b k))
unfolding find_frag delete_frag
length-delete_frag [] k h = absurd (ground arith)
length-delete_frag ((j, f) ∷ b) k h = elim (Bool-cases (j == k)) [
  | inl same ↦ rw same refl
  | inr other ↦ rw other (omega (arith, length-delete_frag b k (rw other at h)))
]

-- A present key lies below the upper bound.
pub find_frag_le :
    (lo hi : ℕ) (b : List Entry) (k : ℕ) {e : PendingFrag}
    → Ordered lo b hi
    → find_frag b k ≡ some e
    → k ≤ hi
unfolding find_frag
find_frag_le lo hi [] k h f = absurd (ground arith)
find_frag_le lo hi ((j, g) ∷ b) k (p, q, r) f = elim (Bool-cases (j == k)) [
  | inl same ↦ let e : j ≡ k = ground arith in omega arith
  | inr other ↦ find_frag_le _ hi b k r (rw other at f)
]
