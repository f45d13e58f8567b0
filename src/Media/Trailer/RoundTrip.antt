-- ===== src/Media/Trailer/RoundTrip.antt =====
-- The trailer is recognised wherever the firmware appends it, and only what it appends is removed.
use ha_addon_petlibro_local.Prelude.{
  ℕ, zero, suc, ◌+◌, ◌-◌, ◌*◌, ◌/◌, ◌%◌, ◌≤◌, ◌<◌, ◌≡◌, refl, sym, ap, ◌∙◌, ◌⊎◌, inl, inr, true,
  false, List, [], ◌∷◌, ◌++◌, ltb, Bool-cases, take, drop, length, length-append, length-drop,
  take-append-drop, arith, u32_mod,
}
use ha_addon_petlibro_local.Wire.Bytes.{at, at-lt, u32_at, le32, AllBytes, AllBytes-drop}
use ha_addon_petlibro_local.Media.Trailer.{
  codec_h264, has_signature, strip_fragment_metadata_trailer,
}

-- The 16 bytes that the firmware appends: codec, frame flag, online count and camera clock.
unfoldable pub trailer : ℕ → ℕ → ℕ → List ℕ
trailer flag online ts = codec_h264 ∷ 0 ∷ flag ∷ 0 ∷ online ∷ 0 ∷ 0 ∷ 0 ∷ 0 ∷ 0 ∷ 0 ∷ 0 ∷ le32 ts

take-append : (xs ys : List ℕ) → take (length xs) (xs ++ ys) ≡ xs
take-append [] [] = refl
take-append [] (y ∷ ys) = refl
take-append (x ∷ xs) ys = ap (λ t. x ∷ t) (take-append xs ys)

drop-append : (n : ℕ) (xs ys : List ℕ) → drop (length xs + n) (xs ++ ys) ≡ drop n ys
drop-append n [] ys = ap (λ (k : ℕ). drop k ys) (omega arith)
drop-append n (x ∷ xs) ys =
    let e : length (x ∷ xs) + n ≡ suc (length xs + n) = omega arith in rw e (drop-append n xs ys)

at-append : (n : ℕ) (xs ys : List ℕ) → at (xs ++ ys) (length xs + n) ≡ at ys n
at-append n [] ys = ap (λ (k : ℕ). at ys k) (omega arith)
at-append n (x ∷ xs) ys =
    let e : length (x ∷ xs) + n ≡ suc (length xs + n) = omega arith in rw e (at-append n xs ys)

le32_whole :
    (v : ℕ)
    → v < u32_mod
    → v % 256 + 256 * (v / 256 % 256) + 65536 * (v / 65536 % 256) + 16777216 * (v / 16777216 % 256)
      ≡ v
le32_whole v h = omega arith

-- A fragment that ends in a trailer is stripped of just that, and the trailer's fields are read.
pub strip-trailer :
    (body : List ℕ) (flag online ts : ℕ)
    → flag ≤ 1
    → ts < u32_mod
    → strip_fragment_metadata_trailer (body ++ trailer flag online ts)
      ≡ record { payload = body; ts = ts; online_num = online; has_ts = true }
unfolding strip_fragment_metadata_trailer trailer has_signature
strip-trailer body flag online ts hf ht =
    let whole = body ++ trailer flag online ts in
    let n : length whole ≡ length body + 16 = length-append body (trailer flag online ts) in
    let long : ltb (length whole) 16 ≡ false = ground (arith, n) in
    let start : length whole - 15 ≡ length body + 1 = omega (arith, n) in
    let front : length whole - 16 ≡ length body + 0 = omega (arith, n) in
    let cut : take (length body + 0) whole ≡ body =
      ap (λ (k : ℕ). take k whole) (omega arith) ∙ take-append body (trailer flag online ts) in
    rw
      (
        long,
        start,
        front,
        drop-append 1 body (trailer flag online ts),
        at-append 0 body (trailer flag online ts),
        cut,
      )
      (ground (arith, le32_whole ts))

-- `n` elements of `q` from index `i` on.
abbrev spell : ℕ → ℕ → List ℕ → List ℕ
spell zero i q = []
spell (suc n) i q = at q i ∷ spell n (suc i) q

spell-cons : (n i x : ℕ) (q : List ℕ) → spell n (suc i) (x ∷ q) ≡ spell n i q
spell-cons zero i x q = refl
spell-cons (suc n) i x q = ap (λ t. at q i ∷ t) (spell-cons n (suc i) x q)

spell_all : (n : ℕ) (q : List ℕ) → length q ≡ n → spell n 0 q ≡ q
spell_all zero [] h = refl
spell_all zero (x ∷ q) h = absurd (omega arith)
spell_all (suc n) [] h = absurd (omega arith)
spell_all (suc n) (x ∷ q) h = ap (λ t. x ∷ t) (spell-cons n 0 x q ∙ spell_all n q (omega arith))

at-drop : (n i : ℕ) (q : List ℕ) → at (drop n q) i ≡ at q (n + i)
at-drop zero i q = ap (λ (k : ℕ). at q k) (omega arith)
at-drop (suc n) i [] = refl
at-drop (suc n) i (x ∷ q) = let e : suc n + i ≡ suc (n + i) = omega arith in rw e (at-drop n i q)

le32_bytes :
    (a b c d : ℕ)
    → a < 256
    → b < 256
    → c < 256
    → d < 256
    → le32 (a + 256 * b + 65536 * c + 16777216 * d) ≡ a ∷ b ∷ c ∷ d ∷ []
le32_bytes a b c d ha hb hc hd = ground arith

-- The fixed bytes that the signature test names.
signature_bytes :
    (q : List ℕ)
    → has_signature (drop 1 q) (at q 0) ≡ true
    → (at q 0 ≡ codec_h264)
      × (at q 1 ≡ 0)
      × (at q 2 ≤ 1)
      × (at q 3 ≡ 0)
      × (at q 5 ≡ 0)
      × (at q 6 ≡ 0)
      × (at q 7 ≡ 0)
      × (at q 8 ≡ 0)
      × (at q 9 ≡ 0)
      × (at q 10 ≡ 0)
      × (at q 11 ≡ 0)
unfolding has_signature
signature_bytes q sig = ground (
  arith,
  at-drop 1 0 q,
  at-drop 1 1 q,
  at-drop 1 2 q,
  at-drop 1 4 q,
  at-drop 1 5 q,
  at-drop 1 6 q,
  at-drop 1 7 q,
  at-drop 1 8 q,
  at-drop 1 9 q,
  at-drop 1 10 q,
)

-- Sixteen bytes with the signature are a trailer.
signed_trailer :
    (q : List ℕ)
    → length q ≡ 16
    → AllBytes q
    → has_signature (drop 1 q) (at q 0) ≡ true
    → (at q 2 ≤ 1) × (q ≡ trailer (at q 2) (at q 4) (u32_at q 12))
unfolding has_signature trailer
signed_trailer q n bytes sig =
    let f = signature_bytes q sig in
    let clock =
      le32_bytes (at q 12) (at q 13) (at q 14) (at q 15) (at-lt q 12 bytes) (at-lt q 13 bytes)
        (at-lt q 14 bytes) (at-lt q 15 bytes) in
    (f.2, sym (spell_all 16 q n) ∙ ground (arith, f, clock))

drop_one : (n : ℕ) (p : List ℕ) → drop (suc n) p ≡ drop 1 (drop n p)
drop_one zero p = refl
drop_one (suc n) [] = refl
drop_one (suc n) (x ∷ p) = drop_one n p

-- The two answers of the test.
strip_cases :
    (p : List ℕ)
    → ((strip_fragment_metadata_trailer p).has_ts ≡ false)
      ⊎ ((16 ≤ length p)
          × (has_signature (drop (length p - 15) p) (at p (length p - 16)) ≡ true)
          × (strip_fragment_metadata_trailer p ≡ record {
            payload = take (length p - 16) p;
            ts = u32_at (drop (length p - 15) p) 11;
            online_num = at (drop (length p - 15) p) 3;
            has_ts = true;
          }))
unfolding strip_fragment_metadata_trailer
strip_cases p = elim (Bool-cases (ltb (length p) 16)) [
  | inl short ↦ rw short (inl refl)
  | inr long ↦
      rw long (elim (Bool-cases (has_signature (drop (length p - 15) p) (at p (length p - 16)))) [
        | inl sig ↦ rw sig (inr (ground arith, refl, refl))
        | inr no_sig ↦ rw no_sig (inl refl)
      ])
]

-- Conversely, where a trailer is found the fragment is what is left followed by that trailer.
pub strip_sound :
    (p : List ℕ)
    → AllBytes p
    → (strip_fragment_metadata_trailer p).has_ts ≡ true
    → (flag : ℕ) × (flag ≤ 1)
      × (let s = strip_fragment_metadata_trailer p in
          p ≡ s.payload ++ trailer flag s.online_num s.ts)
strip_sound p bytes h = elim (strip_cases p) [
  | inl not_found ↦ absurd (cc)
  | inr (long, sig, e) ↦
      let q = drop (length p - 16) p in
      let next : length p - 15 ≡ suc (length p - 16) = omega arith in
      let tail : drop (length p - 15) p ≡ drop 1 q = rw next (drop_one (length p - 16) p) in
      let first : at p (length p - 16) ≡ at q 0 =
        sym (at-drop (length p - 16) 0 p ∙ ap (λ (k : ℕ). at p k) (omega arith)) in
      let found =
        signed_trailer q (omega (arith, length-drop (length p - 16) p))
          (AllBytes-drop (length p - 16) p bytes) (rw (tail, first) at sig) in
      (
        at q 2,
        found.0,
        rw
            (
              e,
              tail,
              at-drop 1 3 q,
              at-drop 1 11 q,
              at-drop 1 12 q,
              at-drop 1 13 q,
              at-drop 1 14 q,
              ← found.1,
            )
            (sym (take-append-drop (length p - 16) p)),
      )
]
