-- ===== src/Discovery/Response.antt =====
-- An accepted response names the camera that was asked for.
use ha_addon_petlibro_local.Prelude.{
  ℕ, suc, ◌≤◌, ◌≡◌, refl, sym, ap, ◌∙◌, ◌⊎◌, inl, inr, Bool, true, not, ◌&&◌, ◌||◌, Bool-cases,
  List, [], ◌∷◌, if◌then◌else◌, ltb, ◌==◌, length, arith,
}
use ha_addon_petlibro_local.Wire.Bytes.{u16_at, slice, length-slice}
use ha_addon_petlibro_local.Wire.Frames.{msg_lan_search_r, msg_knock_rr2}
use ha_addon_petlibro_local.Assembler.Output.{equal_bytes, equal_bytes-eq}
use ha_addon_petlibro_local.Discovery.{
  accepted, malformed, wrong_uid, is_ascii_alpha_numeric, trim_left, trim_right, trim_zeros,
  classify_search, classify_knock, classify_discovery_response,
}

-- Trimming that removes nothing changes nothing.
length-trim_left : (b : List ℕ) → length (trim_left b) ≤ length b
unfolding trim_left
length-trim_left [] = omega arith
length-trim_left (x ∷ b) = ground (arith, length-trim_left b)

trim_left_full : (b : List ℕ) → length (trim_left b) ≡ length b → trim_left b ≡ b
unfolding trim_left
trim_left_full [] h = refl
trim_left_full (x ∷ b) h = elim (Bool-cases (x == 0)) [
  | inl nul ↦
      let k : length (trim_left b) ≡ suc (length b) = rw nul at h in
      absurd (omega (arith, length-trim_left b))
  | inr other ↦ rw other refl
]

length-trim_right : (b : List ℕ) → length (trim_right b) ≤ length b
unfolding trim_right
length-trim_right [] = omega arith
length-trim_right (x ∷ b) = ground (arith, length-trim_right b)

trim_right_full : (b : List ℕ) → length (trim_right b) ≡ length b → trim_right b ≡ b
unfolding trim_right
trim_right_full [] h = refl
trim_right_full (x ∷ b) h = elim (Bool-cases (x == 0 && length (trim_right b) == 0)) [
  | inl nul ↦ let k : 0 ≡ suc (length b) = rw nul at h in absurd (omega arith)
  | inr other ↦
      let k : suc (length (trim_right b)) ≡ suc (length b) = rw other at h in
      rw other (ap (λ t. x ∷ t) (trim_right_full b (omega arith)))
]

trim_zeros_full : (b : List ℕ) → length (trim_zeros b) ≡ length b → trim_zeros b ≡ b
unfolding trim_zeros
trim_zeros_full b h =
    let left = length-trim_left b in
    let right = length-trim_right (trim_left b) in
    trim_right_full (trim_left b) (omega arith) ∙ trim_left_full b (omega arith)

search_tests :
    (n : ℕ) (candidate uid : List ℕ) (alnum same : Bool)
    → (if ltb n 0x24
        then malformed
        else if not (length candidate == 20) || not alnum
        then malformed
        else if not same
        then wrong_uid
        else accepted)
      ≡ accepted
    → (0x24 ≤ n) × (length candidate ≡ 20) × (same ≡ true)
search_tests n candidate uid alnum same h = (ground arith, ground arith, ground arith)

search_uid : (pkt uid : List ℕ) → classify_search pkt uid ≡ accepted → slice pkt 0x10 0x24 ≡ uid
unfolding classify_search
search_uid pkt uid h =
    let candidate = trim_zeros (slice pkt 0x10 0x24) in
    let (long, full, same) =
      search_tests (length pkt) candidate uid (is_ascii_alpha_numeric candidate)
        (equal_bytes candidate uid) h in
    let size = length-slice pkt 0x10 0x24 (omega arith) long in
    sym (trim_zeros_full (slice pkt 0x10 0x24) (omega (arith, size, full)))
    ∙ equal_bytes-eq candidate uid same

knock_uid :
    (pkt uid nonce : List ℕ)
    → classify_knock pkt uid nonce ≡ accepted
    → (slice pkt 0x10 0x24 ≡ uid) × (slice pkt 0x24 0x2c ≡ nonce)
unfolding classify_knock
knock_uid pkt uid nonce h = (
  equal_bytes-eq (slice pkt 0x10 0x24) uid (ground arith),
  equal_bytes-eq (slice pkt 0x24 0x2c) nonce (ground arith),
)

-- An accepted response carries the UID that was asked for at bytes 16 to 35, with no byte trimmed. A
-- response to the knock echoes the nonce as well.
pub classify_discovery_response-accepted :
    (pkt uid nonce : List ℕ)
    → classify_discovery_response pkt uid nonce ≡ accepted
    → (slice pkt 0x10 0x24 ≡ uid)
      × ((u16_at pkt 8 ≡ msg_lan_search_r)
          ⊎ ((u16_at pkt 8 ≡ msg_knock_rr2) × (slice pkt 0x24 0x2c ≡ nonce)))
unfolding classify_discovery_response
classify_discovery_response-accepted pkt uid nonce h =
    elim (Bool-cases (u16_at pkt 8 == msg_lan_search_r)) [
      | inl search ↦ let s = search_uid pkt uid (ground arith) in (s, inl (ground arith))
      | inr other ↦
          let (u, n) = knock_uid pkt uid nonce (ground arith) in (u, inr (ground arith, n))
    ]
