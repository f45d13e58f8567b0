-- ===== src/Media/Extended/Accepts.antt =====
-- When `decodeExtendedMedia` accepts a packet, and what the accepted value holds.
use ha_addon_petlibro_local.Prelude.{
  ℕ, ◌+◌, ◌-◌, ◌≤◌, ◌<◌, ◌≡◌, ◌≢◌, ◌↔◌, ◌⊎◌, inl, inr, ap, ◌∙◌, Bool, true, false, ◌||◌, List, ◌==◌,
  Bool-cases, length, add32, arith,
}
use ha_addon_petlibro_local.Wire.Bytes.{at, u16_at, u32_at, slice}
use ha_addon_petlibro_local.Media.Trailer.{strip_fragment_metadata_trailer}
use ha_addon_petlibro_local.Media.Extended.{
  DecodedMedia, zero_media, inner_ch_key, inner_ch_inter, is_extended_media_family, check_data,
  check_end, take_payload, check_header, read_header, decode_extended_media,
}

-- A data fragment: an index in range and no trailer. An end fragment: the marker 16 and a trailer.
abbrev pub DataShape : List ℕ → Bool → Type 0
DataShape inner has_trailer =
    ((at inner 1 ≡ 0x08) ⊎ (at inner 1 ≡ 0x0c))
    × (at inner 25 ≡ 0)
    × (u16_at inner 30 < u16_at inner 28)
    × (has_trailer ≡ false)

abbrev pub EndShape : List ℕ → Bool → Type 0
EndShape inner has_trailer =
    ((at inner 1 ≡ 0x09) ⊎ (at inner 1 ≡ 0x0d))
    × (at inner 25 ≡ 1)
    × (u16_at inner 30 ≡ 16)
    × (has_trailer ≡ true)

-- The layout of an extended packet, in terms of its bytes alone.
pub record Extended (inner : List ℕ) : Type 0 where
  pub header : 44 ≤ length inner
  pub video : (at inner 24 ≡ inner_ch_key) ⊎ (at inner 24 ≡ inner_ch_inter)
  pub frags : u16_at inner 28 ≢ 0
  pub filled : u16_at inner 32 ≢ 0
  pub fits : 44 + u16_at inner 32 ≤ length inner
  pub coherent : u32_at inner 40 ≡ add32 (u32_at inner 36) 1
  pub shape :
      let has_trailer =
        (strip_fragment_metadata_trailer (slice inner 44 (44 + u16_at inner 32))).has_ts in
      DataShape inner has_trailer ⊎ EndShape inner has_trailer

-- What an accepted packet decodes to.
abbrev pub extended_media : List ℕ → Bool → DecodedMedia
extended_media inner is_end = record {
  b1 = at inner 1;
  channel = at inner 24;
  sub_flag = at inner 25;
  sub_wire = u16_at inner 26;
  total_frags = u16_at inner 28;
  frag_idx = u16_at inner 30;
  payload_len = u16_at inner 32;
  frame_num = u32_at inner 36;
  next_frame_like = u32_at inner 40;
  payload = slice inner 44 (44 + u16_at inner 32);
  extra_len = length inner - (44 + u16_at inner 32);
  is_audio = false;
  is_end = is_end;
  extended = true;
}

check_data-ok :
    (has_trailer : Bool) (m : DecodedMedia)
    → (check_data has_trailer m).ok ≡ true
    → (m.sub_flag ≡ 0)
      × (m.frag_idx < m.total_frags)
      × (has_trailer ≡ false)
      × ((check_data has_trailer m).media ≡ m)
unfolding check_data
check_data-ok has_trailer m h = ground arith

check_end-ok :
    (has_trailer : Bool) (m : DecodedMedia)
    → (check_end has_trailer m).ok ≡ true
    → (m.sub_flag ≡ 1)
      × (m.frag_idx ≡ 16)
      × (has_trailer ≡ true)
      × ((check_end has_trailer m).media ≡ m)
unfolding check_end
check_end-ok has_trailer m h = ground arith

-- What the checks of the header have established when the payload is taken.
record Header (inner : List ℕ) (m : DecodedMedia) : Type 0 where
  video : (m.channel ≡ inner_ch_key) ⊎ (m.channel ≡ inner_ch_inter)
  frags : m.total_frags ≢ 0
  filled : m.payload_len ≢ 0
  fits : 44 + m.payload_len ≤ length inner
  coherent : m.next_frame_like ≡ add32 m.frame_num 1
  same : check_header inner m ≡ take_payload inner m

check_header-Header :
    (inner : List ℕ) (m : DecodedMedia) → (check_header inner m).ok ≡ true → Header inner m
unfolding check_header
check_header-Header inner m h = record {
  video = ground arith;
  frags = ground arith;
  filled = ground arith;
  fits = ground arith;
  coherent = ground arith;
  same = ground arith;
}

-- The header as it is read from the bytes.
abbrev header_of : List ℕ → DecodedMedia
header_of inner =
    read_header inner
      (record zero_media { b1 = at inner 1; sub_wire = u16_at inner 26; extended = true })

record Opened (inner : List ℕ) : Type 0 where
  long : 44 ≤ length inner
  family : is_extended_media_family (at inner 1) ≡ true
  same : decode_extended_media inner ≡ check_header inner (header_of inner)

decode-Opened : (inner : List ℕ) → (decode_extended_media inner).ok ≡ true → Opened inner
unfolding decode_extended_media
decode-Opened inner h = record { long = ground arith; family = ground arith; same = ground arith }

abbrev trailer_of : List ℕ → Bool
trailer_of inner = (strip_fragment_metadata_trailer (slice inner 44 (44 + u16_at inner 32))).has_ts

Header-Extended :
    (inner : List ℕ)
    → 44 ≤ length inner
    → Header inner (header_of inner)
    → DataShape inner (trailer_of inner) ⊎ EndShape inner (trailer_of inner)
    → Extended inner
Header-Extended inner long hd shape = record {
  header = long;
  video = hd.video;
  frags = hd.frags;
  filled = hd.filled;
  fits = hd.fits;
  coherent = hd.coherent;
  shape = shape;
}

-- Accepted, with the value that is returned.
pub record Accepted (inner : List ℕ) (m : DecodedMedia) : Type 0 where
  pub layout : Extended inner
  pub value : m ≡ extended_media inner (at inner 1 == 0x09 || at inner 1 == 0x0d)

take_payload-Accepted :
    (inner : List ℕ)
    → 44 ≤ length inner
    → is_extended_media_family (at inner 1) ≡ true
    → Header inner (header_of inner)
    → (take_payload inner (header_of inner)).ok ≡ true
    → Accepted inner (take_payload inner (header_of inner)).media
unfolding take_payload is_extended_media_family
take_payload-Accepted inner long family hd h =
    elim (Bool-cases (at inner 1 == 0x08 || at inner 1 == 0x0c)) [
      | inl d ↦
          let r = check_data-ok (trailer_of inner) (extended_media inner false) (rw d at h) in
          let flag : false ≡ (at inner 1 == 0x09 || at inner 1 == 0x0d) = ground arith in
          rw d (record {
            layout = Header-Extended inner long hd (inl (ground arith, r.0, r.1, r.2));
            value = r.3 ∙ ap (extended_media inner) flag;
          })
      | inr e ↦
          let r = check_end-ok (trailer_of inner) (extended_media inner true) (rw e at h) in
          let flag : true ≡ (at inner 1 == 0x09 || at inner 1 == 0x0d) = ground arith in
          rw e (record {
            layout = Header-Extended inner long hd (inr (ground arith, r.0, r.1, r.2));
            value = r.3 ∙ ap (extended_media inner) flag;
          })
    ]

-- An accepted packet has the extended layout, and its fields are read at the layout's offsets.
pub decode_extended_media-Accepted :
    (inner : List ℕ)
    → (decode_extended_media inner).ok ≡ true
    → Accepted inner (decode_extended_media inner).media
decode_extended_media-Accepted inner h =
    let o = decode-Opened inner h in
    let hd = check_header-Header inner (header_of inner) (rw o.same at h) in
    let ok = rw (o.same, hd.same) at h in
    rw (o.same, hd.same) (take_payload-Accepted inner o.long o.family hd ok)

-- `decodeExtendedMedia` accepts exactly the packets of the extended layout.
pub decode_extended_media-ok :
    (inner : List ℕ) → ((decode_extended_media inner).ok ≡ true) ↔ Extended inner
unfolding decode_extended_media check_header take_payload check_data check_end
    is_extended_media_family
decode_extended_media-ok inner =
    (λ h. (decode_extended_media-Accepted inner h).layout, λ e. ground arith)
