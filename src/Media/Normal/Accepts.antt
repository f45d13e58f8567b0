-- ===== src/Media/Normal/Accepts.antt =====
-- What an accepted packet of the 36-byte layout holds.
use ha_addon_petlibro_local.Prelude.{
  ℕ, ◌+◌, ◌≤◌, ◌<◌, ◌≡◌, ◌≢◌, ◌⊎◌, inl, inr, refl, ap, Bool, true, false, ◌&&◌, ◌||◌, some, List,
  [], ltb, ◌==◌, Bool-cases, length, arith,
}
use ha_addon_petlibro_local.Wire.Bytes.{at, u16_at, u32_at, slice}
use ha_addon_petlibro_local.Media.Extended.{
  DecodedMedia, inner_ch_key, inner_ch_inter, inner_ch_audio,
}
use ha_addon_petlibro_local.Media.Normal.{
  payload_from, is_video, has_adts, need_audio, after_eight, classify, read_fields,
  decode_normal_media,
}

-- The three kinds of packet: a full data fragment, an end fragment, an AAC frame.
pub data Kind (inner : List ℕ) (m : DecodedMedia) : Type 0 where
  data_fragment :
      (m.channel ≡ inner_ch_key) ⊎ (m.channel ≡ inner_ch_inter)
      → m.payload ≡ slice inner 36 (36 + u16_at inner 24)
      → 0 < u16_at inner 24
      → 36 + u16_at inner 24 ≤ length inner
      → m.is_end ≡ false
      → m.is_audio ≡ false
      → Kind inner m
  end_fragment :
      (m.channel ≡ inner_ch_key) ⊎ (m.channel ≡ inner_ch_inter)
      → m.b1 ≡ 1
      → m.sub_flag ≡ 1
      → m.payload ≡ payload_from inner (u16_at inner 24) 36
      → m.is_end ≡ true
      → m.is_audio ≡ false
      → Kind inner m
  aac_frame :
      m.is_end ≡ false
      → m.is_audio ≡ true
      → m.payload ≢ []
      → ((m.channel ≡ inner_ch_audio)
          × (m.payload ≡ payload_from inner (u16_at inner 24) 36)
          × (has_adts inner 36 ≡ true))
        ⊎ ((m.channel ≡ inner_ch_inter)
            × (m.payload ≡ after_eight (payload_from inner (u16_at inner 24) 36))
            × (has_adts inner 44 ≡ true))
      → Kind inner m

pub record Accepted (inner : List ℕ) (m : DecodedMedia) : Type 0 where
  pub header : 36 ≤ length inner
  pub sub_wire : m.sub_wire ≡ u16_at inner 18
  pub frame_num : m.frame_num ≡ u32_at inner 28
  pub frag_idx : m.frag_idx ≡ u16_at inner 22
  pub total_frags : m.total_frags ≡ at inner 20
  pub kind : Kind inner m

abbrev is_data_kind : List ℕ → Bool
is_data_kind inner =
    (at inner 16 == inner_ch_key || at inner 16 == inner_ch_inter)
    && (at inner 1 == 0x00 || at inner 1 == 0x04 || at inner 1 == 0x05)

abbrev is_end_kind : List ℕ → Bool
is_end_kind inner =
    (at inner 16 == inner_ch_key || at inner 16 == inner_ch_inter)
    && at inner 1 == 0x01
    && at inner 17 == 0x01

abbrev is_audio_kind : List ℕ → Bool
is_audio_kind inner = at inner 16 == inner_ch_audio && at inner 17 == 0x01 && has_adts inner 36

abbrev is_late_audio_kind : List ℕ → Bool
is_late_audio_kind inner =
    at inner 16 == inner_ch_inter && at inner 17 == 0x00 && at inner 1 == 0x0d && has_adts inner 44

need_audio-some :
    (m : DecodedMedia) {m' : DecodedMedia}
    → need_audio m ≡ some m'
    → (m' ≡ m) × (m.is_audio ≡ true → m.payload ≢ [])
unfolding need_audio
need_audio-some m h = (ground arith, λ a e. ground (arith, ap length e))

abbrev payload_of : List ℕ → List ℕ
payload_of inner = payload_from inner (u16_at inner 24) 36

payload_in_range :
    (inner : List ℕ) (n : ℕ)
    → (n == 0 || ltb (length inner) (36 + n)) ≡ false
    → (payload_from inner n 36 ≡ slice inner 36 (36 + n)) × (0 < n) × (36 + n ≤ length inner)
unfolding payload_from
payload_in_range inner n h = ground arith

classify-Kind :
    (inner : List ℕ) {m : DecodedMedia} → classify inner (read_fields inner) ≡ some m → Kind inner m
unfolding classify is_video
classify-Kind inner {m} h = elim (Bool-cases (is_data_kind inner)) [
  | inl d ↦ elim (Bool-cases (u16_at inner 24 == 0 || ltb (length inner) (36 + u16_at inner 24))) [
    | inl bad ↦ let h' = rw (d, bad) at h in absurd (cc)
    | inr good ↦
        let r =
          need_audio-some (record (read_fields inner) { payload = payload_of inner })
            (rw (d, good) at h) in
        let (e, pos, fits) = payload_in_range inner (u16_at inner 24) good in
        rw r.0 (data_fragment (ground arith) e pos fits refl refl)
  ]
  | inr nd ↦ elim (Bool-cases (is_end_kind inner)) [
    | inl e ↦
        let r =
          need_audio-some (record (read_fields inner) { payload = payload_of inner; is_end = true })
            (rw (nd, e) at h) in
        rw r.0 (end_fragment (ground arith) (ground arith) (ground arith) refl refl refl)
    | inr ne ↦ elim (Bool-cases (is_audio_kind inner)) [
      | inl a ↦
          let r =
            need_audio-some
              (record (read_fields inner) { payload = payload_of inner; is_audio = true })
              (rw (nd, ne, a) at h) in
          rw r.0 (aac_frame refl refl (r.1 refl) (inl (ground arith, refl, ground arith)))
      | inr na ↦ elim (Bool-cases (is_late_audio_kind inner)) [
        | inl a ↦
            let r =
              need_audio-some
                (record (read_fields inner) {
                  payload = after_eight (payload_of inner);
                  is_audio = true;
                })
                (rw (nd, ne, na, a) at h) in
            rw r.0 (aac_frame refl refl (r.1 refl) (inr (ground arith, refl, ground arith)))
        | inr other ↦ let h' = rw (nd, ne, na, other) at h in absurd (cc)
      ]
    ]
  ]
]

pub decode_normal_media-Accepted :
    (inner : List ℕ) {m : DecodedMedia} → decode_normal_media inner ≡ some m → Accepted inner m
unfolding decode_normal_media classify need_audio is_video
decode_normal_media-Accepted inner h = record {
  header = ground arith;
  sub_wire = ground arith;
  frame_num = ground arith;
  frag_idx = ground arith;
  total_frags = ground arith;
  kind = classify-Kind inner (ground arith);
}
