-- ===== src/Media/Control/Disjoint.antt =====
-- A packet of the reliable control family is never taken for media.
use Prim.Native.Nat.{bit_and}
use ha_addon_petlibro_local.Prelude.{
  ℕ, ◌≡◌, ◌⊎◌, inl, inr, true, false, ◌||◌, none, some, List, ◌==◌, Bool-cases, arith,
}
use ha_addon_petlibro_local.Wire.Bytes.{at, at-lt, u16_at, AllBytes}
use ha_addon_petlibro_local.Media.Extended.{is_extended_media_family}
use ha_addon_petlibro_local.Media.Normal.{
  is_video, classify, decode_normal_media, decode_bootstrap_media,
}
use ha_addon_petlibro_local.Media.Control.{
  is_short_family, is_ioctl_family, reliable_control_sequence,
}

-- Every extended media type has the bit that the control family lacks.
extended_bit : (b1 : ℕ) → bit_and b1 0x08 ≡ 0 → is_extended_media_family b1 ≡ false
unfolding is_extended_media_family
extended_bit b1 h = elim (Bool-cases (b1 == 0x08 || b1 == 0x09 || b1 == 0x0c || b1 == 0x0d)) [
  | inr no_member ↦ no_member
  | inl member ↦ elim (four b1 member) [
    | inl (inl e) ↦ let k : bit_and 8 8 ≡ 0 = rw e at h in absurd (omega arith)
    | inl (inr e) ↦ let k : bit_and 9 8 ≡ 0 = rw e at h in absurd (omega arith)
    | inr (inl e) ↦ let k : bit_and 12 8 ≡ 0 = rw e at h in absurd (omega arith)
    | inr (inr e) ↦ let k : bit_and 13 8 ≡ 0 = rw e at h in absurd (omega arith)
  ]
]
  where
    four :
        (b : ℕ)
        → (b == 0x08 || b == 0x09 || b == 0x0c || b == 0x0d) ≡ true
        → ((b ≡ 8) ⊎ (b ≡ 9)) ⊎ ((b ≡ 12) ⊎ (b ≡ 13))
    four b h = ground arith

-- What the control family says of the packet's bytes.
record Control (inner : List ℕ) : Type 0 where
  bit : bit_and (at inner 1) 0x08 ≡ 0
  family : (is_short_family (u16_at inner 16) || is_ioctl_family (u16_at inner 16)) ≡ true

reliable-Control :
    (inner : List ℕ) {seq : ℕ} → reliable_control_sequence inner ≡ some seq → Control inner
unfolding reliable_control_sequence
reliable-Control inner h = record { bit = ground arith; family = ground arith }

control_channel :
    (inner : List ℕ)
    → AllBytes inner
    → (is_short_family (u16_at inner 16) || is_ioctl_family (u16_at inner 16)) ≡ true
    → at inner 16 ≡ 0
unfolding is_short_family is_ioctl_family
control_channel inner bytes h = ground (arith, at-lt inner 16 bytes, at-lt inner 17 bytes)

not_normal : (inner : List ℕ) → at inner 16 ≡ 0 → decode_normal_media inner ≡ none
unfolding decode_normal_media classify is_video
not_normal inner h = ground arith

-- A packet that `reliableControlSequence` accepts is refused by both media decoders, so no media
-- fragment is lost to the control sequence and no control message reaches the assembler.
pub reliable_not_media :
    (inner : List ℕ) {seq : ℕ}
    → AllBytes inner
    → reliable_control_sequence inner ≡ some seq
    → decode_bootstrap_media inner ≡ none
unfolding decode_bootstrap_media
reliable_not_media inner bytes h =
    let c = reliable-Control inner h in
    ground (
      arith,
      extended_bit (at inner 1) c.bit,
      not_normal inner (control_channel inner bytes c.family),
    )
