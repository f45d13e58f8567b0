-- ===== src/Wire/Frames/Layout.antt =====
-- The builders produce the layouts that templates.go documents, and the client's own readers find
-- the fields again.
use ha_addon_petlibro_local.Prelude.{
  ℕ, suc, ◌+◌, ◌*◌, ◌/◌, ◌%◌, ◌<◌, ◌≡◌, refl, ap, ◌∙◌, ◌⊎◌, some, ◌==◌, List, [], ◌∷◌, ◌++◌, length,
  false, if◌then◌else◌, to_u16, u16_mod, u32_mod, arith, length-append,
}
use ha_addon_petlibro_local.Wire.Bytes.{
  le16, le32, zeros, zeros-add, copy_at, copy_at-append, copy_at-nil, copy_at_whole,
}
use mathlib.Core.List.{append_assoc}
use ha_addon_petlibro_local.Ack.Window.{TransportAck}
use ha_addon_petlibro_local.Wire.Frames.{
  magic_version, put, put16, ◌|>◌, build_outer, inner_data, xor_body, inner_timing_probe,
  inner_timing_feedback, put_missing, marshal_size, marshal,
}
use ha_addon_petlibro_local.Media.Control.{
  is_short_family, is_ioctl_family, reliable_control_sequence, timing_probe_response,
}
use ha_addon_petlibro_local.Wire.Frames.Scramble.{length-xor_from}

-- The outer header of 28 bytes, then the body.
pub build_outer-layout :
    (n0 n1 n2 n3 n4 n5 n6 n7 seq datatype channel_id flags : ℕ) (body : List ℕ)
    → build_outer (n0 ∷ n1 ∷ n2 ∷ n3 ∷ n4 ∷ n5 ∷ n6 ∷ n7 ∷ []) seq body datatype channel_id flags
      ≡ (0x04 ∷ 0x02 ∷ magic_version ∷ flags ∷ le16 (to_u16 (length body + 12)))
        ++ le16 seq
        ++ (0x07 ∷ 0x04 ∷ 0x21 ∷ 0 ∷ n0 ∷ n1 ∷ channel_id ∷ datatype ∷ 12 ∷ 0 ∷ 0 ∷ 0 ∷ [])
        ++ (n0 ∷ n1 ∷ n2 ∷ n3 ∷ n4 ∷ n5 ∷ n6 ∷ n7 ∷ body)
unfolding build_outer copy_at
build_outer-layout n0 n1 n2 n3 n4 n5 n6 n7 seq datatype channel_id flags body =
    rw (zeros-add 28 (length body), copy_at-nil, copy_at_whole (length body) body refl)

length-xor_body : (b : List ℕ) → length (xor_body b) ≡ length b
unfolding xor_body
length-xor_body b = length-xor_from 0 b

-- The IOCtrl envelope of 36 bytes, then the scrambled payload.
inner_data-layout :
    (counter channel_family message_seq : ℕ) (payload : List ℕ)
    → inner_data counter channel_family message_seq payload
      ≡ (0x0c ∷ 0 ∷ 0x0c ∷ 0 ∷ le16 counter)
        ++ (0 ∷ 0 ∷ 0 ∷ 0 ∷ 0 ∷ 0 ∷ 0 ∷ 0 ∷ 0 ∷ 0 ∷ le16 channel_family)
        ++ le16 message_seq
        ++ (1 ∷ 0 ∷ 0 ∷ 0 ∷ le32 (length payload))
        ++ le32 message_seq
        ++ (0 ∷ 0 ∷ 0 ∷ 0 ∷ xor_body payload)
unfolding inner_data copy_at
inner_data-layout counter channel_family message_seq payload = rw (
  zeros-add 36 (length payload),
  copy_at_whole (length payload) (xor_body payload) (length-xor_body payload),
)

-- `b` with the offsets of `missing` appended.
abbrev pub le16s : List ℕ → List ℕ
le16s [] = []
le16s (v ∷ vs) = le16 v ++ le16s vs

-- The fixed 22 bytes of a report.
abbrev pub ack_header : TransportAck → List ℕ
ack_header a =
    (0x09 ∷ 0 ∷ 0x0c ∷ 0 ∷ le16 a.ordinal)
    ++ (0 ∷ 0 ∷ le16 a.av_base)
    ++ le16 a.av_high
    ++ le16 a.reliable_recv_ack
    ++ le16 (to_u16 (length a.missing))
    ++ le16 a.state
    ++ le16 a.send_count
    ++ le16 a.tick

-- Writing the offsets behind `front` fills the zeros there.
put_missing-append :
    (front missing : List ℕ)
    → put_missing (length front) missing (front ++ zeros (2 * length missing))
      ≡ front ++ le16s missing
unfolding put_missing
put_missing-append front [] = refl
put_missing-append front (v ∷ vs) =
    let room : 2 * suc (length vs) ≡ suc (suc (2 * length vs)) = omega arith in
    let next : length front + 2 ≡ length (front ++ le16 v) =
      omega (arith, length-append front (le16 v)) in
    rw (room, copy_at-append front (0 ∷ 0 ∷ zeros (2 * length vs)) (le16 v), two_bytes)
      (rw (next, ← append_assoc front (le16 v) (zeros (2 * length vs)))
        (put_missing-append (front ++ le16 v) vs ∙ append_assoc front (le16 v) (le16s vs)))
  where
    two_bytes : copy_at (0 ∷ 0 ∷ zeros (2 * length vs)) 0 (le16 v) ≡ le16 v ++ zeros (2 * length vs)
    two_bytes = unfold copy_at in ap (λ t. le16 v ++ t) (copy_at-nil (zeros (2 * length vs)) 0)

-- The fields of a report over a buffer of at least 22 zeros.
header_written :
    (a : TransportAck) (z : List ℕ)
    → (zeros 22 ++ z
        |> put 0 0x09
        |> put 2 0x0c
        |> put16 4 a.ordinal
        |> put16 8 a.av_base
        |> put16 10 a.av_high
        |> put16 12 a.reliable_recv_ack
        |> put16 14 (to_u16 (length a.missing))
        |> put16 16 a.state
        |> put16 18 a.send_count
        |> put16 20 a.tick)
      ≡ ack_header a ++ z
unfolding copy_at
header_written a z = rw (copy_at-nil z 0) refl

-- The report: 22 bytes, then the offsets. A report without offsets is padded to 24 bytes.
pub marshal-layout :
    (a : TransportAck)
    → marshal a ≡ ack_header a ++ (if length a.missing == 0 then 0 ∷ 0 ∷ [] else le16s a.missing)
unfolding marshal marshal_size
marshal-layout a = go a.missing refl
  where
    go :
        (missing : List ℕ)
        → a.missing ≡ missing
        → marshal a
          ≡ ack_header a ++ (if length a.missing == 0 then 0 ∷ 0 ∷ [] else le16s a.missing)
    go [] e = rw e (unfold put_missing copy_at in refl)
    go (v ∷ vs) e =
        let long : marshal_size (length (v ∷ vs)) ≡ 22 + 2 * length (v ∷ vs) = ground arith in
        let b = record a { missing = v ∷ vs } in
        let offsets : (length (v ∷ vs) == 0) ≡ false = ground arith in
        rw (e, long, offsets, zeros-add 22 (2 * length (v ∷ vs)))
          (ap (put_missing 22 (v ∷ vs)) (header_written b (zeros (2 * length (v ∷ vs))))
            ∙ put_missing-append (ack_header b) (v ∷ vs))

-- What the client's own reader finds in an IOCtrl envelope: its message sequence.
pub reliable_control_sequence-inner_data :
    (counter family message_seq : ℕ) (payload : List ℕ)
    → (family ≡ 0x1000) ⊎ (family ≡ 0x7000)
    → message_seq < u16_mod
    → length payload < u32_mod
    → reliable_control_sequence (inner_data counter family message_seq payload) ≡ some message_seq
unfolding reliable_control_sequence is_short_family is_ioctl_family
reliable_control_sequence-inner_data counter family message_seq payload which seq_fits fits =
    rw (inner_data-layout counter family message_seq payload)
      (ground (arith, length-xor_body payload))

-- The answer to the client's own probe echoes the probe's stamp, cut to 16 bits.
pub timing_probe_response-inner_timing_probe :
    (ordinal stamp : ℕ)
    → timing_probe_response (inner_timing_probe ordinal stamp)
      ≡ some (inner_timing_feedback 0 0 (stamp % u16_mod) 0)
unfolding timing_probe_response inner_timing_probe copy_at
timing_probe_response-inner_timing_probe ordinal stamp =
    let echo : stamp % 256 + 256 * (stamp / 256 % 256) ≡ stamp % u16_mod = omega arith in
    rw echo refl
