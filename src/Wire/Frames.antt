-- ===== src/Wire/Frames.antt =====
-- The frame builders of pkg/petlibro/templates.go. A buffer from `make` is zeros, and each
-- PutUint16, PutUint32, `copy` or indexed write overwrites it in place.
pub mod Layout
pub mod Scramble
pub mod Login
use Prim.Native.Nat.{bit_xor}
use ha_addon_petlibro_local.Prelude.{
  ℕ, zero, suc, ◌+◌, ◌*◌, ◌%◌, List, [], ◌∷◌, ◌++◌, map, if◌then◌else◌, length, take, ltb, to_u16,
}
use ha_addon_petlibro_local.Wire.Bytes.{at, le16, le32, zeros, copy_at}
use ha_addon_petlibro_local.Ack.Window.{TransportAck}

abbrev pub magic_version : ℕ
magic_version = 0x1d

abbrev pub flags_control : ℕ
flags_control = 0x02

abbrev pub flags_session : ℕ
flags_session = 0x0b

abbrev pub flags_recv : ℕ
flags_recv = 0x0a

abbrev pub flags_alive : ℕ
flags_alive = 0x0a

abbrev pub msg_lan_search3 : ℕ
msg_lan_search3 = 0x0601

abbrev pub msg_lan_search_r : ℕ
msg_lan_search_r = 0x0602

abbrev pub msg_knock2 : ℕ
msg_knock2 = 0x0402

abbrev pub msg_knock_rr2 : ℕ
msg_knock_rr2 = 0x0404

abbrev pub msg_session_c2d : ℕ
msg_session_c2d = 0x0407

abbrev pub msg_session_d2c : ℕ
msg_session_d2c = 0x0408

abbrev pub msg_alive_c2d : ℕ
msg_alive_c2d = 0x0427

abbrev pub sdk_version : List ℕ
sdk_version = 0x00 ∷ 0x08 ∷ 0x03 ∷ 0x04 ∷ []

-- "Charlie is the d"
abbrev pub xor_key : List ℕ
xor_key =
    67 ∷ 104 ∷ 97 ∷ 114 ∷ 108 ∷ 105 ∷ 101 ∷ 32 ∷ 105 ∷ 115 ∷ 32 ∷ 116 ∷ 104 ∷ 101 ∷ 32 ∷ 100 ∷ []

-- The loop of `xorBody` from index `i` on.
unfoldable pub xor_from : ℕ → List ℕ → List ℕ
xor_from i [] = []
xor_from i (x ∷ b) = bit_xor x (at xor_key (i % 16)) ∷ xor_from (i + 1) b

unfoldable pub xor_body : List ℕ → List ℕ
xor_body b = xor_from 0 b

-- `p[i] = v`.
abbrev pub put : ℕ → ℕ → List ℕ → List ℕ
put i v p = copy_at p i (v ∷ [])

abbrev pub put16 : ℕ → ℕ → List ℕ → List ℕ
put16 i v p = copy_at p i (le16 v)

abbrev pub put32 : ℕ → ℕ → List ℕ → List ℕ
put32 i v p = copy_at p i (le32 v)

-- `copy(p[i:j], src)`.
abbrev pub put_slice : ℕ → ℕ → List ℕ → List ℕ → List ℕ
put_slice i n src p = copy_at p i (take n src)

infixl 1 ◌|>◌
abbrev pub ◌|>◌ : List ℕ → (List ℕ → List ℕ) → List ℕ
p |> f = f p

unfoldable pub build_outer : List ℕ → ℕ → List ℕ → ℕ → ℕ → ℕ → List ℕ
build_outer nonce seq body datatype channel_id flags =
    zeros (0x1c + length body)
    |> put 0 0x04
    |> put 1 0x02
    |> put 2 magic_version
    |> put 3 flags
    |> put16 4 (to_u16 (length body + 0x0c))
    |> put16 6 seq
    |> put16 8 msg_session_c2d
    |> put16 10 0x0021
    |> put 12 (at nonce 0)
    |> put 13 (at nonce 1)
    |> put 14 channel_id
    |> put 15 datatype
    |> put32 16 0x0000000c
    |> (λ p. copy_at p 20 nonce)
    |> (λ p. copy_at p 28 body)

unfoldable pub build_lan_search3 : List ℕ → List ℕ → ℕ → List ℕ
build_lan_search3 uid nonce w3 =
    zeros 88
    |> put 0 0x04
    |> put 1 0x02
    |> put 2 magic_version
    |> put 3 flags_control
    |> put16 4 72
    |> put16 8 msg_lan_search3
    |> put16 10 0x0021
    |> put_slice 0x10 20 uid
    |> put_slice 0x34 4 sdk_version
    |> put_slice 0x38 8 nonce
    |> put 0x40 w3
    |> put_slice 0x4a 8 (48 ∷ 48 ∷ 48 ∷ 48 ∷ 48 ∷ 48 ∷ 48 ∷ 48 ∷ [])

unfoldable pub build_knock2 : List ℕ → List ℕ → List ℕ
build_knock2 uid nonce =
    zeros 52
    |> put 0 0x04
    |> put 1 0x02
    |> put 2 magic_version
    |> put 3 flags_control
    |> put16 4 36
    |> put16 8 msg_knock2
    |> put16 10 0x0033
    |> put_slice 0x10 20 uid
    |> put_slice 0x24 8 nonce
    |> put_slice 0x30 4 sdk_version

unfoldable pub build_alive_c2d : List ℕ → List ℕ
build_alive_c2d nonce =
    zeros 24
    |> put 0 0x04
    |> put 1 0x02
    |> put 2 magic_version
    |> put 3 flags_alive
    |> put16 4 8
    |> put16 8 msg_alive_c2d
    |> put16 10 0x0012
    |> put_slice 0x10 8 nonce

unfoldable pub inner_data : ℕ → ℕ → ℕ → List ℕ → List ℕ
inner_data counter channel_family message_seq payload =
    zeros (36 + length payload)
    |> put 0 0x0c
    |> put 2 0x0c
    |> put16 4 counter
    |> put16 16 channel_family
    |> put16 18 message_seq
    |> put 20 0x01
    |> put32 24 (length payload)
    |> put32 28 message_seq
    |> (λ b. copy_at b 36 (xor_body payload))

-- The loop over `a.Missing`, from buffer offset `i` on.
unfoldable pub put_missing : ℕ → List ℕ → List ℕ → List ℕ
put_missing i [] b = b
put_missing i (offset ∷ rest) b = put_missing (i + 2) rest (put16 i offset b)

unfoldable pub marshal_size : ℕ → ℕ
marshal_size count = if ltb (22 + 2 * count) 24 then 24 else 22 + 2 * count

unfoldable pub marshal : TransportAck → List ℕ
marshal a =
    zeros (marshal_size (length a.missing))
    |> put 0 0x09
    |> put 2 0x0c
    |> put16 4 a.ordinal
    |> put16 8 a.av_base
    |> put16 10 a.av_high
    |> put16 12 a.reliable_recv_ack
    |> put16 14 (to_u16 (length a.missing))
    |> put16 16 a.state
    |> put16 18 a.send_count
    |> put16 20 a.tick
    |> put_missing 22 a.missing

unfoldable pub inner_timing_feedback : ℕ → ℕ → ℕ → ℕ → List ℕ
inner_timing_feedback ordinal last_recv timing_stamp metric =
    zeros 20
    |> put 0 0x0b
    |> put 2 0x0c
    |> put16 4 ordinal
    |> put16 6 last_recv
    |> put32 8 timing_stamp
    |> put32 12 metric

unfoldable pub inner_timing_probe : ℕ → ℕ → List ℕ
inner_timing_probe ordinal timing_stamp =
    zeros 16
    |> put 0 0x0a
    |> put 1 0x08
    |> put 2 0x0c
    |> put16 4 ordinal
    |> put32 8 timing_stamp
    |> put16 12 0x0032

unfoldable pub ioctl_body : ℕ → List ℕ → List ℕ
ioctl_body ctrl_id payload =
    zeros (4 + length payload) |> put32 0 ctrl_id |> (λ b. copy_at b 4 payload)

unfoldable pub ioctl_body12 : ℕ → List ℕ
unfolding ioctl_body
ioctl_body12 ctrl_id = ioctl_body ctrl_id (zeros 8)
