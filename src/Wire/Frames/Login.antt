-- ===== src/Wire/Frames/Login.antt =====
-- `buildLoginPair` and `buildLogin` of pkg/petlibro/templates.go. The encryption of pkg/tutk is a
-- parameter: it is `tutk.ReverseTransCodePartial`, whose name tells the other direction.
use ha_addon_petlibro_local.Prelude.{
  ℕ, ◌+◌, ◌-◌, Bool, true, false, List, [], ◌∷◌, ◌++◌, if◌then◌else◌, length, add32,
}
use ha_addon_petlibro_local.Wire.Bytes.{zeros, copy_at}
use ha_addon_petlibro_local.Wire.Frames.{put, put32, ◌|>◌}

abbrev pub sdk_padded_len : ℕ
sdk_padded_len = 0x101

abbrev pub view_account_head_len : ℕ
view_account_head_len = 12

abbrev pub view_account_tail_len : ℕ
view_account_tail_len = sdk_padded_len - view_account_head_len

abbrev pub trailer_offset : ℕ
trailer_offset = view_account_tail_len + sdk_padded_len

abbrev pub trailer_len_login : ℕ
trailer_len_login = 32

abbrev pub trailer_len_login1 : ℕ
trailer_len_login1 = 34

abbrev pub auth_type_password : ℕ
auth_type_password = 0

abbrev pub trailer_flag0 : ℕ
trailer_flag0 = 1

abbrev pub opcode_support_count : ℕ
opcode_support_count = 4

abbrev pub enable_video_on_connect : ℕ
enable_video_on_connect = 1

abbrev pub enable_audio_on_connect : ℕ
enable_audio_on_connect = 0

-- "admin" and "888888".
abbrev pub view_account : List ℕ
view_account = 97 ∷ 100 ∷ 109 ∷ 105 ∷ 110 ∷ []

abbrev pub view_password : List ℕ
view_password = 56 ∷ 56 ∷ 56 ∷ 56 ∷ 56 ∷ 56 ∷ []

abbrev pub login_a_wrapper_head : List ℕ
login_a_wrapper_head =
    0x00 ∷ 0x00 ∷ 0x0c ∷ 0x00 ∷ 0 ∷ 0 ∷ 0 ∷ 0 ∷ 0 ∷ 0 ∷ 0 ∷ 0 ∷ 0 ∷ 0 ∷ 0 ∷ 0 ∷ 0x22 ∷ 0x02 ∷ 0x01
    ∷ 0x00 ∷ 0 ∷ 0 ∷ 0 ∷ 0 ∷ []

abbrev pub login_b_wrapper_head : List ℕ
login_b_wrapper_head =
    0x00 ∷ 0x20 ∷ 0x0c ∷ 0x00 ∷ 0 ∷ 0 ∷ 0 ∷ 0 ∷ 0 ∷ 0 ∷ 0 ∷ 0 ∷ 0 ∷ 0 ∷ 0 ∷ 0 ∷ 0x24 ∷ 0x02 ∷ 0x00
    ∷ 0x00 ∷ 0 ∷ 0 ∷ 0 ∷ 0 ∷ []

unfoldable pub login_wrapper : List ℕ → ℕ → List ℕ
login_wrapper wrapper_head login_serial =
    zeros (length wrapper_head + view_account_head_len)
    |> (λ w. copy_at w 0 wrapper_head)
    |> put32 0x14 login_serial
    |> (λ w. copy_at w (length wrapper_head) view_account)

-- The trailer's fields, which both messages have.
unfoldable pub put_trailer : List ℕ → List ℕ
put_trailer pt =
    pt
    |> put32 trailer_offset trailer_flag0
    |> put32 (trailer_offset + 0x04) opcode_support_count
    |> put32 (trailer_offset + 0x08) 0x001f07fb
    |> put32 (trailer_offset + 0x0c) 0
    |> put32 (trailer_offset + 0x10) 0
    |> put32 (trailer_offset + 0x14) 0x00030000
    |> put (trailer_offset + 0x18) auth_type_password
    |> put (trailer_offset + 0x1c) enable_video_on_connect

-- The plain text of the encrypted part.
unfoldable pub login_body : Bool → List ℕ
unfolding put_trailer
login_body is_login1 =
    let trailer_len = if is_login1 then trailer_len_login1 else trailer_len_login in
    let pt =
      put_trailer
        (copy_at (zeros (trailer_offset + trailer_len)) view_account_tail_len view_password) in
    if is_login1 then put (trailer_offset + 0x20) enable_audio_on_connect pt else pt

module _ (encrypt : List ℕ → List ℕ) where
  unfoldable pub build_login : List ℕ → ℕ → Bool → List ℕ
  unfolding login_wrapper login_body
  build_login wrapper_head login_serial is_login1 =
      login_wrapper wrapper_head login_serial ++ encrypt (login_body is_login1)

  unfoldable pub build_login_pair : ℕ → List ℕ × List ℕ
  unfolding build_login
  build_login_pair seed = (
    build_login login_a_wrapper_head seed false,
    build_login login_b_wrapper_head (add32 seed 1) true,
  )
