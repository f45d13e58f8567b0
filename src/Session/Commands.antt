-- ===== src/Session/Commands.antt =====
-- The IOCtrl commands of pkg/petlibro/templates.go, and the sequence that `bootstrap` and
-- `bootstrapIOCtrls` of bootstrap.go choose from the options of a session.
use ha_addon_petlibro_local.Prelude.{ℕ, Bool, List, [], ◌∷◌, ◌++◌, if◌then◌else◌, ◌==◌, length}
use ha_addon_petlibro_local.Wire.Bytes.{zeros}
use ha_addon_petlibro_local.Wire.Frames.{put, ioctl_body, ioctl_body12}

abbrev pub ioctl_inner_send_data_delay : ℕ
ioctl_inner_send_data_delay = 0x00ff

abbrev pub ioctl_petlibro_stream_ctrl : ℕ
ioctl_petlibro_stream_ctrl = 0x0024

abbrev pub ioctl_set_stream_ctrl_req : ℕ
ioctl_set_stream_ctrl_req = 0x0320

abbrev pub ioctl_start : ℕ
ioctl_start = 0x01ff

abbrev pub ioctl_audio_on : ℕ
ioctl_audio_on = 0x0300

abbrev pub ioctl_get_stream_ctrl_req : ℕ
ioctl_get_stream_ctrl_req = 0x0322

abbrev pub ioctl_get_audio_out_format_req : ℕ
ioctl_get_audio_out_format_req = 0x032a

abbrev pub ioctl_get_video_mode_req : ℕ
ioctl_get_video_mode_req = 0x0372

abbrev pub quality_hd : List ℕ
quality_hd = ioctl_petlibro_stream_ctrl ∷ 0 ∷ 0 ∷ 0 ∷ 0x01 ∷ 0x00 ∷ 0xff ∷ 0x3f ∷ 0 ∷ 0 ∷ 0 ∷ 0 ∷ []

abbrev pub quality_sd : List ℕ
quality_sd = ioctl_petlibro_stream_ctrl ∷ 0 ∷ 0 ∷ 0 ∷ 0x02 ∷ 0x00 ∷ 0x8a ∷ 0x81 ∷ 0 ∷ 0 ∷ 0 ∷ 0 ∷ []

-- `streamCtrlVariant`.
pub data StreamCtrlVariant : Type 0 where
  legacy standard no_stream_ctrl : StreamCtrlVariant

-- The options of `Client` that the start of a session reads; `sd` tells whether the quality is "sd".
pub record Options : Type 0 where
  pub audio : Bool
  pub sd : Bool
  pub send_delay_ctrl : Bool
  pub stream_ctrl_variant : StreamCtrlVariant
  pub stream_ctrl_quality : ℕ

pub record BootstrapCmd : Type 0 where
  pub channel_family : ℕ
  pub payload : List ℕ

-- The SETSTREAMCTRL body; empty where none is sent.
unfoldable pub stream_body : Options → StreamCtrlVariant → List ℕ
stream_body o no_stream_ctrl = []
stream_body o standard =
    ioctl_body ioctl_set_stream_ctrl_req (put 4 o.stream_ctrl_quality (zeros 8))
stream_body o legacy = put 4 o.stream_ctrl_quality (if o.sd then quality_sd else quality_hd)

unfoldable pub stream_chan : StreamCtrlVariant → ℕ
stream_chan standard = 0x7000
stream_chan legacy = 0x1000
stream_chan no_stream_ctrl = 0x1000

abbrev pub control : List ℕ → BootstrapCmd
control payload = record { channel_family = 0x7000; payload = payload }

unfoldable pub bootstrap_ioctrls : Options → List ℕ → List BootstrapCmd
unfolding stream_chan
bootstrap_ioctrls o stream =
    (if length stream == 0
      then []
      else record { channel_family = stream_chan o.stream_ctrl_variant; payload = stream } ∷ [])
    ++ (control (ioctl_body12 ioctl_get_video_mode_req)
        ∷ control (ioctl_body12 ioctl_get_stream_ctrl_req)
        ∷ control (ioctl_body12 ioctl_get_audio_out_format_req)
        ∷ [])
    ++ (if o.send_delay_ctrl
        then control (ioctl_body ioctl_inner_send_data_delay (0 ∷ 0 ∷ [])) ∷ []
        else [])
    ++ (control (ioctl_body12 ioctl_start) ∷ [])
    ++ (if o.audio then control (put 4 0x01 (ioctl_body12 ioctl_audio_on)) ∷ [] else [])
