-- ===== src/Media/Trailer.antt =====
-- `stripFragmentMetadataTrailer` of pkg/petlibro/assembler.go.
pub mod RoundTrip
use ha_addon_petlibro_local.Prelude.{
  ℕ, ◌-◌, Bool, true, false, ◌&&◌, ◌||◌, List, [], if◌then◌else◌, ltb, ◌==◌, take, drop, length,
}
use ha_addon_petlibro_local.Wire.Bytes.{at, u32_at}

-- client.go: the codec identifiers.
abbrev pub codec_h264 : ℕ
codec_h264 = 0x4e

abbrev pub codec_aac_adts : ℕ
codec_aac_adts = 0x87

-- `(stripped, ts, onlineNum, hasTs)`.
pub record Stripped : Type 0 where
  pub payload : List ℕ
  pub ts : ℕ
  pub online_num : ℕ
  pub has_ts : Bool

-- `prefixOK`, `zerosOK` and `codecIDOK`; `t` holds the last 15 bytes.
unfoldable pub has_signature : List ℕ → ℕ → Bool
has_signature t codec =
    ((at t 0 == 0 && (at t 1 == 0 || at t 1 == 1)) && at t 2 == 0)
    && ((at t 4 == 0 && at t 5 == 0 && at t 6 == 0 && at t 7 == 0)
        && (at t 8 == 0 && at t 9 == 0 && at t 10 == 0))
    && codec == codec_h264

unfoldable pub strip_fragment_metadata_trailer : List ℕ → Stripped
strip_fragment_metadata_trailer p =
    let n = length p in
    let t = drop (n - 15) p in
    if ltb n 16
    then record { payload = p; ts = 0; online_num = 0; has_ts = false }
    else if has_signature t (at p (n - 16))
    then record { payload = take (n - 16) p; ts = u32_at t 11; online_num = at t 3; has_ts = true }
    else record { payload = p; ts = 0; online_num = 0; has_ts = false }
