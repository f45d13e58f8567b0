-- ===== src/Media/Control.antt =====
-- Control traffic of pkg/petlibro/assembler.go: `reliableControlSequence` and
-- `timingProbeResponse`.
pub mod Disjoint
use Prim.Native.Nat.{bit_and}
use ha_addon_petlibro_local.Prelude.{
  ℕ, ◌-◌, Bool, not, ◌||◌, Option, none, some, List, if◌then◌else◌, ltb, ◌==◌, length,
}
use ha_addon_petlibro_local.Wire.Bytes.{at, u16_at, u32_at}
use ha_addon_petlibro_local.Wire.Frames.{inner_timing_feedback}

-- The cases of the switch that return at once.
unfoldable pub is_short_family : ℕ → Bool
is_short_family f = f == 0x0000 || f == 0x2000 || f == 0x2100 || f == 0x7100 || f == 0x7200

unfoldable pub is_ioctl_family : ℕ → Bool
is_ioctl_family f = f == 0x1000 || f == 0x7000

-- `none` stands for `ok == false`.
unfoldable pub reliable_control_sequence : List ℕ → Option ℕ
reliable_control_sequence inner =
    let family = u16_at inner 16 in
    let seq = some (u16_at inner 18) in
    if ltb (length inner) 20 || not (at inner 0 == 0x0c) || not (bit_and (at inner 1) 0x08 == 0)
    then none
    else if is_short_family family
    then seq
    else if not (is_ioctl_family family)
    then none
    else if ltb (length inner) 36 || not (at inner 20 == 1)
    then none
    else if ltb (length inner - 36) (u32_at inner 24)
    then none
    else seq

-- `none` stands for a nil response.
unfoldable pub timing_probe_response : List ℕ → Option (List ℕ)
timing_probe_response inner =
    if ltb (length inner) 10 || not (at inner 0 == 0x0a) || bit_and (at inner 1) 0x08 == 0
    then none
    else some (inner_timing_feedback 0 0 (u16_at inner 8) 0)
