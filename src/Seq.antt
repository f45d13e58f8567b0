-- ===== src/Seq.antt =====
-- `wrapSeq` of pkg/petlibro/assembler.go: the 64-bit counter that follows the 16-bit wire counter.
pub mod Extend
use ha_addon_petlibro_local.Prelude.{
  ℕ, ◌+◌, ◌-◌, Bool, Option, none, some, if◌then◌else◌, ltb, to_u16, sub16, add64,
}

pub record WrapSeq : Type 0 where
  pub ext : ℕ

-- `(ext, ok)`: `none` stands for `ok == false`.
unfoldable pub extend : WrapSeq → ℕ → Option ℕ
extend w wire =
    let last_wire = to_u16 w.ext in
    let fwd = sub16 wire last_wire in
    let back = sub16 last_wire wire in
    if ltb fwd 32768
    then some (add64 w.ext fwd)
    else if ltb w.ext back
    then none
    else some (w.ext - back)

unfoldable pub advance_past : WrapSeq → Option ℕ → WrapSeq
advance_past w none = w
advance_past w (some new_ext) = if ltb w.ext new_ext then record w { ext = new_ext } else w

unfoldable pub advance_to : WrapSeq → ℕ → WrapSeq
unfolding advance_past
advance_to w wire = advance_past w (extend w wire)
