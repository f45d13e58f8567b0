-- ===== src/Assembler/AnnexB/Sound.antt =====
-- What `annexbNAL` finds is a unit of the buffer, of the wanted type.
use ha_addon_petlibro_local.Prelude.{ℕ, ◌<◌, ◌≡◌, List, ◌++◌, length}
use ha_addon_petlibro_local.Wire.Bytes.{at}
use ha_addon_petlibro_local.Assembler.AnnexB.{nal_type}

-- `b` holds the unit `nal` of type `want`, behind `front` and before `back`.
pub record Found (b nal : List ℕ) (want : ℕ) : Type 0 where
  pub front : List ℕ
  pub back : List ℕ
  pub parts : b ≡ front ++ (nal ++ back)
  pub of_type : nal_type (at nal 0) ≡ want
  pub nonempty : 0 < length nal
