-- ===== src/Assembler/AnnexB.antt =====
-- `annexbNAL` and `annexbContainsNALType` of pkg/petlibro/assembler.go.
pub mod Sound
use Prim.Native.Nat.{bit_and}
use ha_addon_petlibro_local.Prelude.{
  ℕ, zero, suc, ◌+◌, ◌-◌, Bool, true, false, not, ◌&&◌, ◌||◌, Option, none, some, List, [], ◌∷◌,
  if◌then◌else◌, ltb, leb, ◌==◌, length, take, drop,
}
use ha_addon_petlibro_local.Wire.Bytes.{at}

abbrev pub nalu_type_i_frame : ℕ
nalu_type_i_frame = 5

abbrev pub nalu_type_sps : ℕ
nalu_type_sps = 7

-- Whether `b[i] == 0 && b[i+1] == 0` with `i+3 < len(b)`, where `b` stands for `b[i:]`.
unfoldable pub two_zeros : List ℕ → Bool
two_zeros b = leb 4 (length b) && at b 0 == 0 && at b 1 == 0

-- The length of the start code in front of a NAL unit at the head of `b`, or 0.
unfoldable pub start_code : List ℕ → ℕ
unfolding two_zeros
start_code b =
    if not (two_zeros b)
    then 0
    else if at b 2 == 1
    then 3
    else if at b 2 == 0 && ltb 4 (length b) && at b 3 == 1
    then 4
    else 0

-- The condition that ends a NAL unit at the head of `b`.
unfoldable pub ends_nal : List ℕ → Bool
unfolding two_zeros
ends_nal b = two_zeros b && (at b 2 == 1 || (at b 2 == 0 && at b 3 == 1))

-- The bytes up to the end of the unit.
unfoldable pub before_start : List ℕ → List ℕ
before_start [] = []
before_start (x ∷ b) = let rest = before_start b in if ends_nal (x ∷ b) then [] else x ∷ rest

-- `b[nalPos:end]`, for `b` at `nalPos`: the search starts behind the header byte.
unfoldable pub nal_unit : List ℕ → List ℕ
nal_unit [] = []
nal_unit (header ∷ b) = header ∷ before_start b

abbrev pub nal_type : ℕ → ℕ
nal_type header = bit_and header 0x1f

-- `none` stands for nil.
unfoldable pub annexb_nal : List ℕ → ℕ → Option (List ℕ)
annexb_nal [] want = none
annexb_nal (x ∷ b) want =
    let rest = annexb_nal b want in
    let nal = drop (start_code (x ∷ b)) (x ∷ b) in
    if start_code (x ∷ b) == 0
    then rest
    else if nal_type (at nal 0) == want
    then some (nal_unit nal)
    else rest

unfoldable pub annexb_contains_nal_type : List ℕ → ℕ → Bool
annexb_contains_nal_type b want = elim (annexb_nal b want) [ none ↦ false | some nal ↦ true ]
