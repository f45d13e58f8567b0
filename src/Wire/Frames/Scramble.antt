-- ===== src/Wire/Frames/Scramble.antt =====
-- `xorBody` undoes itself.
use Prim.Native.Nat.{bit_xor}
use ha_addon_petlibro_local.Prelude.{
  ℕ, zero, suc, ◌+◌, ◌/◌, ◌%◌, ◌≡◌, refl, ap, Bool, true, false, if◌then◌else◌, List, [], ◌∷◌, ◌==◌,
  length,
}
use ha_addon_petlibro_local.Wire.Bytes.{at}
use ha_addon_petlibro_local.Wire.Frames.{xor_key, xor_from}

-- Whether byte `n / 16` comes back under key byte `n % 16`.
abbrev comes_back : ℕ → Bool
comes_back n = bit_xor (bit_xor (n / 16) (at xor_key (n % 16))) (at xor_key (n % 16)) == (n / 16)

-- Whether that holds of `left` numbers from `n` on.
come_back : ℕ → ℕ → Bool
come_back zero n = true
come_back (suc left) n = let rest = come_back left (n + 1) in if comes_back n then rest else false

pub length-xor_from : (i : ℕ) (b : List ℕ) → length (xor_from i b) ≡ length b
unfolding xor_from
length-xor_from i [] = refl
length-xor_from i (x ∷ b) = ap suc (length-xor_from (i + 1) b)
