-- ===== src/Discovery.antt =====
-- The decisions of pkg/petlibro/discovery.go that do not touch the network: which response names the
-- camera, how a failure is reported, and which hosts of a subnet are probed.
pub mod Response
pub mod Targets
pub mod Plan
pub mod Options
pub mod Counters
pub mod Receive
pub mod Search
pub mod Resolve
use Prim.Native.Nat.{bit_and}
use ha_addon_petlibro_local.Prelude.{
  ℕ, zero, suc, ◌+◌, ◌-◌, ◌^◌, Bool, true, false, not, ◌&&◌, ◌||◌, List, [], ◌∷◌, ◌++◌,
  if◌then◌else◌, ltb, leb, ◌==◌, length, add32, add64,
}
use ha_addon_petlibro_local.Wire.Bytes.{u16_at, slice}
use ha_addon_petlibro_local.Wire.Frames.{msg_lan_search_r, msg_knock_rr2}
use ha_addon_petlibro_local.Assembler.Output.{equal_bytes}

-- `discoveryResponseReason`.
pub data ResponseReason : Type 0 where
  accepted malformed wrong_uid nonce_mismatch unknown : ResponseReason

unfoldable pub is_ascii_alpha_numeric : List ℕ → Bool
is_ascii_alpha_numeric [] = true
is_ascii_alpha_numeric (b ∷ bs) =
    ((leb 97 b && leb b 122) || (leb 65 b && leb b 90) || (leb 48 b && leb b 57))
    && is_ascii_alpha_numeric bs

-- `bytes.Trim(b, "\x00")`, one side at a time.
unfoldable pub trim_left : List ℕ → List ℕ
trim_left [] = []
trim_left (b ∷ bs) = let rest = trim_left bs in if b == 0 then rest else b ∷ bs

unfoldable pub trim_right : List ℕ → List ℕ
trim_right [] = []
trim_right (b ∷ bs) =
    let rest = trim_right bs in if b == 0 && length rest == 0 then [] else b ∷ rest

unfoldable pub trim_zeros : List ℕ → List ℕ
unfolding trim_left trim_right
trim_zeros b = trim_right (trim_left b)

-- The case of LAN_SEARCH_R.
unfoldable pub classify_search : List ℕ → List ℕ → ResponseReason
unfolding trim_zeros
classify_search pkt uid =
    let candidate = trim_zeros (slice pkt 0x10 0x24) in
    if ltb (length pkt) 0x24
    then malformed
    else if not (length candidate == 20) || not (is_ascii_alpha_numeric candidate)
    then malformed
    else if not (equal_bytes candidate uid)
    then wrong_uid
    else accepted

-- The case of KNOCK_RR2.
unfoldable pub classify_knock : List ℕ → List ℕ → List ℕ → ResponseReason
classify_knock pkt uid nonce =
    if ltb (length pkt) 0x2c
    then malformed
    else if not (equal_bytes (slice pkt 0x10 0x24) uid)
    then wrong_uid
    else if not (equal_bytes (slice pkt 0x24 0x2c) nonce)
    then nonce_mismatch
    else accepted

unfoldable pub classify_discovery_response : List ℕ → List ℕ → List ℕ → ResponseReason
classify_discovery_response pkt uid nonce =
    if ltb (length pkt) 12
    then malformed
    else if u16_at pkt 8 == msg_lan_search_r
    then classify_search pkt uid
    else if u16_at pkt 8 == msg_knock_rr2
    then classify_knock pkt uid nonce
    else unknown

-- The loop of `subnetDiscoveryTargets` from offset `i` on, with `n` offsets left.
unfoldable pub targets_from : ℕ → ℕ → ℕ → ℕ → List ℕ
targets_from zero i base ip = []
targets_from (suc n) i base ip =
    let rest = targets_from n (i + 1) base ip in
    if add32 base i == ip then rest else add32 base i ∷ rest

-- The IPv4 netmask with `ones` leading ones.
abbrev pub mask_of : ℕ → ℕ
mask_of ones = 2 ^ 32 - 2 ^ (32 - ones)

-- Addresses are big-endian numbers, and the mask is given by its number of leading ones, at most
-- 32: the only masks for which `Size` answers 32 bits.
unfoldable pub subnet_discovery_targets : ℕ → ℕ → ℕ → List ℕ
subnet_discovery_targets ip ones max =
    let total = 2 ^ (32 - ones) in
    if ltb max total then [] else targets_from (total - 2) 1 (bit_and ip (mask_of ones)) ip
