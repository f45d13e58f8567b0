-- ===== src/Discovery/Targets.antt =====
-- The hosts that the scan of a subnet probes.
use Prim.Native.Nat.{bit_and}
use ha_addon_petlibro_local.Prelude.{
  ℕ, zero, suc, ◌+◌, ◌-◌, ◌^◌, ◌≤◌, ◌<◌, ◌≡◌, ◌≢◌, ◌↔◌, ◌∙◌, inl, inr, true, false, Bool-cases, [],
  ltb, ◌==◌, contains, add32, arith,
}
use ha_addon_petlibro_local.Discovery.{targets_from, mask_of, subnet_discovery_targets}

-- `h` is the host at an offset from `i` to before `i + n`, and not `ip`.
abbrev pub IsHost : ℕ → ℕ → ℕ → ℕ → ℕ → Type 0
IsHost n i base ip h = ((o : ℕ) × (i ≤ o) × (o < i + n) × (h ≡ add32 base o)) × (h ≢ ip)

targets_from_sound :
    (n i base ip h : ℕ) → contains (targets_from n i base ip) h ≡ true → IsHost n i base ip h
unfolding targets_from
targets_from_sound zero i base ip h c = absurd (ground arith)
targets_from_sound (suc n) i base ip h c = elim (Bool-cases (add32 base i == ip)) [
  | inl self ↦ later n i base ip h (targets_from_sound n (i + 1) base ip h (rw self at c))
  | inr other ↦ elim (Bool-cases (h == add32 base i)) [
    | inl here ↦ ((i, omega arith, omega arith, ground arith), ground arith)
    | inr behind ↦
        let c' : contains (targets_from n (i + 1) base ip) h ≡ true = ground arith in
        later n i base ip h (targets_from_sound n (i + 1) base ip h c')
  ]
]
  where
    later : (n i base ip h : ℕ) → IsHost n (i + 1) base ip h → IsHost (suc n) i base ip h
    later n i base ip h ((o, lo, hi, e), ne) = ((o, omega arith, omega arith, e), ne)

targets_from_complete :
    (n i base ip o : ℕ)
    → i ≤ o
    → o < i + n
    → add32 base o ≢ ip
    → contains (targets_from n i base ip) (add32 base o) ≡ true
unfolding targets_from
targets_from_complete zero i base ip o lo hi ne = absurd (omega arith)
targets_from_complete (suc n) i base ip o lo hi ne = elim (Bool-cases (o == i)) [
  | inl here ↦
      let e : o ≡ i = ground arith in
      let ne' : (add32 base i == ip) ≡ false = ground arith in rw (e, ne') (ground arith)
  | inr behind ↦
      let rest = targets_from_complete n (i + 1) base ip o (ground arith) (omega arith) ne in
      ground arith
]

-- In a subnet of at most `max` addresses, the scan probes exactly the addresses strictly between the first and
-- the last one, the client's own excepted; a larger subnet is not scanned.
pub subnet_discovery_targets-hosts :
    (ip ones max h : ℕ)
    → (contains (subnet_discovery_targets ip ones max) h ≡ true)
      ↔ ((2 ^ (32 - ones) ≤ max) × IsHost (2 ^ (32 - ones) - 2) 1 (bit_and ip (mask_of ones)) ip h)
unfolding subnet_discovery_targets
subnet_discovery_targets-hosts ip ones max h = (forth, back)
  where
    forth :
        contains (subnet_discovery_targets ip ones max) h ≡ true
        → (2 ^ (32 - ones) ≤ max) × IsHost (2 ^ (32 - ones) - 2) 1 (bit_and ip (mask_of ones)) ip h
    forth c = elim (Bool-cases (ltb max (2 ^ (32 - ones)))) [
      | inl large ↦ absurd (let k : contains [] h ≡ true = rw large at c in ground arith)
      | inr small ↦ (
        ground arith,
        targets_from_sound (2 ^ (32 - ones) - 2) 1 (bit_and ip (mask_of ones)) ip h (rw small at c),
      )
    ]

    back :
        (2 ^ (32 - ones) ≤ max) × IsHost (2 ^ (32 - ones) - 2) 1 (bit_and ip (mask_of ones)) ip h
        → contains (subnet_discovery_targets ip ones max) h ≡ true
    back (fits, ((o, lo, hi, e), ne)) =
        let small : ltb max (2 ^ (32 - ones)) ≡ false = ground arith in
        let base = bit_and ip (mask_of ones) in
        let ne' : add32 base o ≢ ip = λ k. ne (e ∙ k) in
        rw (small, e) (targets_from_complete (2 ^ (32 - ones) - 2) 1 base ip o lo hi ne')
