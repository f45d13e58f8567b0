-- ===== src/Ack/Reliable.antt =====
-- `acceptReliableControl` of pkg/petlibro/recv.go: the receive position of the 16-bit sequence of
-- reliable control messages, apart from the AV positions.
pub mod Contiguous
pub mod Apart
use ha_addon_petlibro_local.Prelude.{
  ℕ, zero, suc, Bool, true, ◌||◌, List, [], ◌∷◌, if◌then◌else◌, ltb, leb, ◌==◌, not, add16, sub16,
  contains, length,
}
use ha_addon_petlibro_local.Stats.{Counters}
use ha_addon_petlibro_local.Ack.Receive.{Ack}

-- `m[k] = struct{}{}` and `delete(m, k)`: the map is the list of its keys.
unfoldable pub insert_key : List ℕ → ℕ → List ℕ
insert_key seen k = if contains seen k then seen else k ∷ seen

unfoldable pub delete_key : List ℕ → ℕ → List ℕ
delete_key [] k = []
delete_key (j ∷ seen) k = let rest = delete_key seen k in if k == j then rest else j ∷ rest

-- The loop after a position in order: each round deletes a key, so as many rounds as there are
-- keys are enough.
unfoldable pub drain_reliable : ℕ → ℕ → List ℕ → ℕ × List ℕ
drain_reliable zero recv seen = (recv, seen)
drain_reliable (suc fuel) recv seen =
    let next = add16 recv 1 in
    let rest = drain_reliable fuel next (delete_key seen next) in
    if contains seen next then rest else (recv, seen)

unfoldable pub store_reliable : Counters → ℕ → Counters
store_reliable st recv = record st { reliable_recv_ack = recv }

unfoldable pub accept_reliable_control : Ack → Counters → ℕ → Ack × Counters
accept_reliable_control a st seq =
    let delta = sub16 seq a.reliable_recv in
    let (recv, seen) = drain_reliable (length a.reliable_seen) seq a.reliable_seen in
    if not a.reliable_recv_set
    then (record a { reliable_recv = seq; reliable_recv_set = true }, store_reliable st seq)
    else if delta == 0 || leb 32768 delta
    then (a, st)
    else if not (delta == 1)
    then (record a { reliable_seen = insert_key a.reliable_seen seq }, st)
    else (record a { reliable_recv = recv; reliable_seen = seen }, store_reliable st recv)
