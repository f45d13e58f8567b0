-- ===== src/Ack/Reliable/Contiguous.antt =====
-- The reliable position moves over received messages only, and as far as it can.
use ha_addon_petlibro_local.Prelude.{
  ℕ, zero, suc, ◌≤◌, ◌<◌, ◌≡◌, refl, ◌∙◌, ◌⊎◌, inl, inr, true, false, not, ◌||◌, ◌&&◌, List, [],
  ◌∷◌, ◌==◌, leb, Bool-cases, contains, add16, add16-lt, sub16, arith, length, u16_mod,
}
use ha_addon_petlibro_local.Stats.{Counters}
use ha_addon_petlibro_local.Ack.Receive.{Ack}
use ha_addon_petlibro_local.Ack.Reliable.{
  insert_key, delete_key, drain_reliable, accept_reliable_control,
}

contains-delete_key :
    (seen : List ℕ) (k j : ℕ) → contains (delete_key seen k) j ≡ (contains seen j && not (j == k))
unfolding delete_key
contains-delete_key [] k j = refl
contains-delete_key (i ∷ seen) k j = ground (arith, contains-delete_key seen k j)

length-delete_key : (seen : List ℕ) (k : ℕ) → length (delete_key seen k) ≤ length seen
unfolding delete_key
length-delete_key [] k = omega arith
length-delete_key (i ∷ seen) k = ground (arith, length-delete_key seen k)

length-delete_key_lt :
    (seen : List ℕ) (k : ℕ) → contains seen k ≡ true → length (delete_key seen k) < length seen
unfolding delete_key
length-delete_key_lt [] k h = cc
length-delete_key_lt (i ∷ seen) k h =
    ground (arith, length-delete_key_lt seen k, length-delete_key seen k)

contains-insert_key :
    (seen : List ℕ) (k j : ℕ) → contains (insert_key seen k) j ≡ (contains seen j || j == k)
unfolding insert_key
contains-insert_key seen k j = elim (Bool-cases (contains seen k)) [
  | inl old ↦ rw old (elim (Bool-cases (j == k)) [
    | inl same ↦ let e : j ≡ k = ground arith in rw (e, old) (ground arith)
    | inr ne ↦ ground arith
  ])
  | inr new ↦ rw new (ground arith)
]

-- The position moved over `count` messages, all of which were waiting, and the one after is not.
pub record Drained (recv : ℕ) (seen : List ℕ) (out : ℕ × List ℕ) : Type 0 where
  pub count : ℕ
  pub moved : out.0 ≡ add16 recv count
  pub waiting : (i : ℕ) → i < count → contains seen (add16 recv (suc i)) ≡ true
  pub stopped : contains out.1 (add16 out.0 1) ≡ false
  pub kept : (j : ℕ) → contains out.1 j ≡ true → contains seen j ≡ true

add16-suc : (a n : ℕ) → add16 (add16 a 1) n ≡ add16 a (suc n)
unfolding add16
add16-suc a n = omega arith

waiting_suc :
    (recv count : ℕ) (seen : List ℕ)
    → contains seen (add16 recv 1) ≡ true
    → ((i : ℕ)
        → i < count
        → contains (delete_key seen (add16 recv 1)) (add16 (add16 recv 1) (suc i)) ≡ true)
    → (i : ℕ) → i < suc count
    → contains seen (add16 recv (suc i)) ≡ true
waiting_suc recv count seen got rest zero h = got
waiting_suc recv count seen got rest (suc i) h = rw (← add16-suc) (
    ground (
      arith,
      rest i (omega arith),
      contains-delete_key seen (add16 recv 1) (add16 (add16 recv 1) (suc i)),
    ))

drain_reliable-Drained :
    (fuel recv : ℕ) (seen : List ℕ)
    → recv < u16_mod
    → length seen ≤ fuel
    → Drained recv seen (drain_reliable fuel recv seen)
unfolding drain_reliable
drain_reliable-Drained zero recv [] hr h = record {
  count = 0;
  moved = unfold add16 in omega arith;
  waiting = λ i p. absurd (omega arith);
  stopped = refl;
  kept = λ j p. p;
}
drain_reliable-Drained zero recv (k ∷ seen) hr h = absurd (omega arith)
drain_reliable-Drained (suc fuel) recv seen hr h =
    elim (Bool-cases (contains seen (add16 recv 1))) [
      | inl got ↦
          let rest =
            drain_reliable-Drained fuel (add16 recv 1) (delete_key seen (add16 recv 1))
              (add16-lt recv 1) (omega (arith, length-delete_key_lt seen (add16 recv 1) got)) in
          rw got (record {
            count = suc rest.count;
            moved = rest.moved ∙ add16-suc recv rest.count;
            waiting = waiting_suc recv rest.count seen got rest.waiting;
            stopped = rest.stopped;
            kept = λ j p. ground (arith, rest.kept j p, contains-delete_key seen (add16 recv 1) j);
          })
      | inr gap ↦ rw gap (record {
        count = 0;
        moved = unfold add16 in omega arith;
        waiting = λ i p. absurd (omega arith);
        stopped = gap;
        kept = λ j p. p;
      })
    ]

-- The messages after the position: none that waits could be taken.
pub record Settled (a : Ack) : Type 0 where
  pub word : a.reliable_recv < u16_mod
  pub stopped :
      a.reliable_recv_set ≡ true → contains a.reliable_seen (add16 a.reliable_recv 1) ≡ false
  pub fresh : a.reliable_recv_set ≡ false → a.reliable_seen ≡ []

-- What a call for `seq` makes of the reliable position.
pub data Accepted (a : Ack) (seq : ℕ) (b : Ack) : Type 0 where
  first :
      a.reliable_recv_set ≡ false → b.reliable_recv ≡ seq → b.reliable_seen ≡ [] → Accepted a seq b
  stale :
      (sub16 seq a.reliable_recv ≡ 0) ⊎ (32768 ≤ sub16 seq a.reliable_recv)
      → b ≡ a
      → Accepted a seq b
  ahead :
      1 < sub16 seq a.reliable_recv
      → sub16 seq a.reliable_recv < 32768
      → b.reliable_recv ≡ a.reliable_recv
      → ((j : ℕ) → contains b.reliable_seen j ≡ (contains a.reliable_seen j || j == seq))
      → Accepted a seq b
  in_order :
      sub16 seq a.reliable_recv ≡ 1
      → Drained seq a.reliable_seen (b.reliable_recv, b.reliable_seen)
      → Accepted a seq b

pub record Accepts (a : Ack) (seq : ℕ) (b : Ack) : Type 0 where
  pub outcome : Accepted a seq b
  pub set : b.reliable_recv_set ≡ true
  pub settled : Settled b

not_next : (recv seq : ℕ) → recv < u16_mod → seq < u16_mod → add16 recv 1 ≡ seq → sub16 seq recv ≡ 1
unfolding add16 sub16
not_next recv seq hr hs e = omega arith

-- `acceptReliableControl` sets the position on the first message, ignores duplicates and what is
-- half the sequence space or more ahead, remembers a message after a gap, and on the next message
-- moves over exactly the waiting messages that follow it without a gap.
pub accept_reliable_control-Accepts :
    (a : Ack) (st : Counters) (seq : ℕ)
    → Settled a
    → seq < u16_mod
    → Accepts a seq (accept_reliable_control a st seq).0
unfolding accept_reliable_control
accept_reliable_control-Accepts a st seq v h = elim (Bool-cases a.reliable_recv_set) [
  | inr unset ↦ rw unset (record {
    outcome = first refl refl (v.fresh unset);
    set = refl;
    settled = record { word = h; stopped = λ e. rw (v.fresh unset) refl; fresh = λ e. cc };
  })
  | inl set ↦
      rw set
        (elim (Bool-cases
          (sub16 seq a.reliable_recv == 0 || leb 32768 (sub16 seq a.reliable_recv))) [
            | inl old ↦ rw old (record {
              outcome = stale (ground arith) refl;
              set = refl;
              settled = record { word = v.word; stopped = λ e. v.stopped set; fresh = λ e. cc };
            })
            | inr new ↦ rw new (elim (Bool-cases (sub16 seq a.reliable_recv == 1)) [
              | inl next ↦ rw next (
                  let d =
                    drain_reliable-Drained (length a.reliable_seen) seq a.reliable_seen h
                      (omega arith) in
                  record {
                    outcome = in_order (ground arith) d;
                    set = refl;
                    settled = record {
                      word = rw d.moved (add16-lt seq d.count);
                      stopped = λ e. d.stopped;
                      fresh = λ e. cc;
                    };
                  })
              | inr gap ↦ rw gap (record {
                outcome =
                    ahead (ground arith) (ground arith) refl
                      (contains-insert_key a.reliable_seen seq);
                set = refl;
                settled = record {
                  word = v.word;
                  stopped = λ e. ground (
                    arith,
                    contains-insert_key a.reliable_seen seq (add16 a.reliable_recv 1),
                    v.stopped set,
                    not_next a.reliable_recv seq,
                  );
                  fresh = λ e. cc;
                };
              })
            ])
          ])
]
