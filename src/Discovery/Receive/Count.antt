-- ===== src/Discovery/Receive/Count.antt =====
-- One packet in the counters of the reader of pkg/petlibro/discovery.go.
use ha_addon_petlibro_local.Prelude.{
  ℕ, ◌+◌, ◌^◌, ◌≤◌, ◌<◌, ◌≡◌, inl, inr, Bool, Bool-cases, List, ltb, ◌==◌, length, add64, add64-eq,
  suc, arith,
}
use ha_addon_petlibro_local.Wire.Bytes.{u16_at}
use ha_addon_petlibro_local.Wire.Frames.{msg_lan_search_r, msg_knock_rr2}
use ha_addon_petlibro_local.Discovery.{
  ResponseReason, accepted, malformed, wrong_uid, nonce_mismatch, unknown,
}
use ha_addon_petlibro_local.Discovery.Counters.{ResolveCounters}
use ha_addon_petlibro_local.Discovery.Receive.{
  Reader, waiting, cancelled, answered, count_kind, count_reason, reject, settle,
}

-- Of the packets counted, `unjudged` are not rejected, and at most `extra` were rejected without being
-- counted. None of the counters has wrapped around, and none will in `budget` more reads.
pub record Balanced (unjudged extra budget : ℕ) (c : ResolveCounters) : Type 0 where
  pub lower : c.received ≤ c.rejected + unjudged
  pub upper : c.rejected + unjudged ≤ c.received + extra
  pub reasons : c.wrong_uid_rejected + c.nonce_mismatch_rejected ≤ c.rejected
  pub kinds : c.lan_search_r_received + c.knock_rr2_received ≤ c.received
  pub bound : c.received + extra + budget < 2 ^ 64

-- A reader that waits or was cancelled has rejected every packet, and one that answered all but one.
unfoldable pub Accounts : ℕ → ℕ → Reader → Type 0
Accounts extra budget (waiting c) = Balanced 0 extra budget c
Accounts extra budget (cancelled c) = Balanced 0 extra budget c
Accounts extra budget (answered c found) = Balanced 1 extra budget c

-- A counter that is at most another one with room left goes up by one.
pub bump : (n : ℕ) → suc n < 2 ^ 64 → add64 n 1 ≡ suc n
bump n h = omega (arith, add64-eq n 1)

pub count-Balanced :
    {extra budget : ℕ} {c : ResolveCounters}
    → Balanced 0 extra (suc budget) c
    → Balanced 1 extra budget (record c { received = add64 c.received 1 })
count-Balanced {extra} {budget} {c} b =
    let up = bump c.received (omega (arith, b.bound)) in
    record {
      lower = omega (arith, up, b.lower);
      upper = omega (arith, up, b.upper);
      reasons = b.reasons;
      kinds = omega (arith, up, b.kinds);
      bound = omega (arith, up, b.bound);
    }

pub count_kind-Balanced :
    (pkt : List ℕ) {extra budget : ℕ} {c : ResolveCounters}
    → Balanced 1 extra budget c
    → c.lan_search_r_received + c.knock_rr2_received < c.received
    → Balanced 1 extra budget (count_kind pkt c)
unfolding count_kind
count_kind-Balanced pkt {extra} {budget} {c} b room =
    let search = bump c.lan_search_r_received (omega (arith, b.bound, room)) in
    let knock = bump c.knock_rr2_received (omega (arith, b.bound, room)) in
    elim (Bool-cases (ltb (length pkt) 10)) [
      | inl short ↦ rw short b
      | inr long ↦ elim (Bool-cases (u16_at pkt 8 == msg_lan_search_r)) [
        | inl is ↦
            rw (long, is)
              (record {
                lower = b.lower;
                upper = b.upper;
                reasons = b.reasons;
                kinds = omega (arith, search);
                bound = b.bound;
              })
        | inr is_not ↦ elim (Bool-cases (u16_at pkt 8 == msg_knock_rr2)) [
          | inl is ↦
              rw (long, is_not, is)
                (record {
                  lower = b.lower;
                  upper = b.upper;
                  reasons = b.reasons;
                  kinds = omega (arith, knock);
                  bound = b.bound;
                })
          | inr no_knock ↦ rw (long, is_not, no_knock) b
        ]
      ]
    ]

-- A rejection of the packet that is to be judged, with the counters of reasons raised by `w` and `n`.
judge-Balanced :
    (c : ResolveCounters) {extra budget w n : ℕ}
    → Balanced 1 extra budget c
    → w + n ≤ suc (c.wrong_uid_rejected + c.nonce_mismatch_rejected)
    → Balanced 0 extra budget (record c {
      rejected = add64 c.rejected 1;
      wrong_uid_rejected = w;
      nonce_mismatch_rejected = n;
    })
judge-Balanced c b few =
    let up = bump c.rejected (omega (arith, b.upper, b.bound)) in
    record {
      lower = omega (arith, up, b.lower);
      upper = omega (arith, up, b.upper);
      reasons = omega (arith, up, b.reasons);
      kinds = b.kinds;
      bound = b.bound;
    }

reject-Balanced :
    (reason : ResponseReason) {extra budget : ℕ} {c : ResolveCounters}
    → Balanced 1 extra budget c
    → Balanced 0 extra budget (reject reason c)
unfolding reject count_reason
reject-Balanced accepted {c = c} b = judge-Balanced c b (omega arith)
reject-Balanced malformed {c = c} b = judge-Balanced c b (omega arith)
reject-Balanced unknown {c = c} b = judge-Balanced c b (omega arith)
reject-Balanced wrong_uid {c = c} b =
    judge-Balanced c b
      (omega (arith, bump c.wrong_uid_rejected (omega (arith, b.reasons, b.upper, b.bound))))
reject-Balanced nonce_mismatch {c = c} b =
    judge-Balanced c b
      (omega (arith, bump c.nonce_mismatch_rejected (omega (arith, b.reasons, b.upper, b.bound))))

pub settle-Accounts :
    (ip : ℕ) (taken : Bool) (reason : ResponseReason) {extra budget : ℕ} {c : ResolveCounters}
    → Balanced 1 extra budget c
    → Accounts extra budget (settle ip taken reason c)
unfolding settle Accounts
settle-Accounts ip taken accepted b = b
settle-Accounts ip taken malformed b = reject-Balanced malformed b
settle-Accounts ip taken wrong_uid b = reject-Balanced wrong_uid b
settle-Accounts ip taken nonce_mismatch b = reject-Balanced nonce_mismatch b
settle-Accounts ip taken unknown b = reject-Balanced unknown b

pub Balanced-spend :
    {unjudged extra budget extra' budget' : ℕ} {c : ResolveCounters}
    → extra ≤ extra'
    → extra' + budget' ≤ extra + budget
    → Balanced unjudged extra budget c
    → Balanced unjudged extra' budget' c
Balanced-spend more less b = record {
  lower = b.lower;
  upper = omega (arith, b.upper);
  reasons = b.reasons;
  kinds = b.kinds;
  bound = omega (arith, b.bound);
}

pub Accounts-spend :
    (extra budget extra' budget' : ℕ) (r : Reader)
    → extra ≤ extra'
    → extra' + budget' ≤ extra + budget
    → Accounts extra budget r
    → Accounts extra' budget' r
unfolding Accounts
Accounts-spend extra budget extra' budget' (waiting c) more less b = Balanced-spend more less b
Accounts-spend extra budget extra' budget' (cancelled c) more less b = Balanced-spend more less b
Accounts-spend extra budget extra' budget' (answered c found) more less b =
    Balanced-spend more less b
