-- ===== src/Ack/Reliable/Apart.antt =====
-- The reliable position is kept apart from the AV positions.
use ha_addon_petlibro_local.Prelude.{ℕ, ◌≡◌, arith}
use ha_addon_petlibro_local.Stats.{Counters}
use ha_addon_petlibro_local.Ack.Receive.{Ack, seen}
use ha_addon_petlibro_local.Ack.Receive.Advance.{Inv}
use ha_addon_petlibro_local.Ack.Reliable.{accept_reliable_control}

-- A control message leaves the invariant and the AV positions as they are.
pub record Apart (a b : Ack) : Type 0 where
  pub inv : Inv a → Inv b
  pub high : b.high ≡ a.high
  pub watermark : b.watermark ≡ a.watermark
  pub same_seen : (p : ℕ) → seen b p ≡ seen a p

pub accept_reliable_control-Apart :
    (a : Ack) (st : Counters) (seq : ℕ) → Apart a (accept_reliable_control a st seq).0
unfolding accept_reliable_control
accept_reliable_control-Apart a st seq = record {
  inv = λ v. ground arith;
  high = ground arith;
  watermark = ground arith;
  same_seen = λ p. ground arith;
}
