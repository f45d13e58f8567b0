-- ===== src/Ack/Window.antt =====
-- The reports made from the receive state: `ackWindowLocked`, `markTransportACKSent`,
-- `nextTransportACK` and `transportACKLocked` of pkg/petlibro/recv.go.
pub mod Complete
pub mod Session
use ha_addon_petlibro_local.Prelude.{
  ℕ, zero, suc, ◌+◌, ◌-◌, Bool, false, ◌&&◌, ◌≡◌, List, [], ◌∷◌, ◌++◌, if◌then◌else◌, ltb, leb,
  ◌==◌, add16, add64, sub64, to_u16, length,
}
use ha_addon_petlibro_local.Ack.Ranges.{AckSeenRange}
use ha_addon_petlibro_local.Ack.Receive.{Ack}

-- client.go: the bound on the NACK array of one report.
abbrev pub max_transport_nacks : ℕ
max_transport_nacks = 256

pub record AckWindow : Type 0 where
  pub base_ext : ℕ
  pub high_ext : ℕ
  pub contiguous_ext : ℕ
  pub missing : List ℕ
  pub seen_pending : ℕ

-- templates.go: the type-0x09 report.
pub record TransportAck : Type 0 where
  pub ordinal : ℕ
  pub av_base : ℕ
  pub av_high : ℕ
  pub reliable_recv_ack : ℕ
  pub missing : List ℕ
  pub state : ℕ
  pub send_count : ℕ
  pub tick : ℕ

-- `for rangeIndex < len(ranges) && ranges[rangeIndex].last < seq { rangeIndex++ }`; the list is
-- what the index has not passed.
unfoldable pub skip_ranges : ℕ → List AckSeenRange → List AckSeenRange
skip_ranges seq [] = []
skip_ranges seq (r ∷ rs) = let more = skip_ranges seq rs in if ltb r.last seq then more else r ∷ rs

unfoldable pub in_first : ℕ → List AckSeenRange → Bool
in_first seq [] = false
in_first seq (r ∷ rs) = leb r.first seq && leb seq r.last

-- What one round of the loop decides: go on with the ranges and holes so far, or stop.
pub data Visit : Type 0 where
  continue : List AckSeenRange → List ℕ → Visit
  stop : Visit

unfoldable pub visit_hole : ℕ → ℕ → List AckSeenRange → List ℕ → Visit
visit_hole base seq rs missing =
    if length missing == max_transport_nacks
    then stop
    else continue rs (missing ++ (to_u16 (sub64 seq base) ∷ []))

unfoldable pub visit : ℕ → ℕ → ℕ → List AckSeenRange → List ℕ → Visit
visit watermark base seq rs missing =
    let rest = skip_ranges seq rs in
    if leb seq watermark
    then continue rs missing
    else if in_first seq rest
    then continue rest missing
    else visit_hole base seq rest missing

-- The loop from `seq` on, with `rounds` positions left to `high`: the holes, and the last position
-- that the report speaks of. The loop ends at `high`, so `rounds` is the fuel that it needs.
unfoldable pub scan : ℕ → ℕ → ℕ → ℕ → ℕ → List AckSeenRange → List ℕ → List ℕ × ℕ
scan watermark base high zero seq rs missing = (missing, high)
scan watermark base high (suc rounds) seq rs missing = elim (visit watermark base seq rs missing) [
  | continue rs' missing' ↦ scan watermark base high rounds (add64 seq 1) rs' missing'
  | stop ↦ (missing, sub64 seq 1)
]

-- `if w.highExt-w.baseExt > 0xffff { w.highExt = w.baseExt + 0xffff }`
unfoldable pub clamp_high : ℕ → ℕ → ℕ
clamp_high base high = if ltb 65535 (sub64 high base) then add64 base 65535 else high

unfoldable pub ack_window : Ack → AckWindow
ack_window a =
    let high = clamp_high a.reported a.high in
    let (missing, high') =
      scan a.watermark a.reported high (high - a.reported) (add64 a.reported 1) a.seen_ranges [] in
    record {
      base_ext = a.reported;
      high_ext = high';
      contiguous_ext = a.watermark;
      missing = missing;
      seen_pending = a.seen_pending;
    }

unfoldable pub mark_transport_ack_sent : Ack → AckWindow → Ack
mark_transport_ack_sent a w =
    let reported = if ltb w.high_ext w.contiguous_ext then w.high_ext else w.contiguous_ext in
    if ltb a.reported reported then record a { reported = reported } else a

unfoldable pub transport_ack : Ack → ℕ → ℕ → ℕ → List ℕ → ℕ → TransportAck × Ack
transport_ack a ordinal base high missing tick = (
  record {
    ordinal = ordinal;
    av_base = base;
    av_high = high;
    reliable_recv_ack = a.reliable_recv;
    missing = missing;
    state = 0;
    send_count = a.send_count;
    tick = tick;
  },
  record a { send_count = add16 a.send_count 1 },
)

unfoldable pub next_transport_ack : Ack → ℕ → ℕ → TransportAck × AckWindow × Ack
unfolding ack_window transport_ack
next_transport_ack a ordinal tick =
    let w = ack_window a in
    let (t, a') = transport_ack a ordinal (to_u16 w.base_ext) (to_u16 w.high_ext) w.missing tick in
    (t, w, a')

unfoldable pub next_transport_ack_for_range : Ack → ℕ → ℕ → ℕ → List ℕ → ℕ → TransportAck × Ack
next_transport_ack_for_range a ordinal base high missing tick =
    transport_ack a ordinal base high missing tick
