-- ===== src/Assembler/Buffer/Ticks.antt =====
-- The ticks of `forceDrain`: what one of them delivers.
use mathlib.Core.List.{append-nil}
use ha_addon_petlibro_local.Prelude.{
  ℕ, suc, ◌-◌, ◌≤◌, ◌<◌, ◌≡◌, refl, sym, inl, inr, Bool, true, false, Bool-cases, List, [], ◌∷◌,
  length, if◌then◌else◌, ltb, leb, ◌==◌, arith,
}
use ha_addon_petlibro_local.Assembler.Buffer.{
  Entry, Client, due, flush_due, watch_stall, force_drain, force_drain_stall_ticks,
}
use ha_addon_petlibro_local.Assembler.Buffer.Ordered.{Ordered-weaken}
use ha_addon_petlibro_local.Assembler.Buffer.Deliver.{Placed}
use ha_addon_petlibro_local.Assembler.Buffer.Flush.{
  Ticked, kept, kept-Ordered, due_all, due_prefix, flush_due-Ticked, counted,
}

watch_stall-Ticked :
    (c c' : Client) (es : List Entry) → Ticked (watch_stall c) c' es → Ticked c c' es
unfolding watch_stall
watch_stall-Ticked c c' es t = elim (Bool-cases (c.av_high_ext == c.last_high_ext)) [
  | inl same ↦ record {
    buffer = rw same at t.buffer;
    stream = rw same at t.stream;
    placed = t.placed;
    recent = rw same at t.recent;
  }
  | inr moved ↦ record {
    buffer = rw moved at t.buffer;
    stream = rw moved at t.stream;
    placed = t.placed;
    recent = rw moved at t.recent;
  }
]

pub watch_stall-Placed : (c : Client) → Placed c → Placed (watch_stall c)
unfolding watch_stall
watch_stall-Placed c p = elim (Bool-cases (c.av_high_ext == c.last_high_ext)) [
  | inl same ↦ rw same (record { ordered = p.ordered; room = p.room })
  | inr moved ↦ rw moved (record { ordered = p.ordered; room = p.room })
]

-- The tick of a stalled camera delivers everything.
pub flush_all-Ticked :
    (c : Client) (threshold : ℕ) → Placed c → Ticked c (flush_due c true threshold) c.av_buffer
flush_all-Ticked c threshold p =
    let all = due_all threshold c.av_buffer in
    let t = flush_due-Ticked c true threshold [] p (rw all (sym (append-nil c.av_buffer))) tt in
    rw all at t

-- An ordinary tick delivers what is more than eight positions old.
flush_old-Ticked :
    (c : Client)
    → Placed c
    → 8 ≤ c.av_high_ext
    → Ticked c (flush_due c false (c.av_high_ext - 8)) (due false (c.av_high_ext - 8) c.av_buffer)
flush_old-Ticked c p high =
    let h = c.av_high_ext in
    let seven : suc (h - 8) ≡ h - 7 = omega arith in
    let o = kept-Ordered c.av_next_ext h (h - 8) c.av_buffer p.ordered in
    flush_due-Ticked c false (h - 8) (kept (h - 8) c.av_buffer) p
      (due_prefix c.av_next_ext h (h - 8) c.av_buffer p.ordered) (rw seven at o)

-- With nothing buffered, a tick only rewinds the stall clock.
idle-Ticked :
    (c : Client)
    → Placed c
    → c.av_buffer ≡ []
    → Ticked c (record c { stall_ticks = 0; last_high_ext = c.av_high_ext }) []
unfolding counted
idle-Ticked c p none_left = record {
  buffer = refl;
  stream = refl;
  placed = record { ordered = p.ordered; room = p.room };
  recent = rw none_left tt;
}

pub nothing : (b : List Entry) → (length b == 0) ≡ true → b ≡ []
nothing [] h = refl
nothing (x ∷ b) h = absurd (ground arith)

low-Ticked : (c : Client) → Placed c → c.av_high_ext < 8 → Ticked c c []
unfolding counted
low-Ticked c p low =
    let floor : c.av_high_ext - 7 ≡ 0 = omega arith in
    let o = Ordered-weaken _ 0 _ _ c.av_buffer p.ordered (omega arith) (omega arith) in
    record { buffer = refl; stream = refl; placed = p; recent = rw floor o }

watch_stall-high : (c : Client) → (watch_stall c).av_high_ext ≡ c.av_high_ext
unfolding watch_stall
watch_stall-high c = elim (Bool-cases (c.av_high_ext == c.last_high_ext)) [
  | inl same ↦ rw same refl
  | inr moved ↦ rw moved refl
]

-- The tick behind the stall clock, with something buffered.
unfoldable pub busy_tick : Client → Bool → Client
busy_tick c stalled =
    if stalled
    then flush_due c true c.av_high_ext
    else if ltb c.av_high_ext 8
    then c
    else flush_due c false (c.av_high_ext - 8)

pub busy_tick-Ticked :
    (c : Client) (stalled : Bool) → Placed c → (es : List Entry) × Ticked c (busy_tick c stalled) es
unfolding busy_tick
busy_tick-Ticked c true p = (c.av_buffer, flush_all-Ticked c c.av_high_ext p)
busy_tick-Ticked c false p = elim (Bool-cases (ltb c.av_high_ext 8)) [
  | inl low ↦ rw low ([], low-Ticked c p (ground arith))
  | inr high ↦
      rw high (due false (c.av_high_ext - 8) c.av_buffer, flush_old-Ticked c p (ground arith))
]

pub force_drain-busy :
    (c : Client)
    → (length c.av_buffer == 0) ≡ false
    → force_drain c
      ≡ busy_tick (watch_stall c) (leb force_drain_stall_ticks (watch_stall c).stall_ticks)
unfolding force_drain busy_tick
force_drain-busy c busy = rw (busy, watch_stall-high c) refl

-- A tick delivers a first part of the buffer in the order of the positions, counts it, and leaves
-- only fragments of the last eight positions up to the highest one; the rest stays between the
-- next position and the highest one.
pub force_drain-Ticked : (c : Client) → Placed c → (es : List Entry) × Ticked c (force_drain c) es
force_drain-Ticked c p = elim (Bool-cases (length c.av_buffer == 0)) [
  | inl idle ↦ unfold force_drain in rw idle ([], idle-Ticked c p (nothing c.av_buffer idle))
  | inr busy ↦
      let stalled = leb force_drain_stall_ticks (watch_stall c).stall_ticks in
      let (es, t) = busy_tick-Ticked (watch_stall c) stalled (watch_stall-Placed c p) in
      rw (force_drain-busy c busy) (es, watch_stall-Ticked c _ es t)
]
