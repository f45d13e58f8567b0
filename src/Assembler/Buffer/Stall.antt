-- ===== src/Assembler/Buffer/Stall.antt =====
-- When no position arrives, the ticks of `forceDrain` empty the buffer.
use ha_addon_petlibro_local.Prelude.{
  ℕ, zero, suc, ◌+◌, ◌-◌, ◌%◌, ◌≤◌, ◌<◌, ◌≡◌, refl, sym, ap, ◌∙◌, ◌⊎◌, inl, inr, Bool, true, false,
  Bool-cases, List, [], ◌∷◌, ◌++◌, length, if◌then◌else◌, ltb, leb, ◌==◌, length-append, arith,
}
use ha_addon_petlibro_local.Assembler.Buffer.{
  Entry, Client, deliver, due, flush_keys, flush_due, reset_stall, watch_stall, force_drain,
  force_drain_stall_ticks,
}
use ha_addon_petlibro_local.Assembler.Buffer.Deliver.{Placed}
use ha_addon_petlibro_local.Assembler.Buffer.Flush.{Ticked}
use ha_addon_petlibro_local.Assembler.Buffer.Ticks.{
  busy_tick, busy_tick-Ticked, force_drain-busy, flush_all-Ticked, watch_stall-Placed, nothing,
}

-- The stall clock of a client, and the position that it watches.
record Clock (c : Client) (ticks last high : ℕ) : Type 0 where
  ticks_eq : c.stall_ticks ≡ ticks
  last_eq : c.last_high_ext ≡ last
  high_eq : c.av_high_ext ≡ high

abbrev own_clock : (c : Client) → Clock c c.stall_ticks c.last_high_ext c.av_high_ext
own_clock c = record { ticks_eq = refl; last_eq = refl; high_eq = refl }

flush_keys-Clock :
    (es : List Entry) (c : Client) {t l h : ℕ} → Clock c t l h → Clock (flush_keys c es) t l h
unfolding flush_keys deliver
flush_keys-Clock [] c k = k
flush_keys-Clock ((i, e) ∷ es) c k =
    flush_keys-Clock es (deliver c i e)
      (record { ticks_eq = k.ticks_eq; last_eq = k.last_eq; high_eq = k.high_eq })

flush_due-Clock :
    (c : Client) (threshold : ℕ)
    → Clock (flush_due c false threshold) c.stall_ticks c.last_high_ext c.av_high_ext
unfolding flush_due reset_stall
flush_due-Clock c threshold = elim (Bool-cases (length (due false threshold c.av_buffer) == 0)) [
  | inl none_due ↦ rw none_due (own_clock c)
  | inr some_due ↦ rw some_due (flush_keys-Clock (due false threshold c.av_buffer) _ (own_clock _))
]

busy_tick-Clock :
    (c : Client) → Clock (busy_tick c false) c.stall_ticks c.last_high_ext c.av_high_ext
unfolding busy_tick
busy_tick-Clock c = elim (Bool-cases (ltb c.av_high_ext 8)) [
  | inl low ↦ rw low (own_clock c)
  | inr high ↦ rw high (flush_due-Clock c (c.av_high_ext - 8))
]

watched : Client → ℕ
watched c = if c.av_high_ext == c.last_high_ext then suc c.stall_ticks % 256 else 0

watch_stall-Clock : (c : Client) → Clock (watch_stall c) (watched c) c.av_high_ext c.av_high_ext
unfolding watch_stall watched
watch_stall-Clock c = elim (Bool-cases (c.av_high_ext == c.last_high_ext)) [
  | inl same ↦
      let e : c.last_high_ext ≡ c.av_high_ext = ground arith in
      rw same (record { ticks_eq = refl; last_eq = e; high_eq = refl })
  | inr moved ↦ rw moved (record { ticks_eq = refl; last_eq = refl; high_eq = refl })
]

empty_after : (b rest : List Entry) → b ≡ b ++ rest → rest ≡ []
empty_after b rest h =
    let sizes : length b ≡ length b + length rest = ap length h ∙ length-append b rest in
    nothing rest (ground (arith, sizes))

-- What a tick leaves of a client: an empty buffer, or a clock that has moved on.
record Moved (c c' : Client) : Type 0 where
  placed : Placed c'
  clock : Clock c' (watched c) c.av_high_ext c.av_high_ext

abbrev Tick : Client → Client → Type 0
Tick c c' = (c'.av_buffer ≡ []) ⊎ Moved c c'

tick_empty : (c : Client) → (length c.av_buffer == 0) ≡ true → (force_drain c).av_buffer ≡ []
unfolding force_drain
tick_empty c idle = rw idle (nothing c.av_buffer idle)

busy_tick-Moved :
    (c d : Client)
    → Placed d
    → Clock d (watched c) c.av_high_ext c.av_high_ext
    → (stalled : Bool) → (es : List Entry) × Ticked d (busy_tick d stalled) es
    → Tick c (busy_tick d stalled)
busy_tick-Moved c d p k true t =
    let all = flush_all-Ticked d d.av_high_ext p in
    inl (unfold busy_tick in empty_after d.av_buffer _ all.buffer)
busy_tick-Moved c d p k false (es, t) =
    let own = busy_tick-Clock d in
    inr (record {
      placed = t.placed;
      clock = record {
        ticks_eq = own.ticks_eq ∙ k.ticks_eq;
        last_eq = own.last_eq ∙ k.last_eq;
        high_eq = own.high_eq ∙ k.high_eq;
      };
    })

force_drain-Tick : (c : Client) → Placed c → Tick c (force_drain c)
force_drain-Tick c p = elim (Bool-cases (length c.av_buffer == 0)) [
  | inl idle ↦ inl (tick_empty c idle)
  | inr busy ↦
      let stalled = leb force_drain_stall_ticks (watch_stall c).stall_ticks in
      let p' = watch_stall-Placed c p in
      rw (force_drain-busy c busy) (
        busy_tick-Moved c (watch_stall c) p' (watch_stall-Clock c) stalled
          (busy_tick-Ticked (watch_stall c) stalled p'))
]

stalled_tick :
    (c : Client) → Placed c → force_drain_stall_ticks ≤ watched c → (force_drain c).av_buffer ≡ []
stalled_tick c p old = elim (Bool-cases (length c.av_buffer == 0)) [
  | inl idle ↦ tick_empty c idle
  | inr busy ↦
      let d = watch_stall c in
      let old' : leb force_drain_stall_ticks d.stall_ticks ≡ true =
        rw ((watch_stall-Clock c).ticks_eq) (ground arith) in
      let all = flush_all-Ticked d d.av_high_ext (watch_stall-Placed c p) in
      rw (force_drain-busy c busy, old') (unfold busy_tick in empty_after d.av_buffer _ all.buffer)
]

-- `n` ticks with no datagram between them.
abbrev pub ticks : ℕ → Client → Client
ticks zero c = c
ticks (suc n) c = ticks n (force_drain c)

ticks_empty : (n : ℕ) (c : Client) → c.av_buffer ≡ [] → (ticks n c).av_buffer ≡ []
ticks_empty zero c h = h
ticks_empty (suc n) c h = ticks_empty n (force_drain c) (tick_empty c (rw h (ground arith)))

watched_same :
    (c : Client) (t : ℕ) → Clock c t c.av_high_ext c.av_high_ext → t < 255 → watched c ≡ suc t
unfolding watched
watched_same c t k small = ground (arith, k.ticks_eq, k.last_eq)

watched_young : (c : Client) → c.stall_ticks < 255 → watched c ≤ suc c.stall_ticks
unfolding watched
watched_young c small = ground arith

-- The next tick's clock, and what it leaves to count.
after_tick :
    (c : Client) (w : ℕ)
    → (force_drain c).av_high_ext ≡ c.av_high_ext
    → Clock (force_drain c) w c.av_high_ext c.av_high_ext
    → Clock (force_drain c) w (force_drain c).av_high_ext (force_drain c).av_high_ext
after_tick c w high k = record {
  ticks_eq = k.ticks_eq;
  last_eq = k.last_eq ∙ sym high;
  high_eq = refl;
}

count_on :
    (n : ℕ) (c : Client) (t : ℕ)
    → Placed c
    → Clock c t c.av_high_ext c.av_high_ext
    → t < force_drain_stall_ticks
    → force_drain_stall_ticks ≤ t + n
    → (ticks n c).av_buffer ≡ []
count_on zero c t p k young enough = absurd (omega arith)
count_on (suc n) c t p k young enough =
    let w = watched_same c t k (omega arith) in
    elim (Bool-cases (leb force_drain_stall_ticks (suc t))) [
      | inl old ↦ ticks_empty n (force_drain c) (stalled_tick c p (ground (arith, w)))
      | inr still ↦ elim (force_drain-Tick c p) [
        | inl done ↦ ticks_empty n (force_drain c) done
        | inr moved ↦
            let clock = after_tick c _ moved.clock.high_eq moved.clock in
            count_on n (force_drain c) (suc t) moved.placed (rw w at clock) (ground arith)
              (omega arith)
      ]
    ]

-- Six ticks without a new position leave nothing in the buffer, so a stalled camera strands no
-- fragment there. The stall clock is below its limit, which each tick restores.
pub ticks-empty :
    (c : Client) → Placed c → c.stall_ticks < force_drain_stall_ticks → (ticks 6 c).av_buffer ≡ []
ticks-empty c p young =
    let w = watched_young c (omega arith) in
    elim (Bool-cases (leb force_drain_stall_ticks (watched c))) [
      | inl old ↦ ticks_empty 5 (force_drain c) (stalled_tick c p (ground arith))
      | inr still ↦ elim (force_drain-Tick c p) [
        | inl done ↦ ticks_empty 5 (force_drain c) done
        | inr moved ↦
            count_on 5 (force_drain c) (watched c) moved.placed
              (after_tick c _ moved.clock.high_eq moved.clock) (ground arith) (omega arith)
      ]
    ]
