-- ===== src/Assembler/Buffer/Flush.antt =====
-- The loop of `forceDrain` over the sorted keys.
use ha_addon_petlibro_local.Prelude.{
  ℕ, suc, ◌+◌, ◌-◌, ◌≤◌, ◌<◌, ◌≡◌, refl, sym, ap, ◌∙◌, inl, inr, Bool, true, false, Bool-cases,
  List, [], ◌∷◌, ◌++◌, length, if◌then◌else◌, leb, ◌==◌, add64, add64-eq, u64_mod, arith,
}
use ha_addon_petlibro_local.Assembler.Channel.{PendingFrag}
use ha_addon_petlibro_local.Assembler.Stream.{Stream, with_stats}
use ha_addon_petlibro_local.Assembler.Emit.{emit}
use ha_addon_petlibro_local.Assembler.Buffer.{
  Entry, Client, delete_frag, deliver, due, flush_keys, flush_due, reset_stall,
}
use ha_addon_petlibro_local.Assembler.Buffer.Ordered.{Ordered}
use ha_addon_petlibro_local.Assembler.Buffer.Deliver.{Placed}
use ha_addon_petlibro_local.Assembler.Counts.{count_force_drain}

-- The fragments of a list of entries, emitted in its order.
abbrev pub emit_all : Stream → List Entry → Stream
emit_all s [] = s
emit_all s ((k, e) ∷ es) = emit_all (emit s e) es

-- What a threshold leaves behind: the entries from the first one above it on.
unfoldable pub kept : ℕ → List Entry → List Entry
kept threshold [] = []
kept threshold ((k, e) ∷ b) =
    let rest = kept threshold b in if leb k threshold then rest else (k, e) ∷ b

due_none :
    (lo hi threshold : ℕ) (b : List Entry)
    → Ordered lo b hi
    → threshold < lo
    → due false threshold b ≡ []
unfolding due
due_none lo hi threshold [] h above = refl
due_none lo hi threshold ((k, e) ∷ b) (p, q, r) above =
    let late : leb k threshold ≡ false = ground arith in
    rw late (due_none (suc k) hi threshold b r (omega arith))

-- In key order, the entries that are due are the first ones.
pub due_prefix :
    (lo hi threshold : ℕ) (b : List Entry)
    → Ordered lo b hi
    → b ≡ due false threshold b ++ kept threshold b
unfolding due kept
due_prefix lo hi threshold [] h = refl
due_prefix lo hi threshold ((k, e) ∷ b) (p, q, r) = elim (Bool-cases (leb k threshold)) [
  | inl early ↦ rw early (ap (λ t. (k, e) ∷ t) (due_prefix (suc k) hi threshold b r))
  | inr late ↦
      let k>t : threshold < suc k = ground arith in
      rw (late, due_none (suc k) hi threshold b r k>t) refl
]

pub due_all : (threshold : ℕ) (b : List Entry) → due true threshold b ≡ b
unfolding due
due_all threshold [] = refl
due_all threshold ((k, e) ∷ b) = ap (λ t. (k, e) ∷ t) (due_all threshold b)

pub kept-Ordered :
    (lo hi threshold : ℕ) (b : List Entry)
    → Ordered lo b hi
    → Ordered (suc threshold) (kept threshold b) hi
unfolding kept
kept-Ordered lo hi threshold [] h = tt
kept-Ordered lo hi threshold ((k, e) ∷ b) (p, q, r) = elim (Bool-cases (leb k threshold)) [
  | inl early ↦ rw early (kept-Ordered (suc k) hi threshold b r)
  | inr late ↦ rw late (ground arith, q, r)
]

-- The loop over the keys, for a buffer that begins with them.
record Flushed (c c' : Client) (es rest : List Entry) : Type 0 where
  stream : c'.stream ≡ emit_all c.stream es
  buffer : c'.av_buffer ≡ rest
  ordered : Ordered c'.av_next_ext rest c.av_high_ext
  high : c'.av_high_ext ≡ c.av_high_ext

delete_frag-first : (k : ℕ) (e : PendingFrag) (b : List Entry) → delete_frag ((k, e) ∷ b) k ≡ b
unfolding delete_frag
delete_frag-first k e b = let same : (k == k) ≡ true = ground arith in rw same refl

deliver-buffer :
    (c : Client) (k : ℕ) (e : PendingFrag) (b : List Entry)
    → c.av_buffer ≡ (k, e) ∷ b
    → (deliver c k e).av_buffer ≡ b
unfolding deliver
deliver-buffer c k e b same = rw same (delete_frag-first k e b)

deliver-Ordered :
    (c : Client) (k : ℕ) (e : PendingFrag) (b : List Entry)
    → k ≤ c.av_high_ext
    → Ordered (suc k) b c.av_high_ext
    → c.av_high_ext + 1 < u64_mod
    → Ordered (deliver c k e).av_next_ext b (deliver c k e).av_high_ext
unfolding deliver
deliver-Ordered c k e b below h room =
    let one : add64 k 1 ≡ suc k = omega (arith, add64-eq k 1 (omega arith)) in rw one h

deliver-room :
    (c : Client) (k : ℕ) (e : PendingFrag)
    → c.av_high_ext + 1 < u64_mod
    → (deliver c k e).av_high_ext + 1 < u64_mod
unfolding deliver
deliver-room c k e room = room

deliver-Flushed :
    (c c' : Client) (k : ℕ) (e : PendingFrag) (es rest : List Entry)
    → Flushed (deliver c k e) c' es rest
    → Flushed c c' ((k, e) ∷ es) rest
unfolding deliver
deliver-Flushed c c' k e es rest f = record {
  stream = f.stream;
  buffer = f.buffer;
  ordered = f.ordered;
  high = f.high;
}

flush_keys-Flushed :
    (c : Client) (es rest : List Entry)
    → c.av_buffer ≡ es ++ rest
    → Ordered c.av_next_ext (es ++ rest) c.av_high_ext
    → c.av_high_ext + 1 < u64_mod
    → Flushed c (flush_keys c es) es rest
unfolding flush_keys
flush_keys-Flushed c [] rest same h room = record {
  stream = refl;
  buffer = same;
  ordered = h;
  high = refl;
}
flush_keys-Flushed c ((k, e) ∷ es) rest same (p, q, r) room =
    deliver-Flushed c (flush_keys (deliver c k e) es) k e es rest (
      flush_keys-Flushed (deliver c k e) es rest (deliver-buffer c k e (es ++ rest) same)
        (deliver-Ordered c k e (es ++ rest) q r room) (deliver-room c k e room))

-- The stream that the loop starts from: a flush of entries is counted first.
unfoldable pub counted : Stream → List Entry → Stream
counted s es = if length es == 0 then s else with_stats s (count_force_drain s.stats (length es))

-- What one tick does.
pub record Ticked (c c' : Client) (es : List Entry) : Type 0 where
  pub buffer : c.av_buffer ≡ es ++ c'.av_buffer
  pub stream : c'.stream ≡ emit_all (counted c.stream es) es
  pub placed : Placed c'
  pub recent : Ordered (c.av_high_ext - 7) c'.av_buffer c.av_high_ext

reset_stall-Ticked :
    (c c' : Client) (stalled : Bool) (es : List Entry)
    → Ticked c c' es
    → Ticked c (reset_stall stalled c') es
unfolding reset_stall
reset_stall-Ticked c c' true es t = record {
  buffer = t.buffer;
  stream = t.stream;
  placed = record { ordered = t.placed.ordered; room = t.placed.room };
  recent = t.recent;
}
reset_stall-Ticked c c' false es t = t

abbrev start : Client → List Entry → Client
start c es = record c {
  stream = with_stats c.stream (count_force_drain c.stream.stats (length es));
}

Flushed-Ticked :
    (c c' : Client) (x : Entry) (es rest : List Entry)
    → Placed c
    → c.av_buffer ≡ (x ∷ es) ++ rest
    → Ordered (c.av_high_ext - 7) rest c.av_high_ext
    → Flushed (start c (x ∷ es)) c' (x ∷ es) rest
    → Ticked c c' (x ∷ es)
unfolding counted
Flushed-Ticked c c' x es rest p split recent f =
    let some_entries : (length (x ∷ es) == 0) ≡ false = ground arith in
    record {
      buffer = split ∙ ap (λ t. (x ∷ es) ++ t) (sym f.buffer);
      stream = rw some_entries f.stream;
      placed = record { ordered = rw (f.buffer, f.high) f.ordered; room = rw f.high p.room };
      recent = rw f.buffer recent;
    }

pub flush_due-Ticked :
    (c : Client) (stalled : Bool) (threshold : ℕ) (rest : List Entry)
    → Placed c
    → c.av_buffer ≡ due stalled threshold c.av_buffer ++ rest
    → Ordered (c.av_high_ext - 7) rest c.av_high_ext
    → Ticked c (flush_due c stalled threshold) (due stalled threshold c.av_buffer)
unfolding flush_due
flush_due-Ticked c stalled threshold rest p split recent =
    go (due stalled threshold c.av_buffer) refl
  where
    go :
        (es : List Entry)
        → due stalled threshold c.av_buffer ≡ es
        → Ticked c (flush_due c stalled threshold) (due stalled threshold c.av_buffer)
    go [] none_due =
        let rest' : c.av_buffer ≡ rest = rw none_due at split in
        rw none_due (record {
          buffer = refl;
          stream = unfold counted in refl;
          placed = p;
          recent = rw rest' recent;
        })
    go ((k, e) ∷ es) some_due =
        let b : c.av_buffer ≡ ((k, e) ∷ es) ++ rest = rw some_due at split in
        let some_entries : (length ((k, e) ∷ es) == 0) ≡ false = ground arith in
        let o : Ordered c.av_next_ext (((k, e) ∷ es) ++ rest) c.av_high_ext = rw b at p.ordered in
        let f = flush_keys-Flushed (start c ((k, e) ∷ es)) ((k, e) ∷ es) rest b o p.room in
        rw (some_due, some_entries)
          (reset_stall-Ticked _ _ stalled ((k, e) ∷ es)
            (Flushed-Ticked c _ (k, e) es rest p b recent f))
