-- ===== src/Assembler/Emit/Build.antt =====
-- The stages of `emit` on the fragments of one frame, in order and without a loss.
use ha_addon_petlibro_local.Prelude.{
  ℕ, suc, ◌<◌, ◌≡◌, ◌≢◌, refl, ap, ◌∙◌, Bool, true, false, List, [], ◌++◌, ◌==◌, arith, add16,
}
use ha_addon_petlibro_local.Media.Trailer.{Stripped}
use ha_addon_petlibro_local.Assembler.Channel.{PendingFrag, ChannelAsm}
use ha_addon_petlibro_local.Assembler.Stream.{Stream, with_stats}
use ha_addon_petlibro_local.Assembler.Emit.{
  put_asm, prepare, take_data, is_gap, add_data, start_frame,
}
use ha_addon_petlibro_local.Assembler.Counts.{count_frame_in}
use ha_addon_petlibro_local.Assembler.Emit.Stages.{
  Building, Idle, Quiet, asm_same, begin_frame-current, begin_frame-new, counted, counted-SameAsm,
  current_frame, flush_for_inter-none, fragment, frame_jump-none, recount,
}

-- The first fragment of a frame begins it.
begin-Building :
    (s0 s : Stream) (inter : Bool) (frame total idx position : ℕ) (p : List ℕ) (ts : ℕ)
    → Idle s inter
    → Quiet s0 s
    → total ≢ 0
    → Building s0
        (current_frame s (fragment inter frame total idx position p) ts)
        inter
        frame
        total
        0
        []
begin-Building s0 s true frame total idx position p ts idle quiet some =
    let e = fragment true frame total idx position p in
    let begun = put_asm (with_stats s (count_frame_in s.stats)) 0x07 (start_frame s.inter_asm e) in
    let started = begin_frame-new s e idle.pending (ground arith) in
    rw
      (
        frame_jump-none s e (ground (arith, idle.pending)),
        started,
        flush_for_inter-none begun e ts (ground (arith, idle.other)),
      )
      (record {
        buf_eq = idle.buf;
        frame_eq = refl;
        pending = refl;
        total_eq = refl;
        count_eq = refl;
        gapped = refl;
        expect_eq = refl;
        other = λ h. idle.other;
        quiet = record {
          strict = quiet.strict;
          poisoned = quiet.poisoned;
          frames = quiet.frames;
          done = quiet.done;
        };
      })
begin-Building s0 s false frame total idx position p ts idle quiet some =
    let e = fragment false frame total idx position p in
    let started = begin_frame-new s e idle.pending (ground arith) in
    rw
      (
        frame_jump-none s e (ground (arith, idle.pending)),
        started,
        flush_for_inter-none _ e ts refl,
      )
      (record {
        buf_eq = idle.buf;
        frame_eq = refl;
        pending = refl;
        total_eq = refl;
        count_eq = refl;
        gapped = refl;
        expect_eq = refl;
        other = λ h. absurd (ground arith);
        quiet = record {
          strict = quiet.strict;
          poisoned = quiet.poisoned;
          frames = quiet.frames;
          done = quiet.done;
        };
      })

-- A later fragment finds its frame current.
continue-Building :
    (s0 s : Stream) (inter : Bool) (frame total i idx position : ℕ) (buf p : List ℕ) (ts : ℕ)
    → Building s0 s inter frame total i buf
    → total ≢ 0
    → Building s0
        (current_frame s (fragment inter frame total idx position p) ts)
        inter
        frame
        total
        i
        buf
continue-Building s0 s true frame total i idx position buf p ts b some =
    let e = fragment true frame total idx position p in
    let sized : (s.inter_asm.cur_au_total == 0) ≡ false = ground (arith, b.total_eq) in
    let same : (frame == s.inter_asm.cur_frame_num) ≡ true = ground (arith, b.frame_eq) in
    rw
      (
        frame_jump-none s e (ground (arith, same)),
        begin_frame-current s e b.pending same sized,
        flush_for_inter-none s e ts (ground (arith, b.other refl)),
      )
      b
continue-Building s0 s false frame total i idx position buf p ts b some =
    let e = fragment false frame total idx position p in
    let sized : (s.key_asm.cur_au_total == 0) ≡ false = ground (arith, b.total_eq) in
    let same : (frame == s.key_asm.cur_frame_num) ≡ true = ground (arith, b.frame_eq) in
    rw
      (
        frame_jump-none s e (ground (arith, same)),
        begin_frame-current s e b.pending same sized,
        flush_for_inter-none _ e ts refl,
      )
      b

-- A data fragment in order.
add_data-next :
    (a : ChannelAsm) (e : PendingFrag) (i : ℕ)
    → a.expect_frag_idx ≡ i
    → a.cur_au_data_count ≡ i
    → a.cur_au_gapped ≡ false
    → e.frag_idx ≡ i
    → i < 65535
    → ((add_data a e).cur_au_data_count ≡ suc i)
      × ((add_data a e).cur_au_gapped ≡ false)
      × ((add_data a e).expect_frag_idx ≡ suc i)
unfolding add_data is_gap add16
add_data-next a e i expect count gapped idx small = (omega arith, ground arith, omega arith)

pub take_data-Building :
    (s0 s : Stream) (inter : Bool) (frame total i position : ℕ) (buf p : List ℕ)
    → i < 65535
    → Building s0 s inter frame total i buf
    → Building s0
        (take_data s (fragment inter frame total i position p))
        inter
        frame
        total
        (suc i)
        (buf ++ p)
unfolding take_data
take_data-Building s0 s true frame total i position buf p small b =
    let n =
      add_data-next s.inter_asm (fragment true frame total i position p) i b.expect_eq b.count_eq
        b.gapped refl small in
    record {
      buf_eq = unfold add_data in ap (λ t. t ++ p) b.buf_eq;
      frame_eq = unfold add_data in b.frame_eq;
      pending = unfold add_data in b.pending;
      total_eq = unfold add_data in b.total_eq;
      count_eq = n.0;
      gapped = n.1;
      expect_eq = n.2;
      other = b.other;
      quiet = record {
        strict = b.quiet.strict;
        poisoned = b.quiet.poisoned;
        frames = b.quiet.frames;
        done = b.quiet.done;
      };
    }
take_data-Building s0 s false frame total i position buf p small b =
    let n =
      add_data-next s.key_asm (fragment false frame total i position p) i b.expect_eq b.count_eq
        b.gapped refl small in
    record {
      buf_eq = unfold add_data in ap (λ t. t ++ p) b.buf_eq;
      frame_eq = unfold add_data in b.frame_eq;
      pending = unfold add_data in b.pending;
      total_eq = unfold add_data in b.total_eq;
      count_eq = n.0;
      gapped = n.1;
      expect_eq = n.2;
      other = λ h. absurd (ground arith);
      quiet = record {
        strict = b.quiet.strict;
        poisoned = b.quiet.poisoned;
        frames = b.quiet.frames;
        done = b.quiet.done;
      };
    }

-- The state in which a fragment's own frame is current, by the stages before it.
pub prepare-Building :
    (s0 s : Stream) (inter : Bool) (frame total i idx position : ℕ) (buf p : List ℕ)
    (info : Stripped)
    → Building s0 s inter frame total i buf
    → total ≢ 0
    → Building s0
        (prepare s (fragment inter frame total idx position p) info)
        inter
        frame
        total
        i
        buf
unfolding prepare
prepare-Building s0 s inter frame total i idx position buf p info b some =
    let e = fragment inter frame total idx position p in
    continue-Building s0 (counted s e info.has_ts) inter frame total i idx position buf p info.ts
      (recount s0 s inter frame total i buf b (counted-SameAsm s e info.has_ts)) some

-- The same for the frame's first fragment.
pub first-Building :
    (s0 s : Stream) (inter : Bool) (frame total idx position : ℕ) (p : List ℕ) (info : Stripped)
    → Idle s inter
    → Quiet s0 s
    → total ≢ 0
    → Building s0
        (prepare s (fragment inter frame total idx position p) info)
        inter
        frame
        total
        0
        []
unfolding prepare
first-Building s0 s inter frame total idx position p info idle quiet some =
    let e = fragment inter frame total idx position p in
    let same = counted-SameAsm s e info.has_ts in
    let a = asm_same s _ inter same in
    begin-Building s0 (counted s e info.has_ts) inter frame total idx position p info.ts
      (record { pending = rw a idle.pending; buf = rw a idle.buf; other = rw same.key idle.other })
      (record {
        strict = same.quiet.strict ∙ quiet.strict;
        poisoned = same.quiet.poisoned ∙ quiet.poisoned;
        frames = same.quiet.frames ∙ quiet.frames;
        done = same.quiet.done ∙ quiet.done;
      })
      some
