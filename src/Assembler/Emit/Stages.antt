-- ===== src/Assembler/Emit/Stages.antt =====
-- The state while a frame is being built, and the stages of `emit` on it one by one.
use ha_addon_petlibro_local.Prelude.{
  ℕ, ◌≡◌, refl, ◌∙◌, inl, inr, Bool, true, false, not, ◌&&◌, ◌||◌, Bool-cases, List, [], ltb, ◌==◌,
  length, arith,
}
use ha_addon_petlibro_local.Assembler.Channel.{PendingFrag, ChannelAsm}
use ha_addon_petlibro_local.Assembler.Stream.{Stream, with_stats, debug_av_frame_info}
use ha_addon_petlibro_local.Assembler.Emit.{
  get_asm, put_asm, frame_jump, begin_frame, flush_for_inter, start_frame,
}
use ha_addon_petlibro_local.Assembler.Counts.{count_frame_in, count_vid_frag}

-- The two video channels: `true` is the one for P-frames.
abbrev pub channel_of : Bool → ℕ
channel_of true = 0x07
channel_of false = 0x05

abbrev pub asm_of : Stream → Bool → ChannelAsm
asm_of s true = s.inter_asm
asm_of s false = s.key_asm

abbrev pub fragment : Bool → ℕ → ℕ → ℕ → ℕ → List ℕ → PendingFrag
fragment inter frame total idx position payload = record {
  channel = channel_of inter;
  is_audio = false;
  sub_ext = position;
  frame_num = frame;
  frag_idx = idx;
  total_frags = total;
  payload = payload;
}

-- The output as it was.
pub record Quiet (s0 s : Stream) : Type 0 where
  pub strict : s.strict ≡ s0.strict
  pub poisoned : s.gop_poisoned ≡ s0.gop_poisoned
  pub frames : s.frames ≡ s0.frames
  pub done : s.done ≡ s0.done

-- No frame is begun on the channel, nor, for a P-frame, an IDR on the other one.
pub record Idle (s : Stream) (inter : Bool) : Type 0 where
  pub pending : (asm_of s inter).frame_pending ≡ false
  pub buf : (asm_of s inter).buf ≡ []
  pub other : s.key_asm.frame_pending ≡ false

-- The first `i` fragments of the frame have arrived, with the bytes `buf`.
pub record Building (s0 s : Stream) (inter : Bool) (frame total i : ℕ) (buf : List ℕ) : Type 0 where
  pub buf_eq : (asm_of s inter).buf ≡ buf
  pub frame_eq : (asm_of s inter).cur_frame_num ≡ frame
  pub pending : (asm_of s inter).frame_pending ≡ true
  pub total_eq : (asm_of s inter).cur_au_total ≡ total
  pub count_eq : (asm_of s inter).cur_au_data_count ≡ i
  pub gapped : (asm_of s inter).cur_au_gapped ≡ false
  pub expect_eq : (asm_of s inter).expect_frag_idx ≡ i
  pub other : inter ≡ true → s.key_asm.frame_pending ≡ false
  pub quiet : Quiet s0 s

-- What the statistics and the trailer's diagnosis leave alone.
pub record SameAsm (s s' : Stream) : Type 0 where
  pub key : s'.key_asm ≡ s.key_asm
  pub inter : s'.inter_asm ≡ s.inter_asm
  pub quiet : Quiet s s'

abbrev pub counted : Stream → PendingFrag → Bool → Stream
counted s e has_trailer = debug_av_frame_info (with_stats s (count_vid_frag s.stats)) e has_trailer

pub counted-SameAsm : (s : Stream) (e : PendingFrag) (has : Bool) → SameAsm s (counted s e has)
unfolding debug_av_frame_info
counted-SameAsm s e has =
    elim (Bool-cases (not s.verbose || not has || ltb (length e.payload) 16)) [
      | inl silent ↦ rw silent (record {
        key = refl;
        inter = refl;
        quiet = record { strict = refl; poisoned = refl; frames = refl; done = refl };
      })
      | inr logged ↦ rw logged (record {
        key = refl;
        inter = refl;
        quiet = record { strict = refl; poisoned = refl; frames = refl; done = refl };
      })
    ]

pub asm_same : (s s' : Stream) (inter : Bool) → SameAsm s s' → asm_of s' inter ≡ asm_of s inter
asm_same s s' true e = e.inter
asm_same s s' false e = e.key

pub frame_jump-none :
    (s : Stream) (e : PendingFrag)
    → ((get_asm s e.channel).frame_pending
        && not (e.frame_num == (get_asm s e.channel).cur_frame_num))
      ≡ false
    → frame_jump s e ≡ s
unfolding frame_jump
frame_jump-none s e h = rw h refl

pub begin_frame-new :
    (s : Stream) (e : PendingFrag)
    → (get_asm s e.channel).frame_pending ≡ false
    → (e.total_frags == 0) ≡ false
    → begin_frame s e
      ≡ put_asm
          (with_stats s (count_frame_in s.stats))
          e.channel
          (start_frame (get_asm s e.channel) e)
unfolding begin_frame
begin_frame-new s e h sized = rw (h, sized) refl

pub begin_frame-current :
    (s : Stream) (e : PendingFrag)
    → (get_asm s e.channel).frame_pending ≡ true
    → (e.frame_num == (get_asm s e.channel).cur_frame_num) ≡ true
    → ((get_asm s e.channel).cur_au_total == 0) ≡ false
    → begin_frame s e ≡ put_asm s e.channel (get_asm s e.channel)
unfolding begin_frame
begin_frame-current s e h current sized = rw (h, current, sized) refl

pub flush_for_inter-none :
    (s : Stream) (e : PendingFrag) (ts : ℕ)
    → (e.channel == 0x07 && s.key_asm.frame_pending) ≡ false
    → flush_for_inter s e ts ≡ s
unfolding flush_for_inter
flush_for_inter-none s e ts h = ground arith

abbrev pub current_frame : Stream → PendingFrag → ℕ → Stream
current_frame s e ts = flush_for_inter (begin_frame (frame_jump s e) e) e ts

-- Counting changes nothing of this.
pub recount :
    (s0 s : Stream) {s' : Stream} (inter : Bool) (frame total i : ℕ) (buf : List ℕ)
    → Building s0 s inter frame total i buf
    → SameAsm s s'
    → Building s0 s' inter frame total i buf
recount s0 s {s'} inter frame total i buf b e =
    let a = asm_same s s' inter e in
    record {
      buf_eq = rw a b.buf_eq;
      frame_eq = rw a b.frame_eq;
      pending = rw a b.pending;
      total_eq = rw a b.total_eq;
      count_eq = rw a b.count_eq;
      gapped = rw a b.gapped;
      expect_eq = rw a b.expect_eq;
      other = λ h. rw e.key (b.other h);
      quiet = record {
        strict = e.quiet.strict ∙ b.quiet.strict;
        poisoned = e.quiet.poisoned ∙ b.quiet.poisoned;
        frames = e.quiet.frames ∙ b.quiet.frames;
        done = e.quiet.done ∙ b.quiet.done;
      };
    }
