-- ===== src/Assembler/Emit/Finish.antt =====
-- What the end fragment makes of a whole frame.
use ha_addon_petlibro_local.Prelude.{
  ℕ, suc, ◌≤◌, ◌≡◌, refl, sym, ap₂, ◌∙◌, inl, inr, Bool, true, false, ◌&&◌, Bool-cases, List, [],
  ◌∷◌, ◌++◌, leb, ◌==◌, length, arith,
}
use ha_addon_petlibro_local.Media.Trailer.{Stripped}
use ha_addon_petlibro_local.Assembler.Channel.{PendingFrag, ChannelAsm, reset}
use ha_addon_petlibro_local.Assembler.AnnexB.{nalu_type_i_frame, annexb_contains_nal_type}
use ha_addon_petlibro_local.Assembler.Stream.{Packet, Stream, with_stats}
use ha_addon_petlibro_local.Assembler.Output.{emit_au}
use ha_addon_petlibro_local.Assembler.Output.Outcome.{
  Outcome, too_short, withheld, released_key, released_inter,
}
use ha_addon_petlibro_local.Assembler.Emit.{
  get_asm, put_asm, take_end, finish_frame, expected_data, close_frame, count_close,
}
use ha_addon_petlibro_local.Assembler.Release.{set_pending_ts}
use ha_addon_petlibro_local.Assembler.Emit.Stages.{channel_of, asm_of, Quiet}

-- The state that the end of a whole frame leaves to `emitAU`.
abbrev pub closed : Stream → PendingFrag → Stripped → Stream
closed s e info =
    set_pending_ts
      (put_asm (with_stats s (count_close s.stats (get_asm s e.channel) e.channel)) e.channel
        (reset (close_frame (get_asm s e.channel) info)))
      info.ts

pub closed-Quiet :
    (s0 s : Stream) (e : PendingFrag) (info : Stripped) → Quiet s0 s → Quiet s0 (closed s e info)
unfolding set_pending_ts
closed-Quiet s0 s e info q = elim (Bool-cases (e.channel == 0x07)) [
  | inl inter ↦
      rw inter
        (record { strict = q.strict; poisoned = q.poisoned; frames = q.frames; done = q.done })
  | inr key ↦
      rw key (record { strict = q.strict; poisoned = q.poisoned; frames = q.frames; done = q.done })
]

finish_frame-clean :
    (s : Stream) (e : PendingFrag) (info : Stripped) (au : List ℕ)
    → (s.strict && s.gop_poisoned) ≡ false
    → finish_frame s e info au false
      ≡ emit_au (set_pending_ts s info.ts) au e.frame_num e.channel info.online_num
unfolding finish_frame set_pending_ts
finish_frame-clean s e info au clean = ground (arith, clean)

put_asm-clean :
    (s : Stream) (channel : ℕ) (a : ChannelAsm)
    → (s.strict && s.gop_poisoned) ≡ false
    → ((put_asm s channel a).strict && (put_asm s channel a).gop_poisoned) ≡ false
put_asm-clean s channel a clean = elim (Bool-cases (channel == 0x07)) [
  | inl inter ↦ rw inter clean
  | inr key ↦ rw key clean
]

-- Above the hard floor, the end fragment finishes the frame.
pub take_end-finish :
    (s : Stream) (e : PendingFrag) (info : Stripped)
    → let a = get_asm s e.channel in
      (leb 1 (expected_data a) && a.cur_au_data_count == 0) ≡ false
      → take_end s e info ≡ (
          let a = get_asm s e.channel in
          finish_frame
            (put_asm
              (with_stats s (count_close s.stats a e.channel))
              e.channel
              (reset (close_frame a info)))
            e
            info
            (close_frame a info).buf
            (close_frame a info).cur_au_gapped)
unfolding take_end
take_end-finish s e info floor = rw floor refl

close_frame-whole :
    (a : ChannelAsm) (info : Stripped)
    → a.cur_au_gapped ≡ false
    → a.cur_au_total ≡ suc a.cur_au_data_count
    → ((leb 1 (expected_data a) && a.cur_au_data_count == 0) ≡ false)
      × ((close_frame a info).cur_au_gapped ≡ false)
      × ((close_frame a info).buf ≡ a.buf ++ info.payload)
unfolding close_frame expected_data
close_frame-whole a info gapped total = (ground arith, ground arith, refl)

pub take_end-clean :
    (s : Stream) (e : PendingFrag) (info : Stripped)
    → (get_asm s e.channel).cur_au_gapped ≡ false
    → (get_asm s e.channel).cur_au_total ≡ suc (get_asm s e.channel).cur_au_data_count
    → (s.strict && s.gop_poisoned) ≡ false
    → take_end s e info
      ≡ emit_au
          (closed s e info)
          ((get_asm s e.channel).buf ++ info.payload)
          e.frame_num
          e.channel
          info.online_num
take_end-clean s e info gapped total clean =
    let a = get_asm s e.channel in
    let (floor, whole, bytes) = close_frame-whole a info gapped total in
    let st = with_stats s (count_close s.stats a e.channel) in
    let clean' = put_asm-clean st e.channel (reset (close_frame a info)) clean in
    let s1 = put_asm st e.channel (reset (close_frame a info)) in
    take_end-finish s e info floor
    ∙ ap₂ (finish_frame s1 e info) bytes whole
    ∙ finish_frame-clean s1 e info (a.buf ++ info.payload) clean'

-- One packet with the frame's bytes has joined the queue.
pub record Assembled (s s' : Stream) (au : List ℕ) (frame channel online : ℕ) : Type 0 where
  pub packet : Packet
  pub frames : s'.frames ≡ s.frames ++ (packet ∷ [])
  pub payload : packet.payload ≡ au
  pub frame_num : packet.camera_frame_no ≡ frame
  pub of_channel : packet.channel ≡ channel
  pub of_online : packet.online_num ≡ online
  pub keyframe : packet.is_keyframe ≡ annexb_contains_nal_type au nalu_type_i_frame

pub Outcome-Assembled :
    (s0 s s' : Stream) (au : List ℕ) (frame channel online : ℕ)
    → Quiet s0 s
    → Outcome s s' au frame channel online
    → (s0.strict && s0.gop_poisoned) ≡ false
    → 5 ≤ length au
    → Assembled s0 s' au frame channel online
Outcome-Assembled s0 s s' au frame channel online q (too_short short e) clean long =
    absurd (omega arith)
Outcome-Assembled s0 s s' au frame channel online q (withheld no_key strict poisoned e f) clean
      long =
    absurd (ground (arith, q.strict, q.poisoned))
Outcome-Assembled s0 s s' au frame channel online q (released_key key r) clean long = record {
  packet = _;
  frames = rw q.frames at r.frames;
  payload = refl;
  frame_num = refl;
  of_channel = refl;
  of_online = refl;
  keyframe = sym key;
}
Outcome-Assembled s0 s s' au frame channel online q (released_inter inter clean' r) clean long =
    record {
      packet = _;
      frames = rw q.frames at r.frames;
      payload = refl;
      frame_num = refl;
      of_channel = refl;
      of_online = refl;
      keyframe = sym inter;
    }

pub asm_eq : (s : Stream) (inter : Bool) → get_asm s (channel_of inter) ≡ asm_of s inter
asm_eq s true = refl
asm_eq s false = refl
