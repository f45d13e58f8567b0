-- ===== src/Assembler/Emit/Loss.antt =====
-- What `emit` does with a frame that lost fragments.
use ha_addon_petlibro_local.Prelude.{
  ℕ, ◌-◌, ◌≡◌, refl, ap, ◌∙◌, inl, inr, Bool, true, false, not, ◌&&◌, ◌||◌, Bool-cases, List, ltb,
  leb, ◌==◌, arith,
}
use ha_addon_petlibro_local.Media.Trailer.{Stripped}
use ha_addon_petlibro_local.Media.Extended.{inner_ch_key}
use ha_addon_petlibro_local.Assembler.Channel.{PendingFrag, ChannelAsm, reset}
use ha_addon_petlibro_local.Assembler.Stream.{Stream, with_stats}
use ha_addon_petlibro_local.Assembler.Emit.{
  get_asm, put_asm, take_end, finish_frame, expected_data, close_frame, count_close,
}

-- Whether the fragments so far lack one: a gap between indices, or fewer than announced.
abbrev pub lossy : ChannelAsm → Bool
lossy a = a.cur_au_gapped || ltb a.cur_au_data_count (a.cur_au_total - 1)

-- Whether of more than one fragment only the end arrived.
abbrev pub only_end : ChannelAsm → Bool
only_end a = leb 1 (a.cur_au_total - 1) && a.cur_au_data_count == 0

-- The parts of the stream that the loss policy reads and writes.
pub record Withheld (s s' : Stream) (poison : Bool) : Type 0 where
  pub frames : s'.frames ≡ s.frames
  pub poisoned : s'.gop_poisoned ≡ (poison || s.gop_poisoned)

put_asm-fields :
    (s : Stream) (channel : ℕ) (a : ChannelAsm)
    → ((put_asm s channel a).frames ≡ s.frames)
      × ((put_asm s channel a).gop_poisoned ≡ s.gop_poisoned)
      × ((put_asm s channel a).strict ≡ s.strict)
put_asm-fields s channel a = elim (Bool-cases (channel == 0x07)) [
  | inl inter ↦ rw inter (refl, refl, refl)
  | inr key ↦ rw key (refl, refl, refl)
]

finish_frame-Withheld :
    (s : Stream) (e : PendingFrag) (info : Stripped) (au : List ℕ)
    → (s.strict || not (e.channel == inner_ch_key)) ≡ true
    → Withheld s (finish_frame s e info au true) s.strict
unfolding finish_frame
finish_frame-Withheld s e info au policy = record {
  frames = ground (arith, policy);
  poisoned = ground (arith, policy);
}

floor-Withheld :
    (s : Stream) (e : PendingFrag) (info : Stripped)
    → only_end (get_asm s e.channel) ≡ true
    → Withheld s (take_end s e info) (s.strict && e.channel == inner_ch_key)
unfolding take_end expected_data
floor-Withheld s e info floor =
    let a = get_asm s e.channel in
    let st = with_stats s (count_close s.stats a e.channel) in
    let fields = put_asm-fields st e.channel (reset (close_frame a info)) in
    rw floor (record { frames = fields.0; poisoned = refl })

close_frame-gapped :
    (a : ChannelAsm) (info : Stripped) → (close_frame a info).cur_au_gapped ≡ lossy a
unfolding close_frame expected_data
close_frame-gapped a info = refl

take_end-finish :
    (s : Stream) (e : PendingFrag) (info : Stripped)
    → only_end (get_asm s e.channel) ≡ false
    → take_end s e info ≡ (
        let a = get_asm s e.channel in
        finish_frame
          (put_asm
            (with_stats s (count_close s.stats a e.channel))
            e.channel
            (reset (close_frame a info)))
          e
          info
          (close_frame a info).buf
          (close_frame a info).cur_au_gapped)
unfolding take_end expected_data
take_end-finish s e info floor = rw floor refl

whole-Withheld :
    (s : Stream) (e : PendingFrag) (info : Stripped)
    → only_end (get_asm s e.channel) ≡ false
    → lossy (get_asm s e.channel) ≡ true
    → (s.strict || not (e.channel == inner_ch_key)) ≡ true
    → Withheld s (take_end s e info) s.strict
whole-Withheld s e info floor lost policy =
    let a = get_asm s e.channel in
    let st = with_stats s (count_close s.stats a e.channel) in
    let s1 = put_asm st e.channel (reset (close_frame a info)) in
    let (frames, poisoned, strict) = put_asm-fields st e.channel (reset (close_frame a info)) in
    let gapped = close_frame-gapped a info ∙ lost in
    let policy' : (s1.strict || not (e.channel == inner_ch_key)) ≡ true = rw strict policy in
    let w = finish_frame-Withheld s1 e info (close_frame a info).buf policy' in
    let sent =
      take_end-finish s e info floor
      ∙ ap (finish_frame s1 e info (close_frame a info).buf) gapped in
    rw sent
      (record { frames = w.frames ∙ frames; poisoned = w.poisoned ∙ rw (strict, poisoned) refl })

-- The end fragment of a lossy frame. In strict mode nothing is queued and the group of pictures
-- is poisoned, except by a P-frame of which only the end arrived. In the default mode a lossy P-frame is
-- not queued and poisons nothing.
pub take_end-Withheld :
    (s : Stream) (e : PendingFrag) (info : Stripped)
    → lossy (get_asm s e.channel) ≡ true
    → (s.strict || not (e.channel == inner_ch_key)) ≡ true
    → Withheld s
        (take_end s e info)
        (s.strict && (not (only_end (get_asm s e.channel)) || e.channel == inner_ch_key))
take_end-Withheld s e info lost policy = elim (Bool-cases (only_end (get_asm s e.channel))) [
  | inl floor ↦ rw floor (floor-Withheld s e info floor)
  | inr whole ↦
      let poison : (s.strict && (not (only_end (get_asm s e.channel)) || e.channel == inner_ch_key))
          ≡ s.strict =
        ground (arith, whole) in
      rw poison (whole-Withheld s e info whole lost policy)
]
