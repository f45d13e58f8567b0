-- ===== src/Assembler/Emit/Clean.antt =====
-- The fragments of one frame, emitted in order and without a loss, give the frame's bytes.
use ha_addon_petlibro_local.Prelude.{
  ℕ, suc, ◌+◌, ◌≤◌, ◌<◌, ◌≡◌, ◌≢◌, refl, ap, ◌∙◌, ◌⊎◌, inl, inr, Bool, true, false, ◌&&◌, List, [],
  ◌∷◌, ◌++◌, length, arith,
}
use mathlib.Core.List.{append_assoc, append-nil}
use ha_addon_petlibro_local.Media.Trailer.{Stripped, strip_fragment_metadata_trailer}
use ha_addon_petlibro_local.Assembler.Stream.{Stream, frames_cap}
use ha_addon_petlibro_local.Assembler.Output.{emit_au}
use ha_addon_petlibro_local.Assembler.Output.Outcome.{emit_au-Outcome}
use ha_addon_petlibro_local.Assembler.Emit.{get_asm, emit, emit_video, prepare, take_data, take_end}
use ha_addon_petlibro_local.Assembler.Emit.Build.{
  first-Building, prepare-Building, take_data-Building,
}
use ha_addon_petlibro_local.Assembler.Emit.Finish.{
  Assembled, Outcome-Assembled, asm_eq, closed, closed-Quiet, take_end-clean,
}
use ha_addon_petlibro_local.Assembler.Emit.Stages.{channel_of, fragment, Quiet, Idle, Building}

-- Before a fragment: the frame is not begun, or `i` fragments of it have arrived.
abbrev Before : Stream → Stream → Bool → ℕ → ℕ → ℕ → List ℕ → Type 0
Before s0 s inter frame total i buf =
    (Idle s inter × Quiet s0 s × (i ≡ 0) × (buf ≡ [])) ⊎ Building s0 s inter frame total i buf

current :
    (s0 s : Stream) (inter : Bool) (frame total i idx position : ℕ) (buf p : List ℕ)
    (info : Stripped)
    → Before s0 s inter frame total i buf
    → total ≢ 0
    → Building s0
        (prepare s (fragment inter frame total idx position p) info)
        inter
        frame
        total
        i
        buf
current s0 s inter frame total i idx position buf p info (inl (idle, quiet, none_yet, empty)) some =
    rw (none_yet, empty) (first-Building s0 s inter frame total idx position p info idle quiet some)
current s0 s inter frame total i idx position buf p info (inr b) some =
    prepare-Building s0 s inter frame total i idx position buf p info b some

emit-data :
    (s : Stream) (inter : Bool) (frame total idx position : ℕ) (p : List ℕ)
    → (strip_fragment_metadata_trailer p).has_ts ≡ false
    → let e = fragment inter frame total idx position p in
      emit s e ≡ take_data (prepare s e (strip_fragment_metadata_trailer p)) e
unfolding emit emit_video
emit-data s true frame total idx position p h = rw h refl
emit-data s false frame total idx position p h = rw h refl

emit-end :
    (s : Stream) (inter : Bool) (frame total idx position : ℕ) (p : List ℕ)
    → (strip_fragment_metadata_trailer p).has_ts ≡ true
    → let e = fragment inter frame total idx position p in
      emit s e
      ≡ take_end
          (prepare s e (strip_fragment_metadata_trailer p))
          e
          (strip_fragment_metadata_trailer p)
unfolding emit emit_video
emit-end s true frame total idx position p h = rw h refl
emit-end s false frame total idx position p h = rw h refl

-- The data fragments with the payloads `ps`, from index `i` on.
abbrev pub emit_data_frags : Stream → Bool → ℕ → ℕ → ℕ → ℕ → List (List ℕ) → Stream
emit_data_frags s inter frame total i position [] = s
emit_data_frags s inter frame total i position (p ∷ ps) =
    emit_data_frags (emit s (fragment inter frame total i position p)) inter frame total (suc i)
      (suc position) ps

abbrev pub joined : List (List ℕ) → List ℕ
joined [] = []
joined (p ∷ ps) = p ++ joined ps

abbrev pub NoTrailers : List (List ℕ) → Type 0
NoTrailers [] = Unit {0}
NoTrailers (p ∷ ps) = ((strip_fragment_metadata_trailer p).has_ts ≡ false) × NoTrailers ps

data_frags-Before :
    (ps : List (List ℕ)) (s0 s : Stream) (inter : Bool) (frame total i position : ℕ) (buf : List ℕ)
    → Before s0 s inter frame total i buf
    → total ≢ 0
    → i + length ps < 65536
    → NoTrailers ps
    → Before s0
        (emit_data_frags s inter frame total i position ps)
        inter
        frame
        total
        (i + length ps)
        (buf ++ joined ps)
data_frags-Before [] s0 s inter frame total i position buf b some small plain =
    let same : i + 0 ≡ i = omega arith in rw (same, append-nil buf) b
data_frags-Before (p ∷ ps) s0 s inter frame total i position buf b some small (first, rest) =
    let info = strip_fragment_metadata_trailer p in
    let now = current s0 s inter frame total i i position buf p info b some in
    let taken = take_data-Building s0 _ inter frame total i position buf p (omega arith) now in
    let step : i + suc (length ps) ≡ suc i + length ps = omega arith in
    rw (emit-data s inter frame total i position p first, step, ← append_assoc buf p (joined ps))
      (data_frags-Before ps s0 _ inter frame total (suc i) (suc position) (buf ++ p) (inr taken)
        some (omega arith) rest)

end-Assembled :
    (s0 s : Stream) (inter : Bool) (frame n idx position : ℕ) (buf p : List ℕ)
    → let info = strip_fragment_metadata_trailer p in
      Building s0 s inter frame (suc n) n buf
      → (s0.strict && s0.gop_poisoned) ≡ false
      → s0.done ≡ false
      → length s0.frames < frames_cap
      → 5 ≤ length (buf ++ (strip_fragment_metadata_trailer p).payload)
      → Assembled s0
          (take_end s
            (fragment inter frame (suc n) idx position p)
            (strip_fragment_metadata_trailer p))
          (buf ++ (strip_fragment_metadata_trailer p).payload)
          frame
          (channel_of inter)
          (strip_fragment_metadata_trailer p).online_num
end-Assembled s0 s inter frame n idx position buf p b clean open_stream room long =
    let info = strip_fragment_metadata_trailer p in
    let e = fragment inter frame (suc n) idx position p in
    let asm = asm_eq s inter in
    let gapped : (get_asm s (channel_of inter)).cur_au_gapped ≡ false = rw asm b.gapped in
    let total : (get_asm s (channel_of inter)).cur_au_total
        ≡ suc (get_asm s (channel_of inter)).cur_au_data_count =
      rw (asm, b.total_eq, b.count_eq) refl in
    let bytes : (get_asm s (channel_of inter)).buf ≡ buf = rw asm b.buf_eq in
    let clean' : (s.strict && s.gop_poisoned) ≡ false =
      rw (b.quiet.strict, b.quiet.poisoned) clean in
    let q = closed-Quiet s0 s e info b.quiet in
    let open' : (closed s e info).done ≡ false = q.done ∙ open_stream in
    let room' : length (closed s e info).frames < frames_cap = rw q.frames room in
    let out =
      emit_au-Outcome (closed s e info) (buf ++ info.payload) frame (channel_of inter)
        info.online_num open' room' in
    let sent =
      take_end-clean s e info gapped total clean'
      ∙ ap
          (λ t.
            emit_au (closed s e info) (t ++ info.payload) frame (channel_of inter) info.online_num)
          bytes in
    rw sent (Outcome-Assembled s0 _ _ _ frame (channel_of inter) info.online_num q out clean long)

-- A frame whose data fragments `ps` and end fragment `q` are emitted in order on an idle channel
-- joins the queue as one packet: its bytes are those of the fragments, joined in order, less the
-- trailer, and it has the frame's number and channel and the trailer's count. The client is open
-- and has room, the frame has at least five bytes and at most 65535 fragments, and in strict mode
-- the group of pictures is not poisoned.
pub emit-clean_frame :
    (s : Stream) (inter : Bool) (frame idx position : ℕ) (ps : List (List ℕ)) (q : List ℕ)
    → Idle s inter
    → (s.strict && s.gop_poisoned) ≡ false
    → s.done ≡ false
    → length s.frames < frames_cap
    → length ps < 65535
    → NoTrailers ps
    → (strip_fragment_metadata_trailer q).has_ts ≡ true
    → 5 ≤ length (joined ps ++ (strip_fragment_metadata_trailer q).payload)
    → Assembled s
        (emit
          (emit_data_frags s inter frame (suc (length ps)) 0 position ps)
          (fragment inter frame (suc (length ps)) idx (position + length ps) q))
        (joined ps ++ (strip_fragment_metadata_trailer q).payload)
        frame
        (channel_of inter)
        (strip_fragment_metadata_trailer q).online_num
emit-clean_frame s inter frame idx position ps q idle clean open_stream room small plain ended
      long =
    let n = length ps in
    let quiet : Quiet s s = record { strict = refl; poisoned = refl; frames = refl; done = refl } in
    let some : suc n ≢ 0 = λ e. absurd (omega arith) in
    let b =
      data_frags-Before ps s s inter frame (suc n) 0 position [] (inl (idle, quiet, refl, refl))
        some (omega arith) plain in
    let s' = emit_data_frags s inter frame (suc n) 0 position ps in
    let info = strip_fragment_metadata_trailer q in
    let all : 0 + n ≡ n = omega arith in
    let now =
      current s s' inter frame (suc n) n idx (position + n) (joined ps) q info (rw all at b) some in
    rw (emit-end s' inter frame (suc n) idx (position + n) q ended) (
      end-Assembled s _ inter frame n idx (position + n) (joined ps) q now clean open_stream room
        long)
