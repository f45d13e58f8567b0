-- ===== src/Tests/Frames.antt =====
-- The reassembler of pkg/petlibro/assembler.go on small examples.
use ha_addon_petlibro_local.Prelude.{
  ℕ, ◌+◌, ◌≤◌, ◌≡◌, refl, true, false, not, ◌&&◌, ◌||◌, none, List, [], ◌∷◌, ◌++◌, length,
  replicate, ◌==◌, arith,
}
use ha_addon_petlibro_local.Stats.{zero_counters}
use ha_addon_petlibro_local.Media.Trailer.{Stripped, strip_fragment_metadata_trailer, has_signature}
use ha_addon_petlibro_local.Assembler.Channel.{PendingFrag, ChannelAsm}
use ha_addon_petlibro_local.Assembler.Stream.{Stream}
use ha_addon_petlibro_local.Assembler.Output.{emit_au}
use ha_addon_petlibro_local.Assembler.Output.Outcome.{Outcome, emit_au-Outcome}
use ha_addon_petlibro_local.Assembler.Emit.{emit, take_end, get_asm}
use ha_addon_petlibro_local.Assembler.Emit.Clean.{emit_data_frags, emit-clean_frame}
use ha_addon_petlibro_local.Assembler.Emit.Loss.{Withheld, only_end, take_end-Withheld}
use ha_addon_petlibro_local.Assembler.Buffer.{Client, Entry, drain_contiguous, force_drain}
use ha_addon_petlibro_local.Assembler.Buffer.Deliver.{Drains, Placed, drain_contiguous-Drains}
use ha_addon_petlibro_local.Assembler.Buffer.Flush.{Ticked}
use ha_addon_petlibro_local.Assembler.Buffer.Ticks.{force_drain-Ticked}
use ha_addon_petlibro_local.Assembler.Buffer.Stall.{ticks, ticks-empty}
use ha_addon_petlibro_local.Assembler.Datagram.{parse_datagram}
use ha_addon_petlibro_local.Assembler.Datagram.Steady.{Ready, Parsed}
use ha_addon_petlibro_local.Assembler.Datagram.Position.{parse_datagram-Parsed}
use ha_addon_petlibro_local.Assembler.Emit.Finish.{Assembled}
use ha_addon_petlibro_local.Assembler.Emit.Stages.{Idle, fragment}

abbrev empty_asm : ChannelAsm
empty_asm = record {
  buf = [];
  cur_frame_num = 0;
  frame_pending = false;
  cur_au_total = 0;
  cur_au_data_count = 0;
  cur_au_gapped = false;
  expect_frag_idx = 0;
  received_data = [];
}

abbrev fresh : Stream
fresh = record {
  strict = true;
  verbose = false;
  stats = zero_counters;
  key_asm = empty_asm;
  inter_asm = empty_asm;
  gop_poisoned = false;
  pending_frame_ts = 0;
  have_pending_ts = false;
  first_frame_ts = 0;
  have_first_ts = false;
  last_emit_ts = 90;
  emit_seq = 0;
  emit_audio_seq = 0;
  frames = [];
  done = false;
  last_sps = [];
  observed_sps = [];
  frame_info_seen = false;
  frame_info_codec = 0;
  frame_info_flag = 0;
  frame_info_online_num = 0;
}

abbrev slice_unit : List ℕ
slice_unit = 0 ∷ 0 ∷ 0 ∷ 1 ∷ 0x65 ∷ 7 ∷ []

emit_au-Outcome_example : Outcome fresh (emit_au fresh slice_unit 3 5 1) slice_unit 3 5 1
emit_au-Outcome_example = emit_au-Outcome fresh slice_unit 3 5 1 refl (omega arith)

-- The last fragment of a frame, whose trailer says 66000 ms and one client.
abbrev end_payload : List ℕ
end_payload = 7 ∷ 8 ∷ 78 ∷ 0 ∷ 0 ∷ 0 ∷ 1 ∷ 0 ∷ 0 ∷ 0 ∷ 0 ∷ 0 ∷ 0 ∷ 0 ∷ 208 ∷ 1 ∷ 1 ∷ 0 ∷ []

end_payload-stripped :
    strip_fragment_metadata_trailer end_payload
    ≡ record { payload = 7 ∷ 8 ∷ []; ts = 66000; online_num = 1; has_ts = true }
unfolding strip_fragment_metadata_trailer has_signature
end_payload-stripped = refl

abbrev data_payloads : List (List ℕ)
data_payloads = (0 ∷ 0 ∷ 1 ∷ 0x41 ∷ []) ∷ (5 ∷ 6 ∷ []) ∷ []

abbrev end_info : Stripped
end_info = strip_fragment_metadata_trailer end_payload

end_info-has_ts : end_info.has_ts ≡ true
end_info-has_ts = rw end_payload-stripped refl

end_info-payload : end_info.payload ≡ 7 ∷ 8 ∷ []
end_info-payload = rw end_payload-stripped refl

fresh-Idle : Idle fresh true
fresh-Idle = record { pending = refl; buf = refl; other = refl }

no_trailer_0 : (strip_fragment_metadata_trailer (0 ∷ 0 ∷ 1 ∷ 0x41 ∷ [])).has_ts ≡ false
unfolding strip_fragment_metadata_trailer
no_trailer_0 = refl

no_trailer_1 : (strip_fragment_metadata_trailer (5 ∷ 6 ∷ [])).has_ts ≡ false
unfolding strip_fragment_metadata_trailer
no_trailer_1 = refl

long_enough : 5 ≤ length ((0 ∷ 0 ∷ 1 ∷ 0x41 ∷ 5 ∷ 6 ∷ []) ++ end_info.payload)
long_enough = rw end_info-payload (omega arith)

emit-clean_frame_example :
    Assembled fresh
      (emit
        (emit_data_frags fresh true 12 3 0 16384 data_payloads)
        (fragment true 12 3 16 (16384 + 2) end_payload))
      ((0 ∷ 0 ∷ 1 ∷ 0x41 ∷ 5 ∷ 6 ∷ []) ++ end_info.payload)
      12
      7
      end_info.online_num
emit-clean_frame_example =
    emit-clean_frame fresh true 12 16 16384 data_payloads end_payload fresh-Idle refl refl
      (omega arith) (omega arith) (no_trailer_0, (no_trailer_1, tt)) end_info-has_ts long_enough

-- A P-frame of five fragments of which two data fragments arrived.
abbrev lossy_stream : Stream
lossy_stream = record fresh {
  inter_asm = record empty_asm {
    buf = 1 ∷ 2 ∷ 3 ∷ [];
    cur_frame_num = 4;
    frame_pending = true;
    cur_au_total = 5;
    cur_au_data_count = 2;
    expect_frag_idx = 2;
    received_data = 0 ∷ 1 ∷ [];
  };
}

abbrev end_frag : PendingFrag
end_frag = fragment true 4 5 4 16390 end_payload

take_end-Withheld_example :
    Withheld lossy_stream
      (take_end lossy_stream end_frag end_info)
      (true && (not (only_end (get_asm lossy_stream 7)) || 7 == 5))
take_end-Withheld_example = take_end-Withheld lossy_stream end_frag end_info refl refl

-- Position 16384 is missing, and the two after it wait.
abbrev pub waiting : Client
waiting = record {
  stream = fresh;
  ack = record {
    reported = 16383;
    watermark = 16383;
    high = 16386;
    seen_ranges = record { first = 16385; last = 16386 } ∷ [];
    seen_pending = 2;
    reliable_recv = 0;
    reliable_recv_set = false;
    reliable_seen = [];
    send_count = 0;
    gap_started = none;
    pending_warn = 32;
  };
  trace = record { verbose = false; trace_ack = false };
  wrap = record { ext = 16386 };
  av_buffer =
      (16385, fragment true 12 3 1 16385 (5 ∷ 6 ∷ []))
      ∷ (16386, fragment true 12 3 16 16386 end_payload)
      ∷ [];
  av_next_ext = 16384;
  av_high_ext = 16386;
  av_next_observed = 16384;
  stall_ticks = 0;
  last_high_ext = 16386;
  sent = [];
}

waiting-Placed : Placed waiting
waiting-Placed = record { ordered = ground arith; room = omega arith }

pub waiting-Ready : Ready waiting
waiting-Ready = record { placed = waiting-Placed; in_step = (omega arith, omega arith) }

-- The wait is over when the next position has come.
abbrev resumed : Client
resumed = record waiting { av_next_ext = 16385 }

drain_contiguous-Drains_example : (es : List Entry) × Drains resumed es (drain_contiguous resumed)
drain_contiguous-Drains_example = drain_contiguous-Drains resumed

force_drain-Ticked_example : (es : List Entry) × Ticked waiting (force_drain waiting) es
force_drain-Ticked_example = force_drain-Ticked waiting waiting-Placed

ticks-empty_example : (ticks 6 waiting).av_buffer ≡ []
ticks-empty_example = ticks-empty waiting waiting-Placed (omega arith)

-- The datagram of the missing fragment: the outer header, the 36 bytes of the inner one, a payload.
abbrev missing_datagram : List ℕ
missing_datagram =
    (4 ∷ 2 ∷ 0x1d ∷ 0x0a ∷ 52 ∷ 0 ∷ 0 ∷ 0 ∷ 0x08 ∷ 0x04 ∷ replicate 18 0)
    ++ (0x0c ∷ replicate 15 0)
    ++ (7 ∷ 0 ∷ 0 ∷ 64 ∷ 3 ∷ 0 ∷ 0 ∷ 0 ∷ 4 ∷ 0 ∷ 0 ∷ 0 ∷ 12 ∷ 0 ∷ 0 ∷ 0 ∷ 0 ∷ 0 ∷ 0 ∷ 0 ∷ [])
    ++ (0 ∷ 0 ∷ 1 ∷ 0x41 ∷ [])

parse_datagram-Parsed_example : Parsed waiting (parse_datagram waiting 5 true missing_datagram)
parse_datagram-Parsed_example =
    parse_datagram-Parsed waiting 5 true missing_datagram waiting-Ready (omega arith)
