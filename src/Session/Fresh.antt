-- ===== src/Session/Fresh.antt =====
-- The client that `Dial` of pkg/petlibro/client.go makes, before anything is sent or received.
use ha_addon_petlibro_local.Prelude.{false, none, []}
use ha_addon_petlibro_local.Stats.{zero_counters}
use ha_addon_petlibro_local.Ack.Receive.{Ack}
use ha_addon_petlibro_local.Assembler.Channel.{ChannelAsm}
use ha_addon_petlibro_local.Assembler.Stream.{Stream}
use ha_addon_petlibro_local.Assembler.Buffer.{Client}
use ha_addon_petlibro_local.Session.Query.{Config}

abbrev pub idle_asm : ChannelAsm
idle_asm = record {
  buf = [];
  cur_frame_num = 0;
  frame_pending = false;
  cur_au_total = 0;
  cur_au_data_count = 0;
  cur_au_gapped = false;
  expect_frag_idx = 0;
  received_data = [];
}

abbrev pub new_ack : Ack
new_ack = record {
  reported = 0;
  watermark = 0;
  high = 0;
  seen_ranges = [];
  seen_pending = 0;
  reliable_recv = 0;
  reliable_recv_set = false;
  reliable_seen = [];
  send_count = 0;
  gap_started = none;
  pending_warn = 0;
}

abbrev pub new_stream : Config → Stream
new_stream config = record {
  strict = config.strict;
  verbose = config.verbose;
  stats = zero_counters;
  key_asm = idle_asm;
  inter_asm = idle_asm;
  gop_poisoned = false;
  pending_frame_ts = 0;
  have_pending_ts = false;
  first_frame_ts = 0;
  have_first_ts = false;
  last_emit_ts = 0;
  emit_seq = 0;
  emit_audio_seq = 0;
  frames = [];
  done = false;
  last_sps = [];
  observed_sps = [];
  frame_info_seen = false;
  frame_info_codec = 0;
  frame_info_flag = 0;
  frame_info_online_num = 0;
}

-- `&Client{…}`, whose other fields are zero.
unfoldable pub new_client : Config → Client
new_client config = record {
  stream = new_stream config;
  ack = new_ack;
  trace = record { verbose = config.verbose; trace_ack = config.trace_ack };
  wrap = record { ext = 0 };
  av_buffer = [];
  av_next_ext = 0;
  av_high_ext = 0;
  av_next_observed = 0;
  stall_ticks = 0;
  last_high_ext = 0;
  sent = [];
}
