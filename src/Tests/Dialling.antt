-- ===== src/Tests/Dialling.antt =====
-- `Dial` of pkg/petlibro/client.go on small examples.
use ha_addon_petlibro_local.Prelude.{
  ◌≡◌, ◌*◌, true, none, some, [], ◌∷◌, replicate, codes, leb, if◌then◌else◌,
}
use ha_addon_petlibro_local.Discovery.Counters.{no_counts}
use ha_addon_petlibro_local.Discovery.Search.{nothing}
use ha_addon_petlibro_local.Session.Query.{Query, parse_hd_probe_wait, parse_stream_ctrl_quality}
use ha_addon_petlibro_local.Session.Query.Decimal.{decimal, parse-decimal}
use ha_addon_petlibro_local.Session.Handshake.{none_came}
use ha_addon_petlibro_local.Session.Dial.{World, host_at}

parse-decimal_example :
    (parse_hd_probe_wait (decimal 60001) ≡ (if leb 60001 60000 then some 60001 else none))
    × (parse_stream_ctrl_quality (decimal 60001) (codes "hd")
        ≡ (if leb 60001 255 then some 60001 else none))
parse-decimal_example = parse-decimal 60001 (codes "hd")

-- The camera's address is given, and a login response of zeros is none.
abbrev world : World
world = record {
  host = host_at (record { ip = 5; port = 32761 });
  bound = true;
  nonce = some (replicate 8 7);
  subnets = [];
  interfaces = [];
  deadline = 100;
  search = record {
    ends = 10;
    by_deadline = true;
    poll = λ n. nothing;
    writes = λ n. true;
    now = λ n. n;
    reads = no_counts;
  };
  arrivals = record {
    after_search = [];
    after_knock = none_came ∷ [];
    after_login = none_came ∷ [];
    sent = λ n. true;
    seed = 78;
  };
  clock = λ n. n * 40;
  window = λ n. [];
  at_new = 1;
  at_status = 2;
  at_health = 3;
  at_offline = 4;
}

abbrev query : Query
query = record {
  uid = replicate 20 65;
  quality = codes "sd";
  streamctrl_variant = codes "standard";
  streamctrl_quality = [];
  hd_probe_wait_ms = codes "250";
  audio = codes "true";
  strict = [];
  verbose = [];
  trace_ack = [];
  send_delay_ctrl = codes "1";
  status_file = codes "status.json";
}
