-- ===== src/Discovery/Counters.antt =====
-- `resolveCounters` of pkg/petlibro/discovery.go and their snapshot.
use ha_addon_petlibro_local.Prelude.{ℕ, Bool}
use ha_addon_petlibro_local.Discovery.Plan.{ResolveStats}

pub record ResolveCounters : Type 0 where
  pub lan_search_w3_1_sent : ℕ
  pub lan_search_w3_2_sent : ℕ
  pub knock2_sent : ℕ
  pub lan_search_r_received : ℕ
  pub knock_rr2_received : ℕ
  pub wrong_uid_rejected : ℕ
  pub nonce_mismatch_rejected : ℕ
  pub broadcasts : ℕ
  pub unicasts : ℕ
  pub received : ℕ
  pub rejected : ℕ
  pub send_errors : ℕ

abbrev pub no_counts : ResolveCounters
no_counts = record {
  lan_search_w3_1_sent = 0;
  lan_search_w3_2_sent = 0;
  knock2_sent = 0;
  lan_search_r_received = 0;
  knock_rr2_received = 0;
  wrong_uid_rejected = 0;
  nonce_mismatch_rejected = 0;
  broadcasts = 0;
  unicasts = 0;
  received = 0;
  rejected = 0;
  send_errors = 0;
}

unfoldable pub snapshot : ResolveCounters → Bool → ResolveStats
snapshot c deadline_exceeded = record {
  lan_search_w3_1_sent = c.lan_search_w3_1_sent;
  lan_search_w3_2_sent = c.lan_search_w3_2_sent;
  knock2_sent = c.knock2_sent;
  lan_search_r_received = c.lan_search_r_received;
  knock_rr2_received = c.knock_rr2_received;
  wrong_uid_rejected = c.wrong_uid_rejected;
  nonce_mismatch_rejected = c.nonce_mismatch_rejected;
  broadcasts_sent = c.broadcasts;
  unicasts_sent = c.unicasts;
  packets_received = c.received;
  responses_rejected = c.rejected;
  send_errors = c.send_errors;
  deadline_exceeded = deadline_exceeded;
}
