-- ===== src/Session/Dial.antt =====
-- `Dial` of pkg/petlibro/client.go, from the parsed URL to the session that runs. The files of packet
-- dumps, the size of the socket's buffer and debug lines are left out.
pub mod Outcome
use ha_addon_petlibro_local.Prelude.{
  ℕ, Bool, true, false, Option, none, some, List, [], ◌∷◌, if◌then◌else◌,
}
use ha_addon_petlibro_local.Stats.{zero_counters}
use ha_addon_petlibro_local.Status.{
  RuntimeStatusWriter, probing, error, new_runtime_status_writer, set_status,
}
use ha_addon_petlibro_local.Ack.Receive.{Ack}
use ha_addon_petlibro_local.Assembler.Channel.{ChannelAsm}
use ha_addon_petlibro_local.Assembler.Stream.{Stream}
use ha_addon_petlibro_local.Assembler.Buffer.{Client}
use ha_addon_petlibro_local.Discovery.Plan.{Interface}
use ha_addon_petlibro_local.Discovery.Search as Search
use ha_addon_petlibro_local.Discovery.Resolve.{
  Discovered, refused, missing, address, discover_by_uid,
}
use ha_addon_petlibro_local.Session.Send.{StartError, Attempt, done, failed, ◌>>=◌}
use ha_addon_petlibro_local.Session.Query.{
  Query, QueryError, Config, Checked, checked, rejected, check_query,
}
use ha_addon_petlibro_local.Session.Handshake.{Peer, Arrivals, Handshake, handshake}
use ha_addon_petlibro_local.Session.Bootstrap.{Env, Startup, bootstrap}
use ha_addon_petlibro_local.Session.Loop.{publish_offline}
use ha_addon_petlibro_local.Session.Fresh.{idle_asm, new_ack, new_stream, new_client}

abbrev pub lan_port : ℕ
lan_port = 32761

abbrev pub default_discovery_timeout : ℕ
default_discovery_timeout = 15000000000

-- The host of the URL, and the address that `ResolveUDPAddr` gives for it.
pub data Host : Type 0 where
  no_host unresolved : Host
  host_at : Peer → Host

-- What `Dial` meets: the socket and the nonce, the network of the search, what the camera sends, and
-- the clock.
pub record World : Type 0 where
  pub host : Host
  pub bound : Bool
  pub nonce : Option (List ℕ)
  pub subnets : List (Option (ℕ × ℕ))
  pub interfaces : List Interface
  pub deadline : ℕ
  pub search : Search.Env
  pub arrivals : Arrivals
  pub clock : ℕ → ℕ
  pub window : ℕ → List (List ℕ)
  pub at_new : ℕ
  pub at_status : ℕ
  pub at_health : ℕ
  pub at_offline : ℕ

abbrev pub env_of : World → Env
env_of w = record { clock = w.clock; sent = w.arrivals.sent; window = w.window }

pub data DialError : Type 0 where
  bad_query : QueryError → DialError
  bad_host no_socket no_nonce : DialError
  no_camera : Discovered → DialError
  not_started : StartError → DialError

pub data Dialed : Type 0 where
  connected : Startup → Peer → Dialed
  not_connected : DialError → Dialed

-- What `Dial` returns, the runtime status, and the cell of the discovery cache for the UID.
pub record DialResult : Type 0 where
  pub dialed : Dialed
  pub status : Option RuntimeStatusWriter
  pub cell : Option ℕ

-- The outer numbers 0 and 1 are those of the login pair.
unfoldable pub greeting : List ℕ → Peer → Handshake
greeting nonce peer = record {
  outbox = record { nonce = nonce; kseq = 2; icounter = 0; wire = [] };
  peer = peer;
}

module _ (reverse_trans_code : List ℕ → List ℕ) where
  -- `reverse_trans_code` encrypts the login as well.
  unfoldable pub start_session : World → Config → List ℕ → List ℕ → Peer → Attempt (Startup × Peer)
  unfolding greeting new_client
  start_session w config uid nonce peer = do
    h ← handshake reverse_trans_code reverse_trans_code w.arrivals uid (greeting nonce peer)
    s ←
        bootstrap reverse_trans_code (env_of w) config.options
          (record { client = new_client config; outbox = h.outbox })
    done (s, h.peer)

unfoldable pub new_status : World → Config → Option RuntimeStatusWriter
new_status w config =
    if config.has_status
    then some (new_runtime_status_writer config.hd config.hd_probe_wait_ms w.at_new)
    else none

unfoldable pub with_status :
    Option RuntimeStatusWriter
    → (RuntimeStatusWriter → RuntimeStatusWriter)
    → Option RuntimeStatusWriter
with_status none change = none
with_status (some writer) change = some (change writer)

-- After a failed start the client is closed; the counters that the health shows are still zero.
unfoldable pub conclude :
    World → Option RuntimeStatusWriter → Option ℕ → Attempt (Startup × Peer) → DialResult
unfolding with_status
conclude w status cell (done (s, peer)) = record {
  dialed = connected s peer;
  status = with_status status (λ writer. set_status writer probing w.at_status);
  cell = cell;
}
conclude w status cell (failed e) = record {
  dialed = not_connected (not_started e);
  status =
      publish_offline (with_status status (λ writer. set_status writer error w.at_status))
        zero_counters w.at_health w.at_offline;
  cell = none;
}

unfoldable pub refuse : DialError → Option ℕ → DialResult
refuse e cell = record { dialed = not_connected e; status = none; cell = cell }

-- The camera's address, from the URL or from a search.
pub data Located : Type 0 where
  located : Peer → Located
  not_resolved : Located
  not_found : Discovered → Located

unfoldable pub discovered_peer : Discovered × Option ℕ → Located × Option ℕ
discovered_peer (refused e, cell) = (not_found (refused e), cell)
discovered_peer (missing r, cell) = (not_found (missing r), cell)
discovered_peer (address ip, cell) = (located (record { ip = ip; port = lan_port }), cell)

unfoldable pub locate : World → List ℕ → Option ℕ → Host → Located × Option ℕ
unfolding discovered_peer
locate w uid cell no_host =
    discovered_peer (
      discover_by_uid w.search uid w.subnets default_discovery_timeout w.interfaces w.deadline cell)
locate w uid cell unresolved = (not_resolved, cell)
locate w uid cell (host_at peer) = (located peer, cell)

unfoldable pub is_unresolved : Host → Bool
is_unresolved unresolved = true
is_unresolved no_host = false
is_unresolved (host_at peer) = false

module _ (reverse_trans_code : List ℕ → List ℕ) where
  unfoldable pub dial_located : World → Config → List ℕ → List ℕ → Located × Option ℕ → DialResult
  unfolding start_session conclude refuse new_status
  dial_located w config uid nonce (not_resolved, cell) = refuse bad_host cell
  dial_located w config uid nonce (not_found d, cell) = refuse (no_camera d) cell
  dial_located w config uid nonce (located peer, cell) =
      conclude w (new_status w config) cell
        (start_session reverse_trans_code w config uid nonce peer)

  unfoldable pub dial_with_nonce : World → Config → List ℕ → Option ℕ → Option (List ℕ) → DialResult
  unfolding dial_located locate
  dial_with_nonce w config uid cell none = refuse no_nonce cell
  dial_with_nonce w config uid cell (some nonce) =
      dial_located w config uid nonce (locate w uid cell w.host)

  unfoldable pub dial_checked : World → List ℕ → Option ℕ → Checked → DialResult
  unfolding dial_with_nonce is_unresolved
  dial_checked w uid cell (rejected e) = refuse (bad_query e) cell
  dial_checked w uid cell (checked config) =
      if is_unresolved w.host
      then refuse bad_host cell
      else if w.bound
      then dial_with_nonce w config uid cell w.nonce
      else refuse no_socket cell

  unfoldable pub dial : World → Query → Option ℕ → DialResult
  unfolding dial_checked check_query
  dial w q cell = dial_checked w q.uid cell (check_query q)
