-- ===== src/Session/Dial/Outcome.antt =====
-- What `Dial` leaves behind: a session whose datagrams are numbered from 0 on, or an error, a status
-- and a cache that tell of it.
use ha_addon_petlibro_local.Prelude.{ℕ, ◌≡◌, false, Option, none, some, List, ◌++◌}
use ha_addon_petlibro_local.Status.{RunStatus, RuntimeStatusWriter, probing, error}
use ha_addon_petlibro_local.Session.Send.{
  StartError, not_sent, login_timeout, no_av_channel, Attempt, done, failed,
}
use ha_addon_petlibro_local.Session.Send.Numbered.{frames}
use ha_addon_petlibro_local.Session.Query.{Query}
use ha_addon_petlibro_local.Session.Handshake.{Peer, Handshake, is_login_response}
use ha_addon_petlibro_local.Session.Handshake.Outcome.{arrives, hello}
use ha_addon_petlibro_local.Session.Bootstrap.{Startup}
use ha_addon_petlibro_local.Session.Bootstrap.Start.{Begins}
use ha_addon_petlibro_local.Session.Dial.{
  World, bad_query, bad_host, no_socket, no_nonce, no_camera, not_started, Dialed, connected,
  not_connected, DialResult,
}

-- A session that runs: everything that was sent to the camera, and where streaming begins.
pub record Begun (rtc : List ℕ → List ℕ) (w : World) (uid nonce : List ℕ) (s : Startup)
    : Type 0 where
  pub bodies : List (List ℕ)
  pub wire : s.outbox.wire ≡ hello rtc uid nonce w.arrivals.seed ++ frames nonce 2 bodies
  pub begins : (av_max : ℕ) × Begins s.client av_max

-- Why the session did not start.
abbrev pub WhyNot : (List ℕ → List ℕ) → World → StartError → Type 0
WhyNot rtc w not_sent = (n : ℕ) × (w.arrivals.sent n ≡ false)
WhyNot rtc w login_timeout = arrives rtc is_login_response w.arrivals.after_login ≡ false
WhyNot rtc w no_av_channel = ⊥

abbrev Session : (List ℕ → List ℕ) → World → List ℕ → List ℕ → Attempt (Startup × Peer) → Type 0
Session rtc w uid nonce (done (s, peer)) = Begun rtc w uid nonce s
Session rtc w uid nonce (failed e) = WhyNot rtc w e

-- The status that is shown, if one was asked for.
abbrev pub Shows : Option RuntimeStatusWriter → RunStatus → Type 0
Shows none status = Unit {0}
Shows (some writer) status = writer.status ≡ status

-- What a result tells.
abbrev pub Tells : (List ℕ → List ℕ) → World → List ℕ → DialResult → Dialed → Type 0
Tells rtc w uid r (connected s peer) =
    ((nonce : List ℕ) × (w.nonce ≡ some nonce) × Begun rtc w uid nonce s) × Shows r.status probing
Tells rtc w uid r (not_connected (not_started e)) =
    WhyNot rtc w e × Shows r.status error × (r.cell ≡ none)
Tells rtc w uid r (not_connected (bad_query e)) = r.status ≡ none
Tells rtc w uid r (not_connected bad_host) = r.status ≡ none
Tells rtc w uid r (not_connected no_socket) = r.status ≡ none
Tells rtc w uid r (not_connected no_nonce) = r.status ≡ none
Tells rtc w uid r (not_connected (no_camera d)) = r.status ≡ none
