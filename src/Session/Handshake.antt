-- ===== src/Session/Handshake.antt =====
-- `handshake` and `recvOne` of pkg/petlibro: LAN_SEARCH3 twice, KNOCK2, the login pair, and the wait
-- for its response. What arrives before each deadline is an argument; encryption and decryption of
-- pkg/tutk are parameters.
pub mod Outcome
use ha_addon_petlibro_local.Prelude.{
  ℕ, Bool, true, false, not, ◌&&◌, ◌||◌, List, [], ◌∷◌, if◌then◌else◌, ltb, ◌==◌, length, drop,
}
use ha_addon_petlibro_local.Wire.Bytes.{at, u16_at}
use ha_addon_petlibro_local.Wire.Frames.{
  build_lan_search3, build_knock2, build_outer, flags_session, msg_lan_search_r, msg_knock_rr2,
  msg_session_d2c,
}
use ha_addon_petlibro_local.Wire.Frames.Login.{build_login_pair}
use ha_addon_petlibro_local.Session.Send.{
  not_sent, login_timeout, Attempt, done, failed, ◌>>=◌, Outbox, send,
}

-- `c.cam`.
pub record Peer : Type 0 where
  pub ip : ℕ
  pub port : ℕ

-- What one `recvOne` meets: an error, such as its time limit, or a datagram from an address.
pub data Incoming : Type 0 where
  none_came : Incoming
  came : ℕ → ℕ → List ℕ → Incoming

-- What arrives while each of the three waits lasts; `sent n` tells whether the n-th datagram of the
-- session was written, and `seed` is the login's random number.
pub record Arrivals : Type 0 where
  pub after_search : List Incoming
  pub after_knock : List Incoming
  pub after_login : List Incoming
  pub sent : ℕ → Bool
  pub seed : ℕ

pub record Handshake : Type 0 where
  pub outbox : Outbox
  pub peer : Peer

-- A camera that answers from another port is spoken to on that port.
unfoldable pub follow_port : Peer → ℕ → ℕ → Peer
follow_port p ip port = if not (p.port == port) && ip == p.ip then record p { port = port } else p

unfoldable pub is_kind : ℕ → List ℕ → Bool
is_kind kind pkt = not (ltb (length pkt) 12) && u16_at pkt 8 == kind

unfoldable pub is_login_response : List ℕ → Bool
is_login_response pkt =
    let inner = drop 0x1c pkt in
    not (ltb (length pkt) 0x36)
    && u16_at pkt 8 == msg_session_d2c
    && at inner 1 == 0x21
    && at inner 0x18 == 0

-- `if err := c.send(p); err != nil { return err }`
unfoldable pub must_send : (ℕ → Bool) → Handshake → List ℕ → Attempt Handshake
must_send sent h p =
    if sent (length h.outbox.wire)
    then done (record h { outbox = send h.outbox p })
    else failed not_sent

-- `_ = c.send(p)`
abbrev pub try_send : Handshake → List ℕ → Handshake
try_send h p = record h { outbox = send h.outbox p }

module _ (decrypt : List ℕ → List ℕ) where
  -- A wait: `true` at the first packet that is wanted.
  unfoldable pub wait_for : (List ℕ → Bool) → Peer → List Incoming → Peer × Bool
  unfolding follow_port
  wait_for wanted p [] = (p, false)
  wait_for wanted p (none_came ∷ more) = wait_for wanted p more
  wait_for wanted p (came ip port raw ∷ more) =
      let p' = follow_port p ip port in
      let rest = wait_for wanted p' more in if wanted (decrypt raw) then (p', true) else rest

abbrev pub wait_in : Handshake → Peer × Bool → Handshake
wait_in h r = record h { peer = r.0 }

-- The end of the handshake: the response came, or the time is over.
unfoldable pub await_login : Handshake → Peer × Bool → Attempt Handshake
await_login h (p, true) = done (record h { peer = p })
await_login h (p, false) = failed login_timeout

module _ (encrypt decrypt : List ℕ → List ℕ) where
  -- The discovery exchange, as far as the login: only the first datagram has to be written.
  unfoldable pub knock : Arrivals → List ℕ → Handshake → Handshake
  knock a uid h =
      let h₁ = wait_in h (wait_for decrypt (is_kind msg_lan_search_r) h.peer a.after_search) in
      let h₂ =
        try_send (try_send h₁ (build_lan_search3 uid h.outbox.nonce 2))
          (build_knock2 uid h.outbox.nonce) in
      wait_in h₂ (wait_for decrypt (is_kind msg_knock_rr2) h₂.peer a.after_knock)

  unfoldable pub log_in : Arrivals → Handshake → Attempt Handshake
  unfolding must_send await_login
  log_in a h = do
    let pair = build_login_pair encrypt a.seed
    h₁ ← must_send a.sent h (build_outer h.outbox.nonce 0 pair.0 0x00 0x00 flags_session)
    h₂ ← must_send a.sent h₁ (build_outer h.outbox.nonce 1 pair.1 0x00 0x00 flags_session)
    await_login h₂ (wait_for decrypt is_login_response h₂.peer a.after_login)

  unfoldable pub handshake : Arrivals → List ℕ → Handshake → Attempt Handshake
  unfolding must_send knock log_in
  handshake a uid h = do
    h₁ ← must_send a.sent h (build_lan_search3 uid h.outbox.nonce 1)
    log_in a (knock a uid h₁)
