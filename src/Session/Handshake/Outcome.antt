-- ===== src/Session/Handshake/Outcome.antt =====
-- How a handshake ends, and what it sends.
use ha_addon_petlibro_local.Prelude.{
  ℕ, ◌+◌, ◌≡◌, ◌⊎◌, Bool, true, false, ◌||◌, List, [], ◌∷◌, ◌++◌, length,
}
use ha_addon_petlibro_local.Wire.Frames.{
  build_lan_search3, build_knock2, build_outer, flags_session,
}
use ha_addon_petlibro_local.Wire.Frames.Login.{build_login_pair}
use ha_addon_petlibro_local.Session.Send.{
  Attempt, done, failed, not_sent, login_timeout, no_av_channel,
}
use ha_addon_petlibro_local.Session.Send.Numbered.{frames}
use ha_addon_petlibro_local.Session.Handshake.{
  Incoming, none_came, came, Arrivals, Handshake, is_login_response,
}

-- Whether a wanted packet is among what arrives.
abbrev pub arrives : (List ℕ → List ℕ) → (List ℕ → Bool) → List Incoming → Bool
arrives decrypt wanted [] = false
arrives decrypt wanted (none_came ∷ more) = arrives decrypt wanted more
arrives decrypt wanted (came ip port raw ∷ more) =
    wanted (decrypt raw) || arrives decrypt wanted more

-- The five datagrams, in their order.
abbrev pub hello : (List ℕ → List ℕ) → List ℕ → List ℕ → ℕ → List (List ℕ)
hello encrypt uid nonce seed =
    let pair = build_login_pair encrypt seed in
    (build_lan_search3 uid nonce 1 ∷ build_lan_search3 uid nonce 2 ∷ build_knock2 uid nonce ∷ [])
    ++ frames nonce 0 (pair.0 ∷ pair.1 ∷ [])

-- What a handshake that is done has done.
pub record Greeted (h h' : Handshake) (said : List (List ℕ)) : Type 0 where
  pub wire : h'.outbox.wire ≡ h.outbox.wire ++ said
  pub kseq : h'.outbox.kseq ≡ h.outbox.kseq
  pub nonce : h'.outbox.nonce ≡ h.outbox.nonce
  pub ip : h'.peer.ip ≡ h.peer.ip

-- Each datagram that must be written, by the number of those before it.
abbrev pub Missed : (ℕ → Bool) → ℕ → Type 0
Missed sent n = (sent n ≡ false) ⊎ ((sent (n + 3) ≡ false) ⊎ (sent (n + 4) ≡ false))

-- How a handshake ends.
abbrev pub Ends :
    (List ℕ → List ℕ) → Arrivals → Handshake → List (List ℕ) → Attempt Handshake → Type 0
Ends decrypt a h said (done h') =
    Greeted h h' said × (arrives decrypt is_login_response a.after_login ≡ true)
Ends decrypt a h said (failed not_sent) = Missed a.sent (length h.outbox.wire)
Ends decrypt a h said (failed login_timeout) =
    arrives decrypt is_login_response a.after_login ≡ false
Ends decrypt a h said (failed no_av_channel) = ⊥

module _ (encrypt decrypt : List ℕ → List ℕ) where
  -- The pair of the login.
  abbrev pair_frames : Arrivals → Handshake → List (List ℕ)
  pair_frames a h =
      let pair = build_login_pair encrypt a.seed in frames h.outbox.nonce 0 (pair.0 ∷ pair.1 ∷ [])

  abbrev LoginEnds : Arrivals → Handshake → Attempt Handshake → Type 0
  LoginEnds a h (done h') =
      Greeted h h' (pair_frames a h) × (arrives decrypt is_login_response a.after_login ≡ true)
  LoginEnds a h (failed not_sent) =
      (a.sent (length h.outbox.wire) ≡ false) ⊎ (a.sent (length h.outbox.wire + 1) ≡ false)
  LoginEnds a h (failed login_timeout) = arrives decrypt is_login_response a.after_login ≡ false
  LoginEnds a h (failed no_av_channel) = ⊥

  abbrev login_frame : Handshake → ℕ → List ℕ → List ℕ
  login_frame h seq body = build_outer h.outbox.nonce seq body 0x00 0x00 flags_session
