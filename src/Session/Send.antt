-- ===== src/Session/Send.antt =====
-- `send` and `sendInner` of pkg/petlibro/client.go, and the outcome of a step that may fail.
pub mod Numbered
use ha_addon_petlibro_local.Prelude.{ℕ, Bool, true, false, List, [], ◌∷◌, ◌++◌, add16, length}
use ha_addon_petlibro_local.Wire.Frames.{build_outer, flags_session}

-- Why a session does not start: a datagram that was not written, no answer to the login, or the
-- check at the end of `bootstrap`.
pub data StartError : Type 0 where
  not_sent login_timeout no_av_channel : StartError

pub data Attempt (A : Type 0) : Type 0 where
  done : A → Attempt A
  failed : StartError → Attempt A

infixl 5 ◌>>=◌
abbrev pub ◌>>=◌ : {A B : Type 0} → Attempt A → (A → Attempt B) → Attempt B
done a >>= f = f a
failed e >>= f = failed e

-- The counters of outgoing messages, and the datagrams handed to `send` so far, before they are
-- encrypted.
pub record Outbox : Type 0 where
  pub nonce : List ℕ
  pub kseq : ℕ
  pub icounter : ℕ
  pub wire : List (List ℕ)

unfoldable pub send : Outbox → List ℕ → Outbox
send o p = record o { wire = o.wire ++ (p ∷ []) }

unfoldable pub send_inner : Outbox → List ℕ → Outbox
unfolding send
send_inner o body =
    let out = build_outer o.nonce o.kseq body 0x00 0x00 flags_session in
    send (record o { kseq = add16 o.kseq 1 }) out

-- `c.icounter++`.
unfoldable pub next_counter : Outbox → Outbox
next_counter o = record o { icounter = add16 o.icounter 1 }
