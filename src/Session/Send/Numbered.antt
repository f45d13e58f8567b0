-- ===== src/Session/Send/Numbered.antt =====
-- Outer sequence numbers, and how the steps of a session's start are put together.
use mathlib.Core.List.{append-nil, append_assoc}
use ha_addon_petlibro_local.Prelude.{
  ℕ, zero, suc, ◌+◌, ◌≡◌, refl, sym, ap, ◌∙◌, Bool, false, List, [], ◌∷◌, ◌++◌, length,
  length-append, add16, arith,
}
use ha_addon_petlibro_local.Wire.Frames.{build_outer, flags_session}
use ha_addon_petlibro_local.Session.Send.{
  not_sent, login_timeout, no_av_channel, Attempt, done, failed, ◌>>=◌, Outbox, send, send_inner,
  next_counter,
}

-- The session datagrams that carry the bodies, numbered from `k` on.
abbrev pub frames : List ℕ → ℕ → List (List ℕ) → List (List ℕ)
frames nonce k [] = []
frames nonce k (body ∷ bodies) =
    build_outer nonce k body 0 0 flags_session ∷ frames nonce (add16 k 1) bodies

abbrev pub advance16 : ℕ → ℕ → ℕ
advance16 zero k = k
advance16 (suc n) k = advance16 n (add16 k 1)

-- From `o` to `o'`, `n` bodies were sent in datagrams that are numbered without a gap.
pub record Sends (o o' : Outbox) (n : ℕ) : Type 0 where
  pub bodies : List (List ℕ)
  pub count : length bodies ≡ n
  pub wire : o'.wire ≡ o.wire ++ frames o.nonce o.kseq bodies
  pub kseq : o'.kseq ≡ advance16 n o.kseq
  pub nonce : o'.nonce ≡ o.nonce

pub Sends-none : (o : Outbox) → Sends o o 0
Sends-none o = record {
  bodies = [];
  count = refl;
  wire = sym (append-nil o.wire);
  kseq = refl;
  nonce = refl;
}

pub send_inner-Sends : (o : Outbox) (body : List ℕ) → Sends o (send_inner o body) 1
unfolding send_inner send
send_inner-Sends o body = record {
  bodies = body ∷ [];
  count = refl;
  wire = refl;
  kseq = refl;
  nonce = refl;
}

pub next_counter-Sends : {o o' : Outbox} {n : ℕ} → Sends o o' n → Sends o (next_counter o') n
unfolding next_counter
next_counter-Sends s = record {
  bodies = s.bodies;
  count = s.count;
  wire = s.wire;
  kseq = s.kseq;
  nonce = s.nonce;
}

frames-append :
    (nonce : List ℕ) (k : ℕ) (bs cs : List (List ℕ))
    → frames nonce k (bs ++ cs) ≡ frames nonce k bs ++ frames nonce (advance16 (length bs) k) cs
frames-append nonce k [] cs = refl
frames-append nonce k (b ∷ bs) cs = rw (frames-append nonce (add16 k 1) bs cs)

advance16-add : (m n k : ℕ) → advance16 (m + n) k ≡ advance16 n (advance16 m k)
advance16-add zero n k = let e : 0 + n ≡ n = omega arith in rw e refl
advance16-add (suc m) n k =
    let e : suc m + n ≡ suc (m + n) = omega arith in rw e (advance16-add m n (add16 k 1))

pub Sends-trans : {o p q : Outbox} (m n : ℕ) → Sends o p m → Sends p q n → Sends o q (m + n)
Sends-trans {o = o} m n s t = record {
  bodies = s.bodies ++ t.bodies;
  count = omega (arith, length-append s.bodies t.bodies, s.count, t.count);
  wire =
      t.wire
      ∙ rw (s.wire, s.nonce, s.kseq, ← s.count)
          (append_assoc o.wire (frames o.nonce o.kseq s.bodies) _
            ∙ ap (λ w. o.wire ++ w) (sym (frames-append o.nonce o.kseq s.bodies t.bodies)));
  kseq = t.kseq ∙ ap (advance16 n) s.kseq ∙ sym (advance16-add m n o.kseq);
  nonce = t.nonce ∙ s.nonce;
}

-- What holds of an attempt: `P` if it is done, and otherwise some datagram was not written. `sent n`
-- tells whether the n-th one was.
abbrev pub Post : (ℕ → Bool) → {A : Type 0} → (A → Type 0) → Attempt A → Type 0
Post sent P (done a) = P a
Post sent P (failed not_sent) = (n : ℕ) × (sent n ≡ false)
Post sent P (failed login_timeout) = ⊥
Post sent P (failed no_av_channel) = ⊥

pub Post-bind :
    {A B : Type 0} (sent : ℕ → Bool) (P : A → Type 0) (Q : B → Type 0) (m : Attempt A)
    (f : A → Attempt B)
    → Post sent P m
    → ((a : A) → P a → Post sent Q (f a))
    → Post sent Q (m >>= f)
Post-bind sent P Q (done a) f h k = k a h
Post-bind sent P Q (failed not_sent) f h k = h
Post-bind sent P Q (failed login_timeout) f h k = absurd h
Post-bind sent P Q (failed no_av_channel) f h k = absurd h
