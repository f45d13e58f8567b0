-- ===== src/Discovery/Receive.antt =====
-- `receiveDiscoveryResponses` of pkg/petlibro/discovery.go, run over the reads of the socket.
-- `reverse_trans_code` is `tutk.ReverseTransCodePartial`.
pub mod Count
pub mod Balance
use ha_addon_petlibro_local.Prelude.{
  ℕ, Bool, true, false, Option, none, some, List, [], ◌∷◌, if◌then◌else◌, ltb, ◌==◌, length, add64,
}
use ha_addon_petlibro_local.Wire.Bytes.{u16_at}
use ha_addon_petlibro_local.Wire.Frames.{msg_lan_search_r, msg_knock_rr2}
use ha_addon_petlibro_local.Discovery.{
  ResponseReason, accepted, malformed, wrong_uid, nonce_mismatch, unknown,
  classify_discovery_response,
}
use ha_addon_petlibro_local.Discovery.Counters.{ResolveCounters}

-- A read of the socket: an error, with whether the context is done by then, or a packet with the IP
-- address of its source, 0 where there is none, and which case of the last `select` is taken if the
-- packet is accepted: true for the send on `match`.
pub data Reading : Type 0 where
  failed : Bool → Reading
  packet : ℕ → List ℕ → Bool → Reading

-- The reader is waiting for a packet, has seen the end of the context, or has accepted a response,
-- whose source it passed on unless the context ended first.
pub data Reader : Type 0 where
  waiting : ResolveCounters → Reader
  cancelled : ResolveCounters → Reader
  answered : ResolveCounters → Option ℕ → Reader

unfoldable pub count_kind : List ℕ → ResolveCounters → ResolveCounters
count_kind pkt c =
    if ltb (length pkt) 10
    then c
    else if u16_at pkt 8 == msg_lan_search_r
    then record c { lan_search_r_received = add64 c.lan_search_r_received 1 }
    else if u16_at pkt 8 == msg_knock_rr2
    then record c { knock_rr2_received = add64 c.knock_rr2_received 1 }
    else c

unfoldable pub count_reason : ResponseReason → ResolveCounters → ResolveCounters
count_reason accepted c = c
count_reason malformed c = c
count_reason wrong_uid c = record c { wrong_uid_rejected = add64 c.wrong_uid_rejected 1 }
count_reason nonce_mismatch c = record c {
  nonce_mismatch_rejected = add64 c.nonce_mismatch_rejected 1;
}
count_reason unknown c = c

unfoldable pub reject : ResponseReason → ResolveCounters → ResolveCounters
reject reason c = count_reason reason (record c { rejected = add64 c.rejected 1 })

-- What follows the classification of a packet.
unfoldable pub settle : ℕ → Bool → ResponseReason → ResolveCounters → Reader
settle ip taken accepted c = answered c (if taken then some ip else none)
settle ip taken malformed c = waiting (reject malformed c)
settle ip taken wrong_uid c = waiting (reject wrong_uid c)
settle ip taken nonce_mismatch c = waiting (reject nonce_mismatch c)
settle ip taken unknown c = waiting (reject unknown c)

module _ (reverse_trans_code : List ℕ → List ℕ) where
  -- One round of the loop.
  unfoldable pub receive_round : List ℕ → List ℕ → Reading → ResolveCounters → Reader
  receive_round uid nonce (failed done) c = if done then cancelled c else waiting c
  receive_round uid nonce (packet ip wire taken) c =
      let pkt = reverse_trans_code wire in
      if ip == 0
      then waiting (record c { rejected = add64 c.rejected 1 })
      else settle ip taken (classify_discovery_response pkt uid nonce)
          (count_kind pkt (record c { received = add64 c.received 1 }))

  -- The loop goes on while the reader waits, and is left waiting when the reads run out.
  unfoldable pub receive_on : List ℕ → List ℕ → List Reading → Reader → Reader
  unfolding receive_round
  receive_on uid nonce [] r = r
  receive_on uid nonce (read ∷ reads) (waiting c) =
      receive_on uid nonce reads (receive_round uid nonce read c)
  receive_on uid nonce (read ∷ reads) (cancelled c) = cancelled c
  receive_on uid nonce (read ∷ reads) (answered c found) = answered c found

  unfoldable pub receive_discovery_responses :
      List ℕ → List ℕ → List Reading → ResolveCounters → Reader
  receive_discovery_responses uid nonce reads c = receive_on uid nonce reads (waiting c)
