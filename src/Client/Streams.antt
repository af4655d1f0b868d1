-- ===== src/Client/Streams.antt =====
-- AdsClient.cpp and AdsClient.h: `onStreamEstablished`, `endStream`, `shutdown`; and main.cpp.
use xds_client.Base.{
  ℕ, zero, suc, true, false, Option, none, some, List, [], get_elem?, Outcome, ok, fault,
  out_of_fuel, ◌≡◌, inl, inr, Option-cases, Bool-cases, ok-injective, arith, null_stub, null_stream,
  context_reused, stream_finished, ◌>>=◌, if◌then◌else◌,
}
use xds_client.Wire.{DiscoveryResponse, Stream}
use xds_client.Client.State.{AdsClient, new_client, set_channel, clear_nonce}
use xds_client.Client.Requests.{queue_discovery_request, drain_requests}

-- The loop over `subscriptions_`, from position `i`. It sees what is appended while it runs.
unfoldable pub request_subscriptions : ℕ → ℕ → AdsClient → Outcome AdsClient
request_subscriptions zero i c = out_of_fuel
request_subscriptions (suc f) i c = elim (get_elem? c.subscriptions i) [
  | none ↦ ok c
  | some t ↦
      (queue_discovery_request (drain_requests f) t c >>= λ c1. request_subscriptions f (suc i) c1)
]

abbrev pub new_stream : List DiscoveryResponse → Stream
new_stream inbound = record { inbound = inbound; written = []; writes_done = false }

-- `connected` is what the stub's call returns: null, or a stream on which the server will send
-- those messages. The call takes the member `context_`, which is never reset, and gRPC does not allow
-- a context for a second call.
unfoldable pub on_stream_established :
    ℕ → Option (List DiscoveryResponse) → AdsClient → Outcome AdsClient
unfolding request_subscriptions clear_nonce
on_stream_established f connected c =
    if c.has_stub
    then (if c.context_used then fault context_reused else (elim connected [
      | none ↦ ok (record c { context_used = true; stream = none })
      | some inbound ↦
          request_subscriptions f 0
            (record (clear_nonce (record c {
              context_used = true;
              stream = some (new_stream inbound);
              first_stream_request = true;
            })) { request_queue = some [] })
    ]))
    else fault null_stub

-- `endStream`: the status that `Finish` returns is printed and no more. gRPC allows `WritesDone` and
-- `Finish` once on a stream.
unfoldable pub end_stream : AdsClient → Outcome AdsClient
end_stream c = elim c.stream [
  | none ↦ fault null_stream
  | some st ↦
      if st.writes_done
      then fault stream_finished
      else ok (record c { stream = some (record st { writes_done = true }) })
]

unfoldable pub shutdown : AdsClient → Outcome AdsClient
unfolding end_stream
shutdown c = end_stream c >>= λ c1. ok (record c1 { shut_down = true })

-- A shutdown that returns has ended a stream that was not ended yet.
pub shutdown_ended :
    (c d : AdsClient)
    → shutdown c ≡ ok d
    → (st : Stream) × (c.stream ≡ some st)
      × (record c { stream = some (record st { writes_done = true }); shut_down = true } ≡ d)
unfolding shutdown end_stream
shutdown_ended c d h = elim (Option-cases c.stream) [
  | inl e ↦ absurd (ground arith)
  | inr (st, e) ↦ elim (Bool-cases st.writes_done) [
    | inl k ↦ absurd (ground arith)
    | inr k ↦ (st, e, ok-injective (ground arith))
  ]
]

-- `main`, for what the stub's call returns.
unfoldable pub main : ℕ → Option (List DiscoveryResponse) → Outcome AdsClient
unfolding on_stream_established shutdown new_client set_channel
main f connected = on_stream_established f connected (set_channel (new_client false)) >>= shutdown
