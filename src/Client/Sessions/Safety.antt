-- ===== src/Client/Sessions/Safety.antt =====
-- AdsClient.h, AdsClient.cpp and Watcher.h: what a call in a session ends in.
use xds_client.Base.{
  ℕ, zero, suc, ◌+◌, ◌*◌, ◌≤◌, ◌<◌, String, Bool, true, false, ◌&&◌, Option, none, some, List, [],
  ◌∷◌, ◌≡◌, refl, ap, ◌∙◌, inl, inr, ok, empty_pop, Ends, Ends-bind, Ends-returned, ◌>>=◌, length,
  get_elem?, Option-cases, Bool-cases, arith,
}
use xds_client.Wire.{DiscoveryResponse, Stream}
use xds_client.Client.State.{AdsClient, Watcher, set_api, new_client, clear_nonce}
use xds_client.Client.Requests.{queue_discovery_request, on_discovery_response, drain_requests}
use xds_client.Client.Streams.{on_stream_established, end_stream, shutdown, request_subscriptions}
use xds_client.Client.Watches.{subscribe, add_watch}
use xds_client.Client.Watching.{watching, new_watcher_lem}
use xds_client.Client.Loop.{inbound, stream_inbound, is_empty}
use xds_client.Client.Loop.Answer.{
  noted, accept_response_lem, on_discovery_response-known, on_discovery_response-unknown,
}
use xds_client.Client.Steps.Established.{opened, opened_stream}
use xds_client.Client.Resuming.{request_end, request_more}
use xds_client.Client.Sessions.{
  IsSound, Call, connect, establish, request, respond, watch, update, destroy, stop, perform,
  perform_all,
}
use xds_client.Client.Sessions.Loops.{room}
use xds_client.Client.Sessions.Idle.{IsSound-Keeps, Keeps-IsSound}
use xds_client.Client.Sessions.Added.{added, added_rest, watching_rest, added-IsSound}
use xds_client.Client.Sessions.Requests.{Reenters, Between, request-Ends, sound-Ends}
use xds_client.Client.Sessions.Erasing.{delete_watcher-Ends, update_watcher-Ends}
use xds_client.Client.Sessions.Calls.{
  set_api-IsSound, opened-IsSound, perform-IsSound, session-IsSound,
}

-- The messages that the server may send during the call.
abbrev pub incoming : Call → AdsClient → List DiscoveryResponse
incoming (establish none) c = []
incoming (establish (some messages)) c = messages
incoming _ c = inbound c

-- What the caller must see to: a channel before a stream, no second stream, a watch that is not
-- destroyed, and a stream that is not ended yet.
abbrev pub Allowed : Call → AdsClient → Type 0
Allowed (establish connected) c = (c.has_stub ≡ true) × (c.context_used ≡ false)
Allowed (update p resources) c = (w : Watcher) × (c.heap p ≡ some w)
Allowed (destroy p) c = (w : Watcher) × (c.heap p ≡ some w)
Allowed stop c = (st : Stream) × (c.stream ≡ some st) × (st.writes_done ≡ false)
Allowed _ c = Unit

get_elem?-beyond : (xs : List String) (i : ℕ) → length xs ≤ i → get_elem? xs i ≡ none
get_elem?-beyond [] i h = refl
get_elem?-beyond (x ∷ xs) zero h = absurd (omega arith)
get_elem?-beyond (x ∷ xs) (suc i) h = get_elem?-beyond xs i (omega arith)

-- The loop over the subscriptions ends: at most one is appended while it runs.
subscriptions_end :
    (n f k i : ℕ) (c : AdsClient)
    → IsSound c
    → length (inbound c) ≤ n
    → room c ≤ i + k
    → 4 * n + k + 5 ≤ f
    → Ends (Reenters n) (λ d. Unit) (request_subscriptions f i c)
subscriptions_end n zero k i c s h r fuel = absurd (omega arith)
subscriptions_end n (suc f) zero i c s h r fuel =
    rw (request_end f i c (get_elem?-beyond c.subscriptions i (omega (arith, r)))) tt
subscriptions_end n (suc f) (suc k) i c s h r fuel =
    elim (Option-cases (get_elem? c.subscriptions i)) [
      | inl e ↦ rw (request_end f i c e) tt
      | inr (t, e) ↦ rw (request_more f i t c e) (
          Ends-bind (Reenters n) (Reenters n) (Between c.heap c.heap c.next_watcher (room c) n)
            (λ d. Unit) (queue_discovery_request (drain_requests f) t c)
            (λ d. request_subscriptions f (suc i) d)
            (request-Ends c.heap c.heap c.next_watcher (room c) n f t c (λ p w e. e)
              (omega (arith, fuel))
              (record { keeps = IsSound-Keeps c s; idle = s.idle; coming = h }))
            (λ e b. b)
            (λ d b.
              subscriptions_end n f k (suc i) d (Keeps-IsSound (room c) c d s b.keeps b.idle)
                b.coming (omega (arith, b.keeps.bounded, r)) (omega (arith, fuel))))
    ]

room-opened :
    (messages : List DiscoveryResponse) (c : AdsClient)
    → room (opened messages c) ≡ length c.subscriptions + 1
unfolding clear_nonce
room-opened messages c = refl

established :
    (f : ℕ) (messages : List DiscoveryResponse) (c : AdsClient)
    → c.has_stub ≡ true
    → c.context_used ≡ false
    → on_stream_established f (some messages) c ≡ request_subscriptions f 0 (opened messages c)
unfolding on_stream_established
established f messages c e k = ground arith

-- What `addWatch` does after the watch is made.
add_watch-eq :
    (f : ℕ) (t : String) (resources : List String) (c : AdsClient)
    → add_watch f t resources c ≡ (
        queue_discovery_request (drain_requests f) t (subscribe t (watching resources t c)) >>= λ d.
        ok (c.next_watcher, d))
unfolding add_watch
add_watch-eq f t resources c = rw (new_watcher_lem resources t c) refl

module _ (f : ℕ) (c : AdsClient) (s : IsSound c) where
  establish-Ends :
      (connected : Option (List DiscoveryResponse))
      → c.has_stub ≡ true
      → c.context_used ≡ false
      → 4 * length (incoming (establish connected) c) + length c.subscriptions + 6 ≤ f
      → Ends
          (Reenters (length (incoming (establish connected) c)))
          (λ d. Unit)
          (on_stream_established f connected c)
  unfolding on_stream_established
  establish-Ends none e k fuel = rw (e, k) tt
  establish-Ends (some messages) e k fuel = rw (established f messages c e k) (
      subscriptions_end (length messages) f (length c.subscriptions + 1) 0 (opened messages c)
        (opened-IsSound messages c s)
        (omega (arith, ap (λ o. length (stream_inbound o)) (opened_stream messages c)))
        (omega (arith, room-opened messages c)) (omega (arith, fuel)))

  module _ (fuel : 4 * length (inbound c) + 4 ≤ f) where
    respond-Ends :
        (m : DiscoveryResponse)
        → Ends
            (Reenters (length (inbound c)))
            (λ d. Unit)
            (on_discovery_response (drain_requests f) m c)
    respond-Ends m = elim (Option-cases (c.api_state m.type_url)) [
      | inl e ↦ rw (on_discovery_response-unknown (drain_requests f) m c e) tt
      | inr (a, e) ↦
          rw
            (
              on_discovery_response-known (drain_requests f) m a c e,
              accept_response_lem (drain_requests f) m a c,
            )
            (elim (Bool-cases (is_empty a.watches && is_empty m.resources)) [
              | inl k ↦ rw k tt
              | inr k ↦ rw k (
                  sound-Ends (length (inbound c)) f m.type_url (set_api m.type_url (noted m a) c)
                    (set_api-IsSound m.type_url a (noted m a) c e refl refl refl refl refl s)
                    (omega arith) fuel)
            ])
    ]

    watch-Ends :
        (t : String) (resources : List String)
        → Ends
            (Reenters (length (inbound c)))
            (λ d. Unit)
            (add_watch f t resources c >>= λ made. ok made.1)
    watch-Ends t resources =
        let n = length (inbound c) in
        Ends-bind (Reenters n) (Reenters n) (λ d. Unit) (λ d. Unit) (add_watch f t resources c)
          (λ made. ok made.1)
          (rw (add_watch-eq f t resources c) (
            Ends-bind (Reenters n) (Reenters n) (λ d. Unit) (λ d. Unit)
              (queue_discovery_request (drain_requests f) t (added t resources c s))
              (λ d. ok (c.next_watcher, d))
              (sound-Ends n f t (added t resources c s) (added-IsSound t resources c s)
                (omega (arith, added_inbound)) fuel)
              (λ e k. k) (λ e k. tt)))
          (λ e k. k) (λ e k. tt)
      where
        added_inbound : length (inbound (added t resources c s)) ≡ length (inbound c)
        added_inbound =
            ap (λ (o : Option Stream). length (stream_inbound o))
              (ap (λ (x : AdsClient). x.stream) (added_rest t resources c s)
                ∙ (watching_rest t resources c s).0)

stop-Ends :
    (n : ℕ) (st : Stream) (c : AdsClient)
    → c.stream ≡ some st
    → st.writes_done ≡ false
    → Ends (Reenters n) (λ d. Unit) (shutdown c)
unfolding shutdown end_stream
stop-Ends n st c e k = rw (e, k) tt

call-Ends :
    (f : ℕ) (call : Call) (c : AdsClient)
    → IsSound c
    → Allowed call c
    → 4 * length (incoming call c) + length c.subscriptions + 6 ≤ f
    → Ends (Reenters (length (incoming call c))) (λ d. Unit) (perform f call c)
call-Ends f connect c s h fuel = tt
call-Ends f (establish connected) c s h fuel = establish-Ends f c s connected h.0 h.1 fuel
call-Ends f (request t) c s h fuel =
    sound-Ends (length (inbound c)) f t c s (omega arith) (omega (arith, fuel))
call-Ends f (respond m) c s h fuel = respond-Ends f c s (omega (arith, fuel)) m
call-Ends f (watch t resources) c s h fuel = watch-Ends f c s (omega (arith, fuel)) t resources
call-Ends f (update p resources) c s h fuel =
    update_watcher-Ends f p h.0 c s h.1 (omega (arith, fuel)) resources
call-Ends f (destroy p) c s h fuel = delete_watcher-Ends f p h.0 c s h.1 (omega (arith, fuel))
call-Ends f stop c s h fuel = stop-Ends (length (inbound c)) h.0 c h.1 h.2

-- After any calls of operations in `Call` on a new client that have returned, a further call that
-- is allowed (a stream is only made when a channel is set and none was asked for before, a watch is
-- only updated or destroyed while it exists, and the client is only shut down while it has a stream
-- that is not ended), given fuel of at least
-- four times the number of messages that the server may send during the call, plus the number of
-- subscriptions, plus six, either returns, with the client in order again, or pops the empty queue,
-- and that only if there is such a message. It never reads a null or a dangling pointer, and never
-- makes a call that gRPC does not allow a second time.
pub session-Ends :
    (f g : ℕ) (channel : Bool) (calls : List Call) (call : Call) (c : AdsClient)
    → perform_all g calls (new_client channel) ≡ ok c
    → Allowed call c
    → 4 * length (incoming call c) + length c.subscriptions + 6 ≤ f
    → Ends (λ e. (e ≡ empty_pop) × (0 < length (incoming call c))) IsSound (perform f call c)
session-Ends f g channel calls call c run allowed fuel =
    let s = session-IsSound g channel calls c run in
    Ends-returned (Reenters (length (incoming call c))) (λ d. Unit) IsSound (perform f call c)
      (call-Ends f call c s allowed fuel) (λ d ran _. perform-IsSound f call c d ran s)
