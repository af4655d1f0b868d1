-- ===== src/Client/Sessions/Calls.antt =====
-- AdsClient.h, AdsClient.cpp and Watcher.h: a session of the client as a whole.
use mathlib.Core.Path.{subst}
use xds_client.Base.{
  ℕ, String, Bool, ◌&&◌, Option, none, some, List, [], ◌∷◌, ◌≡◌, refl, sym, ◌∙◌, inl, inr, ok,
  after-returns, ok-injective, Bool-cases, Option-cases,
}
use xds_client.Wire.{DiscoveryResponse}
use xds_client.Client.State.{
  AdsClient, ApiState, Watcher, new_client, set_channel, set_api, clear_nonce,
}
use xds_client.Client.Requests.{accept_response, on_discovery_response, drain_requests}
use xds_client.Client.Streams.{shutdown_ended, on_stream_established, shutdown}
use xds_client.Client.Watches.{add_watch}
use xds_client.Client.Loop.{is_empty}
use xds_client.Client.Loop.Answer.{
  noted, settled, accept_response_lem, on_discovery_response-known, on_discovery_response-unknown,
}
use xds_client.Client.Steps.Established.{established-none, established-loop, opened}
use xds_client.Client.Sessions.{
  state_of, Fits, IsSound, Call, connect, establish, request, respond, watch, update, destroy, stop,
  perform, perform_all,
}
use xds_client.Client.Sessions.Lists.{Fits-put}
use xds_client.Client.Sessions.Loops.{fit_at, Fits-same}
use xds_client.Client.Sessions.Idle.{queue-IsSound, subscriptions-IsSound}
use xds_client.Client.Sessions.Watches.{
  add_watch-IsSound, delete_watcher-IsSound, update_watcher-IsSound,
}

pub new_client-IsSound : (channel : Bool) → IsSound (new_client channel)
unfolding new_client
new_client-IsSound channel = record {
  states = λ t. record {
    once = λ p. refl;
    unpaused = refl;
    silent_node = refl;
    named = λ h. absurd (cc);
    listed = λ h. absurd (cc);
    asked = λ h. absurd (cc);
  };
  unused = λ p h. refl;
  idle = inl refl;
}

set_channel-IsSound : (c : AdsClient) → IsSound c → IsSound (set_channel c)
unfolding set_channel
set_channel-IsSound c s = record { states = s.states; unused = s.unused; idle = s.idle }

-- A state may be replaced by one that differs in nothing that `Fits` reads.
pub set_api-IsSound :
    (t : String) (a b : ApiState) (c : AdsClient)
    → c.api_state t ≡ some a
    → b.watches ≡ a.watches
    → b.pauses ≡ a.pauses
    → b.must_send_node ≡ a.must_send_node
    → b.subscribed ≡ a.subscribed
    → b.request.type_url ≡ a.request.type_url
    → IsSound c
    → IsSound (set_api t b c)
set_api-IsSound t a b c ha w p n u y s = record {
  states =
      Fits-put c.heap c.subscriptions c.api_state t b (λ v _. s.states v)
        (Fits-same c.heap c.subscriptions t a b w p n u y (fit_at c.heap t a c ha s.states));
  unused = s.unused;
  idle = s.idle;
}

respond-IsSound :
    (f : ℕ) (m : DiscoveryResponse) (c d : AdsClient)
    → on_discovery_response (drain_requests f) m c ≡ ok d
    → IsSound c
    → IsSound d
respond-IsSound f m c d h s = elim (Option-cases (c.api_state m.type_url)) [
  | inl e ↦
      subst IsSound
        (ok-injective (sym (on_discovery_response-unknown (drain_requests f) m c e) ∙ h)) s
  | inr (a, e) ↦
      let run : accept_response (drain_requests f) m a c ≡ ok d =
        sym (on_discovery_response-known (drain_requests f) m a c e) ∙ h in
      let either = accept_response_lem (drain_requests f) m a c in
      elim (Bool-cases (is_empty a.watches && is_empty m.resources)) [
        | inl k ↦
            let same : ok (set_api m.type_url (settled m a) c) ≡ ok d = cc (either, k, run) in
            subst IsSound (ok-injective same)
              (set_api-IsSound m.type_url a (settled m a) c e refl refl refl refl refl s)
        | inr k ↦
            queue-IsSound f m.type_url (set_api m.type_url (noted m a) c) d (cc (either, k, run))
              (set_api-IsSound m.type_url a (noted m a) c e refl refl refl refl refl s)
      ]
]

Fits-cleared :
    (heap : ℕ → Option Watcher) (subscriptions : List String) (t : String) (o : Option ApiState)
    → Fits heap subscriptions t (state_of o)
    → Fits heap subscriptions t (
        state_of (elim o [
          | none ↦ none
          | some a ↦ some (record a { request = record a.request { response_nonce = "" } })
        ]))
Fits-cleared heap subs t none h = h
Fits-cleared heap subs t (some a) h =
    Fits-same heap subs t a (record a { request = record a.request { response_nonce = "" } }) refl
      refl refl refl refl h

-- The client at the start of a stream.
pub opened-IsSound :
    (inbound : List DiscoveryResponse) (c : AdsClient) → IsSound c → IsSound (opened inbound c)
unfolding clear_nonce
opened-IsSound inbound c s = record {
  states = λ t. Fits-cleared c.heap c.subscriptions t (c.api_state t) (s.states t);
  unused = s.unused;
  idle = inr refl;
}

on_stream_established-IsSound :
    (f : ℕ) (connected : Option (List DiscoveryResponse)) (c d : AdsClient)
    → on_stream_established f connected c ≡ ok d
    → IsSound c
    → IsSound d
on_stream_established-IsSound f none c d h s =
    subst IsSound (established-none f c d h)
      (record { states = s.states; unused = s.unused; idle = inl refl })
on_stream_established-IsSound f (some inbound) c d h s =
    subscriptions-IsSound f 0 (opened inbound c) d (established-loop f inbound c d h)
      (opened-IsSound inbound c s)

shutdown-IsSound : (c d : AdsClient) → shutdown c ≡ ok d → IsSound c → IsSound d
shutdown-IsSound c d h s =
    let (st, e, same) = shutdown_ended c d h in
    subst IsSound same (record {
      states = s.states;
      unused = s.unused;
      idle = elim s.idle [ inl n ↦ absurd (cc (n, e)) | inr q ↦ inr q ];
    })

pub perform-IsSound :
    (f : ℕ) (call : Call) (c d : AdsClient) → perform f call c ≡ ok d → IsSound c → IsSound d
perform-IsSound f connect c d h s = subst IsSound (ok-injective h) (set_channel-IsSound c s)
perform-IsSound f (establish connected) c d h s = on_stream_established-IsSound f connected c d h s
perform-IsSound f (request t) c d h s = queue-IsSound f t c d h s
perform-IsSound f (respond m) c d h s = respond-IsSound f m c d h s
perform-IsSound f (watch t resources) c d h s =
    let (made, run, e) = after-returns _ (add_watch f t resources c) h in
    subst IsSound (ok-injective e) (add_watch-IsSound f t resources c made.1 made.0 run s)
perform-IsSound f (update p resources) c d h s = update_watcher-IsSound f p resources c d h s
perform-IsSound f (destroy p) c d h s = delete_watcher-IsSound f p c d h s
perform-IsSound f stop c d h s = shutdown-IsSound c d h s

perform_all-IsSound :
    (f : ℕ) (calls : List Call) (c d : AdsClient)
    → perform_all f calls c ≡ ok d
    → IsSound c
    → IsSound d
perform_all-IsSound f [] c d h s = subst IsSound (ok-injective h) s
perform_all-IsSound f (call ∷ calls) c d h s =
    let (e, first, rest) = after-returns _ (perform f call c) h in
    perform_all-IsSound f calls e d rest (perform-IsSound f call c e first s)

-- Whatever operations in `Call` are called on a new client, and in whatever order: when the last of
-- them returns, the list of each type holds each watch of the type that has not been destroyed
-- exactly once, and no other address; no type is paused or has been told to send the node again; a
-- type that has a watch is subscribed to, and a type that is subscribed to has its name in its
-- request and in the list of subscriptions; no address in use will be given to another watch; and
-- there is no stream, or the request queue is empty.
pub session-IsSound :
    (f : ℕ) (channel : Bool) (calls : List Call) (c : AdsClient)
    → perform_all f calls (new_client channel) ≡ ok c
    → IsSound c
session-IsSound f channel calls c h =
    perform_all-IsSound f calls (new_client channel) c h (new_client-IsSound channel)
