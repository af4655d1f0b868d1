-- ===== src/Client/Sessions/Written.antt =====
-- AdsClient.h, AdsClient.cpp and Watcher.h: what the operations write on the stream.
use mathlib.Core.Path.{subst}
use mathlib.Core.List.{append-nil}
use xds_client.Base.{
  ℕ, String, ◌&&◌, Option, none, some, List, [], ◌≡◌, refl, sym, ap, ◌∙◌, inl, inr, ok,
  after-returns, ok-injective, Bool-cases, Option-cases,
}
use xds_client.Wire.{DiscoveryRequest, DiscoveryResponse, Stream}
use xds_client.Client.State.{AdsClient, Watcher, set_api}
use xds_client.Client.Requests.{
  queue_discovery_request, accept_response, on_discovery_response, drain_requests,
}
use xds_client.Client.Streams.{shutdown_ended, on_stream_established, shutdown}
use xds_client.Client.Watches.{add_watch}
use xds_client.Client.Watching.{new_watcher_lem, queue-heap}
use xds_client.Client.Loop.{written, stream_written, is_empty}
use xds_client.Client.Loop.Answer.{
  noted, settled, accept_response_lem, on_discovery_response-known, on_discovery_response-unknown,
}
use xds_client.Client.Steps.Established.{
  established-none, opened, opened_stream, on_stream_established-Reach,
}
use xds_client.Client.Sessions.{IsSound}
use xds_client.Client.Sessions.Loops.{room, Reach-Keeps}
use xds_client.Client.Sessions.Idle.{IsSound-Keeps}
use xds_client.Client.Sessions.Added.{added, added_rest, watching_rest, added-IsSound}
use xds_client.Client.Sessions.Wire.{Writes, Reach-Writes, queue-Writes}
use xds_client.Client.Sessions.Calls.{set_api-IsSound, opened-IsSound}

-- Nothing is written.
pub Writes-none :
    (view : ℕ → Option Watcher) (c d : AdsClient)
    → written d ≡ written c
    → Writes view (written c) d
Writes-none view c d e = ([], e ∙ sym (append-nil (written c)), tt)

-- A request of a client in order.
pub request-Writes :
    (f : ℕ) (t : String) (before : List DiscoveryRequest) (c d : AdsClient)
    → queue_discovery_request (drain_requests f) t c ≡ ok d
    → IsSound c
    → written c ≡ before
    → Writes d.heap before d
request-Writes f t before c d run s e =
    subst (λ h. Writes h before d) (sym (queue-heap f t c d run))
      (queue-Writes c.heap c.heap c.next_watcher (room c) before (λ p w k. k) f t c d run
        (IsSound-Keeps c s) ([], e ∙ sym (append-nil before), tt))

pub respond-Writes :
    (f : ℕ) (m : DiscoveryResponse) (c d : AdsClient)
    → on_discovery_response (drain_requests f) m c ≡ ok d
    → IsSound c
    → Writes d.heap (written c) d
respond-Writes f m c d h s = elim (Option-cases (c.api_state m.type_url)) [
  | inl e ↦ Writes-none d.heap c d (
      ap written
        (sym (ok-injective (sym (on_discovery_response-unknown (drain_requests f) m c e) ∙ h))))
  | inr (a, e) ↦
      let run : accept_response (drain_requests f) m a c ≡ ok d =
        sym (on_discovery_response-known (drain_requests f) m a c e) ∙ h in
      let either = accept_response_lem (drain_requests f) m a c in
      elim (Bool-cases (is_empty a.watches && is_empty m.resources)) [
        | inl k ↦
            let same : ok (set_api m.type_url (settled m a) c) ≡ ok d = cc (either, k, run) in
            Writes-none d.heap c d (ap written (sym (ok-injective same)))
        | inr k ↦
            request-Writes f m.type_url (written c) (set_api m.type_url (noted m a) c) d
              (cc (either, k, run))
              (set_api-IsSound m.type_url a (noted m a) c e refl refl refl refl refl s) refl
      ]
]

-- On a new stream nothing is written yet.
pub establish-Writes :
    (f : ℕ) (connected : Option (List DiscoveryResponse)) (c d : AdsClient)
    → on_stream_established f connected c ≡ ok d
    → IsSound c
    → Writes d.heap [] d
establish-Writes f none c d h s = ([], ap written (sym (established-none f c d h)), tt)
establish-Writes f (some messages) c d h s =
    let start : AdsClient = opened messages c in
    let reached = on_stream_established-Reach f messages c d h in
    let keeps = IsSound-Keeps start (opened-IsSound messages c s) in
    subst (λ x. Writes x [] d)
      (sym
        (Reach-Keeps start.heap start.heap start.next_watcher (room start) start d reached
          keeps).memory)
      (Reach-Writes start.heap start.heap start.next_watcher (room start) [] (λ p w k. k) start d
        reached keeps ([], ap stream_written (opened_stream messages c), tt))

pub watch-Writes :
    (f : ℕ) (t : String) (resources : List String) (c d : AdsClient) (p : ℕ)
    → add_watch f t resources c ≡ ok (p, d)
    → IsSound c
    → Writes d.heap (written c) d
unfolding add_watch
watch-Writes f t resources c d p h s =
    let (c2, run, e) =
      after-returns (λ (x : AdsClient). ok (c.next_watcher, x))
        (queue_discovery_request (drain_requests f) t (added t resources c s))
        (rw (new_watcher_lem resources t c) at h) in
    subst (λ (x : AdsClient). Writes x.heap (written c) x)
      (ap (λ (x : ℕ × AdsClient). x.1) (ok-injective e))
      (request-Writes f t (written c) (added t resources c s) c2 run (added-IsSound t resources c s)
        (ap (λ (o : Option Stream). stream_written o)
          (ap (λ (x : AdsClient). x.stream) (added_rest t resources c s)
            ∙ (watching_rest t resources c s).0)))

pub stop-Writes :
    (view : ℕ → Option Watcher) (c d : AdsClient) → shutdown c ≡ ok d → Writes view (written c) d
stop-Writes view c d h =
    let (st, e, same) = shutdown_ended c d h in
    Writes-none view c d (ap written (sym same) ∙ ap stream_written (sym e))
