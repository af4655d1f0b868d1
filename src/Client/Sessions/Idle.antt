-- ===== src/Client/Sessions/Idle.antt =====
-- AdsClient.cpp: the queue of requests after `queueDiscoveryRequest` and after the loop over the
-- subscriptions.
use mathlib.Core.Path.{subst}
use xds_client.Base.{
  ℕ, zero, suc, String, true, Option, none, some, [], ◌∷◌, ◌≡◌, ◌⊎◌, refl, sym, ap, ◌∙◌, inl, inr,
  ok, after-returns, ok-injective, arith, Bool-cases, Option-cases, get_elem?,
}
use xds_client.Client.State.{AdsClient, Watcher, api_state_for, set_api, paused}
use xds_client.Client.Requests.{
  push_request, pop_request, send_discovery_request, queue_discovery_request, drain_requests,
  read_responses,
}
use xds_client.Client.Streams.{request_subscriptions}
use xds_client.Client.Loop.Drain.{drain_idle, drain_busy}
use xds_client.Client.Loop.Entry.{api_state_for-rest}
use xds_client.Client.Steps.Runs.{queue-unconnected, queue-connected}
use xds_client.Client.Steps.Drains.{drain_unqueued, drain-zero, queue_discovery_request-Reach}
use xds_client.Client.Sessions.{IsSound}
use xds_client.Client.Sessions.Loops.{Keeps, room, Reach-Keeps}

abbrev pub IsIdle : AdsClient → Type 0
IsIdle c = (c.stream ≡ none) ⊎ (c.request_queue ≡ some [])

pub drain-empties :
    (f : ℕ) (c d : AdsClient) → drain_requests f c ≡ ok d → d.request_queue ≡ some []
drain-empties zero c d h = absurd (cc (drain-zero c, h))
drain-empties (suc f) c d h = elim (Option-cases c.request_queue) [
  | inl e ↦ absurd (cc (drain_unqueued f c e, h))
  | inr ([], e) ↦
      ap (λ (x : AdsClient). x.request_queue) (sym (ok-injective (sym (drain_idle f c e) ∙ h))) ∙ e
  | inr (t ∷ q, e) ↦
      let (c1, sending, after1) =
        after-returns _ (send_discovery_request (read_responses f) t c)
          (sym (drain_busy f t q c e) ∙ h) in
      let (c2, popped, rest) = after-returns _ (pop_request c1) after1 in drain-empties f c2 d rest
]

pub queue-IsIdle :
    (f : ℕ) (t : String) (c d : AdsClient)
    → queue_discovery_request (drain_requests f) t c ≡ ok d
    → IsIdle c
    → IsIdle d
queue-IsIdle f t c d h idle = elim (Option-cases c.stream) [
  | inl e ↦ subst IsIdle (ok-injective (sym (queue-unconnected (drain_requests f) t c e) ∙ h)) idle
  | inr (st, e) ↦ elim (Bool-cases (paused (api_state_for t c).0)) [
    | inl p ↦ elim idle [
      | inl n ↦ absurd (cc (n, e))
      | inr q ↦
          let noted : AdsClient =
            set_api t (record (api_state_for t c).0 { pending = true }) (api_state_for t c).1 in
          let same : ok noted ≡ ok d = cc (queue-connected (drain_requests f) t st c e, p, h) in
          inr (
            subst (λ (x : AdsClient). x.request_queue ≡ some []) (ok-injective same)
              (ap (λ (x : AdsClient). x.request_queue) (api_state_for-rest t c) ∙ q))
    ]
    | inr p ↦
        let (c1, pushed, rest) =
          after-returns (drain_requests f) (push_request t (api_state_for t c).1)
            (cc (queue-connected (drain_requests f) t st c e, p, h)) in
        inr (drain-empties f c1 d rest)
  ]
]

pub Keeps-IsSound :
    (bound : ℕ) (c d : AdsClient)
    → IsSound c
    → Keeps c.heap c.heap c.next_watcher bound d
    → IsIdle d
    → IsSound d
Keeps-IsSound bound c d s k idle = record {
  states = λ t. rw k.memory (k.fit t);
  unused = λ p h. rw k.memory (s.unused p (rw k.address at h));
  idle = idle;
}

pub IsSound-Keeps : (c : AdsClient) → IsSound c → Keeps c.heap c.heap c.next_watcher (room c) c
IsSound-Keeps c s = record { fit = s.states; memory = refl; address = refl; bounded = omega arith }

-- A request keeps the states in order, for whatever memory they are.
pub queue-Keeps :
    (view heap : ℕ → Option Watcher) (next bound : ℕ) (f : ℕ) (t : String) (c d : AdsClient)
    → queue_discovery_request (drain_requests f) t c ≡ ok d
    → Keeps view heap next bound c
    → Keeps view heap next bound d
queue-Keeps view heap next bound f t c d h =
    Reach-Keeps view heap next bound c d (queue_discovery_request-Reach f t c d h)

pub queue-IsSound :
    (f : ℕ) (t : String) (c d : AdsClient)
    → queue_discovery_request (drain_requests f) t c ≡ ok d
    → IsSound c
    → IsSound d
queue-IsSound f t c d h s =
    let kept = queue-Keeps c.heap c.heap c.next_watcher (room c) f t c d h (IsSound-Keeps c s) in
    Keeps-IsSound (room c) c d s kept (queue-IsIdle f t c d h s.idle)

pub subscriptions-IsSound :
    (f i : ℕ) (c d : AdsClient) → request_subscriptions f i c ≡ ok d → IsSound c → IsSound d
unfolding request_subscriptions
subscriptions-IsSound zero i c d h s = absurd (cc)
subscriptions-IsSound (suc f) i c d h s = elim (Option-cases (get_elem? c.subscriptions i)) [
  | inl e ↦ subst IsSound (ok-injective (ground arith)) s
  | inr (t, e) ↦
      let (c1, queued, rest) =
        after-returns (λ x. request_subscriptions f (suc i) x)
          (queue_discovery_request (drain_requests f) t c) (ground arith) in
      subscriptions-IsSound f (suc i) c1 d rest (queue-IsSound f t c c1 queued s)
]
