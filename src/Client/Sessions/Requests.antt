-- ===== src/Client/Sessions/Requests.antt =====
-- `queueDiscoveryRequest` of AdsClient.cpp, for a client in order.
use mathlib.Core.Path.{subst}
use xds_client.Base.{
  ℕ, ◌+◌, ◌*◌, ◌≤◌, ◌<◌, String, true, false, Option, some, List, [], ◌∷◌, ◌++◌, ◌≡◌, refl, sym, ap,
  inl, inr, ok, Fault, empty_pop, Ends, Ends-map, Ends-returned, length, beq_iff, Bool-cases,
  Option-cases, arith, ltb,
}
use xds_client.Wire.{DiscoveryResponse, Stream}
use xds_client.Client.State.{AdsClient, Watcher, api_state_for, paused}
use xds_client.Client.Requests.{watched, queue_discovery_request, drain_requests}
use xds_client.Client.Loop.{Ready, IsLive, profile, inbound, stream_inbound, queued-eq, some_asks}
use xds_client.Client.Loop.Entry.{entered, entered_numbers, entered-queue, entered-Ends}
use xds_client.Client.Loop.Drain.{Fails, IsDrained}
use xds_client.Client.Shutdown.{queue_discovery_request_shut}
use xds_client.Client.Steps.Runs.{queue-unconnected}
use xds_client.Client.Sessions.{count, places, IsSound}
use xds_client.Client.Sessions.Lists.{state_of-found}
use xds_client.Client.Sessions.Loops.{AllFit, fit_at, Keeps, room}
use xds_client.Client.Sessions.Idle.{IsIdle, IsSound-Keeps, queue-Keeps, queue-IsIdle}

-- A list whose watches are in memory can be read.
watched-found :
    (heap : ℕ → Option Watcher) (ps : List ℕ)
    → ((p : ℕ) → 0 < count p ps → (w : Watcher) × (heap p ≡ some w))
    → (names : List String) × (watched heap ps ≡ ok names)
unfolding watched
watched-found heap [] h = ([], refl)
watched-found heap (p ∷ ps) h =
    let (w, here) = h p (ground (arith, beq_iff p p)) in
    let (names, rest) = watched-found heap ps (λ q k. h q (ground (arith, k))) in
    (w.resources ++ names, ground (arith, here, rest))

-- What stands in a list is in memory.
places-found :
    (view : ℕ → Option Watcher) (t : String) (p : ℕ)
    → 0 < places (view p) t
    → (w : Watcher) × (view p ≡ some w)
places-found view t p h = elim (Option-cases (view p)) [
  | inl e ↦ absurd (ground (arith, h, e))
  | inr found ↦ found
]

-- Every watch of the memory `view` is in the memory `heap`.
abbrev pub Covers : (ℕ → Option Watcher) → (ℕ → Option Watcher) → Type 0
Covers view heap = (p : ℕ) (w : Watcher) → view p ≡ some w → heap p ≡ some w

-- The call fails as a pop of an empty queue, and only if messages still come.
abbrev pub Reenters : ℕ → Fault → Type 0
Reenters incoming e = (e ≡ empty_pop) × (0 < incoming)

asks-occupied :
    (c : AdsClient) (ms : List DiscoveryResponse) → some_asks c ms ≡ true → 0 < length ms
asks-occupied c [] h = absurd (cc)
asks-occupied c (m ∷ ms) h = omega arith

module _ (view : ℕ → Option Watcher) (c : AdsClient) (fit : AllFit view c)
    (covers : Covers view c.heap) where
  all-IsLive : (u : String) → IsLive c.heap (profile (c.api_state u))
  all-IsLive u = elim (Option-cases (c.api_state u)) [
    | inl e ↦ rw e tt
    | inr (a, e) ↦
        let (names, found) = watched-found c.heap a.watches (λ p h.
          let (w, k) =
            places-found view u p (subst (λ n. 0 < n) ((fit_at view u a c e fit).once p) h) in
          (w, covers p w k)) in
        rw e (names, found)
  ]

  pub all-Ready : (st : Stream) → c.stream ≡ some st → IsIdle c → Ready c
  all-Ready st e (inl n) = absurd (cc (n, e))
  all-Ready st e (inr q) = record {
    stream = (st, e);
    queue = ([], q);
    known = rw (queued-eq c [] q) tt;
    live = all-IsLive;
  }

  pub idle_queue : (st : Stream) → c.stream ≡ some st → IsIdle c → c.request_queue ≡ some []
  idle_queue st e (inl n) = absurd (cc (n, e))
  idle_queue st e (inr q) = q

  pub unpaused_type : (t : String) → paused (api_state_for t c).0 ≡ false
  unpaused_type t = rw (state_of-found t c) (ap (λ n. ltb 0 n) (fit t).unpaused)

  queue_open :
      (f : ℕ) (t : String) (st : Stream)
      → c.stream ≡ some st
      → IsIdle c
      → c.shut_down ≡ false
      → 4 * length (inbound c) + 4 ≤ f
      → Ends
          (Reenters (length (inbound c)))
          (λ d. length (inbound d) ≤ length (inbound c))
          (queue_discovery_request (drain_requests f) t c)
  queue_open f t st e i s fuel =
      let r = all-Ready st e i in
      let waiting = queued-eq c [] (idle_queue st e i) in
      let (_, coming, more, _) = entered_numbers t c in
      rw (entered-queue t c f r (unpaused_type t)) (
        Ends-map (Fails (entered t c)) (Reenters (length (inbound c))) (IsDrained (entered t c)) _ _
          (entered-Ends t c f r s (unpaused_type t) (omega (arith, ap length waiting, fuel)))
          (λ x h. (
            h.0,
            subst (λ (ms : List DiscoveryResponse). 0 < length ms) coming
                (asks-occupied (entered t c) _ h.1),
          ))
          (λ d h. omega (arith, h.shrinks, more, ap length waiting)))

  queue_shut :
      (f : ℕ) (t : String) (st : Stream)
      → c.stream ≡ some st
      → IsIdle c
      → c.shut_down ≡ true
      → 4 * length (inbound c) + 4 ≤ f
      → Ends
          (Reenters (length (inbound c)))
          (λ d. length (inbound d) ≤ length (inbound c))
          (queue_discovery_request (drain_requests f) t c)
  queue_shut f t st e i s fuel =
      let (d, run, same, _) =
        queue_discovery_request_shut f t [] c s (idle_queue st e i) (omega (arith, fuel)) in
      rw run (omega (arith, ap (λ o. length (stream_inbound o)) same))

  pub queue-Ends :
      (f : ℕ) (t : String)
      → IsIdle c
      → 4 * length (inbound c) + 4 ≤ f
      → Ends
          (Reenters (length (inbound c)))
          (λ d. length (inbound d) ≤ length (inbound c))
          (queue_discovery_request (drain_requests f) t c)
  queue-Ends f t i fuel = elim (Option-cases c.stream) [
    | inl e ↦ rw (queue-unconnected (drain_requests f) t c e) (omega arith)
    | inr (st, e) ↦ elim (Bool-cases c.shut_down) [
      | inl s ↦ queue_shut f t st e i s fuel
      | inr s ↦ queue_open f t st e i s fuel
    ]
  ]

-- The state of a client between the steps of an operation.
pub record Between (view heap : ℕ → Option Watcher) (next bound incoming : ℕ) (c : AdsClient)
    : Type 0 where
  pub keeps : Keeps view heap next bound c
  pub idle : IsIdle c
  pub coming : length (inbound c) ≤ incoming

-- A request ends there again, or enters the loop a second time.
pub request-Ends :
    (view heap : ℕ → Option Watcher) (next bound incoming : ℕ) (f : ℕ) (t : String) (c : AdsClient)
    → Covers view heap
    → 4 * incoming + 4 ≤ f
    → Between view heap next bound incoming c
    → Ends
        (Reenters incoming)
        (Between view heap next bound incoming)
        (queue_discovery_request (drain_requests f) t c)
request-Ends view heap next bound incoming f t c covers fuel b =
    Ends-returned (Reenters incoming) (λ d. length (inbound d) ≤ length (inbound c))
      (Between view heap next bound incoming) (queue_discovery_request (drain_requests f) t c)
      (Ends-map (Reenters (length (inbound c))) (Reenters incoming)
        (λ d. length (inbound d) ≤ length (inbound c))
        (λ d. length (inbound d) ≤ length (inbound c))
        (queue_discovery_request (drain_requests f) t c)
        (queue-Ends view c b.keeps.fit (subst (Covers view) (sym b.keeps.memory) covers) f t b.idle
          (omega (arith, b.coming, fuel)))
        (λ e h. (h.0, omega (arith, h.1, b.coming))) (λ d h. h))
      (λ d run h. record {
        keeps = queue-Keeps view heap next bound f t c d run b.keeps;
        idle = queue-IsIdle f t c d run b.idle;
        coming = omega (arith, h, b.coming);
      })

-- The same for a client in order, without what it ends in.
pub sound-Ends :
    (incoming f : ℕ) (t : String) (c : AdsClient)
    → IsSound c
    → length (inbound c) ≤ incoming
    → 4 * incoming + 4 ≤ f
    → Ends (Reenters incoming) (λ d. Unit) (queue_discovery_request (drain_requests f) t c)
sound-Ends incoming f t c s h fuel =
    Ends-map (Reenters incoming) (Reenters incoming)
      (Between c.heap c.heap c.next_watcher (room c) incoming) (λ d. Unit)
      (queue_discovery_request (drain_requests f) t c)
      (request-Ends c.heap c.heap c.next_watcher (room c) incoming f t c (λ p w e. e) fuel
        (record { keeps = IsSound-Keeps c s; idle = s.idle; coming = h }))
      (λ e k. k) (λ d k. tt)
