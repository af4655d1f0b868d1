-- ===== src/Client/Sessions/Wire.antt =====
-- AdsClient.cpp: the requests that a client in order writes during a call.
use mathlib.Core.Path.{subst}
use mathlib.Core.List.{append_assoc}
use xds_client.Base.{
  ℕ, String, Option, some, List, [], ◌∷◌, ◌++◌, ◌≡◌, sym, ap, ◌∙◌, ok, All, All-append,
}
use xds_client.Wire.{DiscoveryRequest, DiscoveryResponse, Stream}
use xds_client.Client.State.{AdsClient, ApiState, Watcher, api_state_for}
use xds_client.Client.Requests.{watched, fill_node, queue_discovery_request, drain_requests}
use xds_client.Client.Loop.{written, stream_written}
use xds_client.Client.Loop.Send.{named, sent}
use xds_client.Client.Loop.Read.{arrived}
use xds_client.Client.Loop.Entry.{api_state_for-rest}
use xds_client.Client.Steps.{
  Step, allocate, pend, push, pop, send, ignore, note, settle, Reach, Reach-keeps,
}
use xds_client.Client.Steps.Drains.{queue_discovery_request-Reach}
use xds_client.Client.Sessions.Loops.{Keeps, Step-Keeps, fit_at}
use xds_client.Client.Sessions.Requests.{Covers}
use xds_client.Client.Sessions.Names.{Serves, filled-Serves}

-- The requests that came after those of `before` serve the memory.
abbrev pub Writes : (ℕ → Option Watcher) → List DiscoveryRequest → AdsClient → Type 0
Writes view before c =
    (rs : List DiscoveryRequest) × (written c ≡ before ++ rs) × All (Serves view) rs

module _ (view heap : ℕ → Option Watcher) (next bound : ℕ) (before : List DiscoveryRequest)
    (covers : Covers view heap) where
  Writes-same :
      (c d : AdsClient) → written d ≡ written c → Writes view before c → Writes view before d
  Writes-same c d e (rs, w, good) = (rs, e ∙ w, good)

  Writes-arrived :
      (st : Stream) (rest : List DiscoveryResponse) (c : AdsClient)
      → c.stream ≡ some st
      → Writes view before c
      → Writes view before (arrived st rest c)
  Writes-arrived st rest c hs (rs, w, good) = (rs, ap stream_written (sym hs) ∙ w, good)

  Writes-send :
      (t : String) (a : ApiState) (names : List String) (st : Stream) (c : AdsClient)
      → c.stream ≡ some st
      → c.api_state t ≡ some a
      → watched c.heap a.watches ≡ ok names
      → Keeps view heap next bound c
      → Writes view before c
      → Writes view before (sent t a names st c)
  Writes-send t a names st c hs ha hn k (rs, w, good) =
      let r = (fill_node t (named a names) c).0.request in
      (
        rs ++ r ∷ [],
        ap (λ l. l ++ r ∷ []) (ap stream_written (sym hs) ∙ w) ∙ append_assoc before rs (r ∷ []),
        All-append (Serves view) rs (r ∷ []) good (
          filled-Serves view c.heap t a c.subscriptions (subst (Covers view) (sym k.memory) covers)
              (fit_at view t a c ha k.fit) names c hn,
          tt,
        ),
      )

  Step-Writes :
      (c d : AdsClient)
      → Step c d
      → Keeps view heap next bound c
      → Writes view before c
      → Writes view before d
  Step-Writes _ _ (allocate t c) k w =
      Writes-same c (api_state_for t c).1 (ap written (api_state_for-rest t c)) w
  Step-Writes _ _ (pend t a c ha p) k w = w
  Step-Writes _ _ (push t q c e) k w = w
  Step-Writes _ _ (pop t q c e) k w = w
  Step-Writes _ _ (send t a names st c s hs ha hn) k w = Writes-send t a names st c hs ha hn k w
  Step-Writes _ _ (ignore st m rest c hs hi) k w = Writes-arrived st rest c hs w
  Step-Writes _ _ (note st m rest a c hs hi ha) k w = Writes-arrived st rest c hs w
  Step-Writes _ _ (settle st m rest a c hs hi ha e l) k w = Writes-arrived st rest c hs w

  pub Reach-Writes :
      (c d : AdsClient)
      → Reach c d
      → Keeps view heap next bound c
      → Writes view before c
      → Writes view before d
  Reach-Writes c d r k w =
      (Reach-keeps (λ x. Keeps view heap next bound x × Writes view before x)
        (λ x y s h. (Step-Keeps view heap next bound x y s h.0, Step-Writes x y s h.0 h.1)) c r
        (k, w)).1

  pub queue-Writes :
      (f : ℕ) (t : String) (c d : AdsClient)
      → queue_discovery_request (drain_requests f) t c ≡ ok d
      → Keeps view heap next bound c
      → Writes view before c
      → Writes view before d
  queue-Writes f t c d run = Reach-Writes c d (queue_discovery_request-Reach f t c d run)
