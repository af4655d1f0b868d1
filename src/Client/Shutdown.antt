-- ===== src/Client/Shutdown.antt =====
-- The end of a client: `shutdown` and `endStream` of AdsClient.h and AdsClient.cpp.
use xds_client.Base.{
  ℕ, zero, suc, ◌+◌, ◌<◌, String, true, some, List, [], ◌∷◌, ◌++◌, ◌≡◌, refl, ap, ◌∙◌, ok, Outcome,
  arith, inl, inr, Bool-cases, Option-cases, length, length-append,
}
use xds_client.Client.State.{AdsClient, api_state_for, paused, set_api}
use xds_client.Client.Requests.{
  push_request, send_discovery_request, queue_discovery_request, drain_requests, read_responses,
}
use xds_client.Client.Loop.Entry.{api_state_for-rest}
use xds_client.Client.Steps.Runs.{queue-unconnected, queue-connected}
use xds_client.Client.Loop.Drain.{drain_idle, drain_busy, pop_request-eq-ok}

send_shut :
    (read : AdsClient → Outcome AdsClient) (t : String) (c : AdsClient)
    → c.shut_down ≡ true
    → send_discovery_request read t c ≡ ok c
unfolding send_discovery_request
send_shut read t c e = ground arith

-- A queue is emptied without a write.
drain_shut :
    (f : ℕ) (q : List String) (c : AdsClient)
    → c.shut_down ≡ true
    → c.request_queue ≡ some q
    → length q < f
    → drain_requests f c ≡ ok (record c { request_queue = some [] })
drain_shut zero q c s e h = absurd (omega arith)
drain_shut (suc f) [] c s e h = drain_idle f c e ∙ same
  where
    same : ok c ≡ ok (record c { request_queue = some [] })
    same = ground arith
drain_shut (suc f) (t ∷ q) c s e h =
    drain_busy f t q c e
    ∙ rw (send_shut (read_responses f) t c s) (
        rw (pop_request-eq-ok t q c e)
          (drain_shut f q (record c { request_queue = some q }) s refl (omega arith)))

push_request-eq-ok :
    (t : String) (q : List String) (c : AdsClient)
    → c.request_queue ≡ some q
    → push_request t c ≡ ok (record c { request_queue = some (q ++ t ∷ []) })
unfolding push_request
push_request-eq-ok t q c e = ground arith

-- Once a client that has a request queue is shut down, queueDiscoveryRequest returns for every type, given fuel above the
-- number of the queued requests plus one, and writes and reads nothing; the client stays shut down.
pub queue_discovery_request_shut :
    (f : ℕ) (t : String) (q : List String) (c : AdsClient)
    → c.shut_down ≡ true
    → c.request_queue ≡ some q
    → length q + 1 < f
    → (d : AdsClient) × (queue_discovery_request (drain_requests f) t c ≡ ok d)
      × (d.stream ≡ c.stream)
      × (d.shut_down ≡ true)
queue_discovery_request_shut f t q c s e h = elim (Option-cases c.stream) [
  | inl u ↦ (c, queue-unconnected (drain_requests f) t c u, refl, s)
  | inr (st, u) ↦
      let (a, c1) = api_state_for t c in
      let rest = api_state_for-rest t c in
      let connected = queue-connected (drain_requests f) t st c u in
      let kept = ap (λ (d : AdsClient). d.stream) rest in
      let still = ap (λ (d : AdsClient). d.shut_down) rest ∙ s in
      elim (Bool-cases (paused a)) [
        | inl p ↦ (set_api t (record a { pending = true }) c1, cc (connected, p), kept, still)
        | inr p ↦ (
          record c1 { request_queue = some [] },
          connected
              ∙ rw p (
                  rw (push_request-eq-ok t q c1 (ap (λ (d : AdsClient). d.request_queue) rest ∙ e))
                    (drain_shut f (q ++ t ∷ []) _ still refl
                      (omega (arith, length-append q (t ∷ []), h)))),
          kept,
          still,
        )
      ]
]
