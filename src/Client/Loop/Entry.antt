-- ===== src/Client/Loop/Entry.antt =====
-- `queueDiscoveryRequest` of AdsClient.cpp as its callers see it: it returns, or it is undefined.
use xds_client.Base.{
  ℕ, ◌+◌, ◌*◌, ◌≤◌, String, true, false, Option, some, List, [], ◌∷◌, ◌++◌, ◌≡◌, ◌≢◌, ◌⊎◌, refl, ap,
  ◌∙◌, inl, inr, length, length-append, eq_iff, Outcome, ok, fault, out_of_fuel, empty_pop, Ends,
  arith,
}
use xds_client.Wire.{Stream}
use xds_client.Client.State.{AdsClient, Watcher, new_api_state, api_state_for, paused}
use xds_client.Client.Requests.{watched, push_request, queue_discovery_request, drain_requests}
use xds_client.Client.Loop.{
  stream_inbound, stream_written, inbound, written, queued, backlog, some_asks, profile, IsKnown,
  IsLive, AllKnown, AllKnown-append, Ready, queued-eq,
}
use xds_client.Client.Loop.Drain.{Fails, IsDrained}
use xds_client.Client.Loop.Read.{IsDrained-gone, not_nil}
use xds_client.Client.Loop.Ends.{loop_ends}

-- The end of a run that cannot fault.
Ends-ok :
    (c : AdsClient) (m : Outcome AdsClient)
    → Ends (Fails c) (IsDrained c) m
    → some_asks c (inbound c) ≡ false
    → (d : AdsClient) × (m ≡ ok d) × IsDrained c d
Ends-ok c (ok d) h quiet = (d, refl, h)
Ends-ok c (fault e) h quiet = absurd (cc (h.1, quiet))
Ends-ok c out_of_fuel h quiet = absurd h

-- The end of a run that must fault.
Ends-fault :
    (c : AdsClient) (m : Outcome AdsClient)
    → Ends (Fails c) (IsDrained c) m
    → queued c ≢ []
    → some_asks c (inbound c) ≡ true
    → m ≡ fault empty_pop
Ends-fault c (ok d) h busy asked = elim h.unasked [
  | inl e ↦ absurd (busy (queued-eq c [] e))
  | inr e ↦ absurd (cc (e.1, asked))
]
Ends-fault c (fault e) h busy asked = ap fault h.0
Ends-fault c out_of_fuel h busy asked = absurd h

-- The client in which a request of type `t` has been put into the queue.
abbrev pub entered : String → AdsClient → AdsClient
entered t c =
    let c1 = (api_state_for t c).1 in record c1 { request_queue = some (queued c ++ t ∷ []) }

pub api_state_for-found :
    (t : String) (c : AdsClient) → (api_state_for t c).1.api_state t ≡ some (api_state_for t c).0
unfolding api_state_for
api_state_for-found t c = ground (arith, eq_iff t t)

pub api_state_for-rest :
    (t : String) (c : AdsClient)
    → (api_state_for t c).1 ≡ record c { api_state = (api_state_for t c).1.api_state }
unfolding api_state_for
api_state_for-rest t c = ground arith

api_state_for-profile :
    (t : String) (c : AdsClient) (u : String)
    → (profile ((api_state_for t c).1.api_state u) ≡ profile (c.api_state u))
      ⊎ (profile ((api_state_for t c).1.api_state u) ≡ profile (some new_api_state))
unfolding api_state_for
api_state_for-profile t c u = ground (arith, eq_iff t u)

watched-nil : (heap : ℕ → Option Watcher) → watched heap [] ≡ ok []
unfolding watched
watched-nil heap = refl

module _ (t : String) (c : AdsClient) where
  allocated-IsKnown :
      (u : String)
      → IsKnown (profile (c.api_state u))
      → IsKnown (profile ((api_state_for t c).1.api_state u))
  allocated-IsKnown u k = elim (api_state_for-profile t c u) [ inl e ↦ rw e k | inr e ↦ rw e tt ]

  allocated-IsLive :
      (u : String)
      → IsLive c.heap (profile (c.api_state u))
      → IsLive c.heap (profile ((api_state_for t c).1.api_state u))
  allocated-IsLive u k = elim (api_state_for-profile t c u) [
    | inl e ↦ rw e k
    | inr e ↦ rw e ([], watched-nil c.heap)
  ]

  allocated-AllKnown : (ts : List String) → AllKnown c ts → AllKnown (api_state_for t c).1 ts
  allocated-AllKnown [] k = tt
  allocated-AllKnown (u ∷ ts) k = (allocated-IsKnown u k.0, allocated-AllKnown ts k.1)

  pub entered-Ready : Ready c → Ready (entered t c)
  entered-Ready r = record {
    stream = (r.stream.0, ap (λ (d : AdsClient). d.stream) (api_state_for-rest t c) ∙ r.stream.1);
    queue = (queued c ++ t ∷ [], refl);
    known =
        AllKnown-append (api_state_for t c).1 (queued c) (t ∷ [])
          (allocated-AllKnown (queued c) r.known) (rw (api_state_for-found t c) tt, tt);
    live = λ u.
        rw (ap (λ (d : AdsClient). d.heap) (api_state_for-rest t c))
          (allocated-IsLive u (r.live u));
  }

  pub entered-queue :
      (f : ℕ)
      → Ready c
      → paused (api_state_for t c).0 ≡ false
      → queue_discovery_request (drain_requests f) t c ≡ drain_requests f (entered t c)
  unfolding queue_discovery_request push_request
  entered-queue f r h = ground (
    arith,
    r.stream.1,
    ap (λ (d : AdsClient). d.request_queue) (api_state_for-rest t c) ∙ r.queue.1,
    queued-eq c r.queue.0 r.queue.1,
  )

  pub entered_numbers :
      (written (entered t c) ≡ written c)
      × (inbound (entered t c) ≡ inbound c)
      × (backlog (entered t c) ≡ backlog c + 1)
      × ((entered t c).shut_down ≡ c.shut_down)
  entered_numbers =
      let e = ap (λ (d : AdsClient). d.stream) (api_state_for-rest t c) in
      (
        ap (λ (o : Option Stream). stream_written o) e,
        ap (λ (o : Option Stream). stream_inbound o) e,
        omega (
          arith,
          length-append (queued c) (t ∷ []),
          ap (λ (o : Option Stream). length (stream_inbound o)) e,
        ),
        ap (λ (d : AdsClient). d.shut_down) (api_state_for-rest t c),
      )

  module _ (f : ℕ) (r : Ready c) (s : c.shut_down ≡ false)
      (p : paused (api_state_for t c).0 ≡ false) (fuel : 2 * backlog c + 4 ≤ f) where
    pub entered-Ends :
        Ends (Fails (entered t c)) (IsDrained (entered t c)) (drain_requests f (entered t c))
    entered-Ends =
        (loop_ends f).0 (entered t c) (entered-Ready r) (entered_numbers.3 ∙ s)
          (omega (arith, entered_numbers.2))

    -- For a client that is ready and not shut down, a type that is not paused, and fuel of at least
    -- twice the backlog plus four: if some message that the server still sends makes the client write
    -- again, the call ends in a pop of the empty request queue, which is undefined.
    pub queue_discovery_request_reentrant :
        some_asks (api_state_for t c).1 (inbound c) ≡ true
        → queue_discovery_request (drain_requests f) t c ≡ fault empty_pop
    queue_discovery_request_reentrant asked =
        entered-queue f r p
        ∙ Ends-fault (entered t c) _ entered-Ends (not_nil (queued c) t)
            (ap (λ ms. some_asks (api_state_for t c).1 ms) entered_numbers.1 ∙ asked)

    pub queue_discovery_request-IsDrained :
        some_asks (api_state_for t c).1 (inbound c) ≡ false
        → (d : AdsClient) × (queue_discovery_request (drain_requests f) t c ≡ ok d)
          × IsDrained (entered t c) d
          × (inbound d ≡ [])
          × (length (written d) ≡ length (written c) + length (queued c) + 1)
    queue_discovery_request-IsDrained quiet =
        let (d, run, done) =
          Ends-ok (entered t c) _ entered-Ends
            (ap (λ ms. some_asks (api_state_for t c).1 ms) entered_numbers.1 ∙ quiet) in
        (
          d,
          entered-queue f r p ∙ run,
          done,
          IsDrained-gone (queued c) t (entered t c) d refl done,
          omega
              (arith, done.counted, ap length entered_numbers.0, length-append (queued c) (t ∷ [])),
        )
