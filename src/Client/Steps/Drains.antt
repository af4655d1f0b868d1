-- ===== src/Client/Steps/Drains.antt =====
-- The runs of `drainRequests` and of the reading loop of AdsClient.cpp, by induction on the fuel.
use mathlib.Core.Path.{subst}
use xds_client.Base.{
  ℕ, zero, suc, String, none, some, [], ◌∷◌, ◌≡◌, refl, sym, ◌∙◌, inl, inr, ok, fault, null_queue,
  null_stream, Outcome, after-returns, ok-injective, arith, Option-cases, Bool-cases, List-cases,
  out_of_fuel,
}
use xds_client.Wire.{Stream}
use xds_client.Client.State.{AdsClient}
use xds_client.Client.Requests.{
  pop_request, front_request, read_response, send_request, send_discovery_request,
  on_discovery_response, queue_discovery_request, drain_requests, read_responses,
}
use xds_client.Client.Loop.Drain.{drain_idle, drain_busy}
use xds_client.Client.Loop.Read.{arrived, read_response-none, read_busy}
use xds_client.Client.Steps.{Reach, here, next, Reach-trans}
use xds_client.Client.Steps.Runs.{pop-Step, send-Reach, queue-Reach, respond-Reach}

-- Every call of the function that returns is a run.
abbrev Runs : (AdsClient → Outcome AdsClient) → Type 0
Runs call = (c d : AdsClient) → call c ≡ ok d → Reach c d

pub drain_unqueued :
    (f : ℕ) (c : AdsClient) → c.request_queue ≡ none → drain_requests (suc f) c ≡ fault null_queue
unfolding drain_requests
drain_unqueued f c e = rw (front-none e)
  where
    front-none : c.request_queue ≡ none → front_request c ≡ fault null_queue
    front-none h = unfold front_request in ground arith

read_unconnected :
    (f : ℕ) (c : AdsClient) → c.stream ≡ none → read_responses (suc f) c ≡ fault null_stream
unfolding read_responses
read_unconnected f c e = rw (read-none e)
  where
    read-none : c.stream ≡ none → read_response c ≡ fault null_stream
    read-none h = unfold read_response in ground arith

pub read_ended :
    (f : ℕ) (st : Stream) (c : AdsClient)
    → c.stream ≡ some st
    → st.inbound ≡ []
    → read_responses (suc f) c ≡ ok c
unfolding read_responses
read_ended f st c hs hi = rw (read_response-none st c hs hi)

send_discovery_request-Reach :
    (read : AdsClient → Outcome AdsClient) (t : String) (c d : AdsClient)
    → Runs read
    → send_discovery_request read t c ≡ ok d
    → Reach c d
unfolding send_discovery_request
send_discovery_request-Reach read t c d reads h = elim (Bool-cases c.shut_down) [
  | inl e ↦ subst (Reach c) (ok-injective (ground arith)) here
  | inr e ↦
      let (c1, sent, rest) = after-returns read (send_request t c) (ground arith) in
      Reach-trans (send-Reach t c c1 e sent) (reads c1 d rest)
]

drain-Runs :
    (f : ℕ) → Runs (drain_requests f) → Runs (read_responses f) → Runs (drain_requests (suc f))
drain-Runs f drains reads c d h = elim (Option-cases c.request_queue) [
  | inl e ↦ absurd (cc (drain_unqueued f c e, h))
  | inr ([], e) ↦ subst (Reach c) (ok-injective (sym (drain_idle f c e) ∙ h)) here
  | inr (t ∷ q, e) ↦
      let (c1, sending, after1) =
        after-returns _ (send_discovery_request (read_responses f) t c)
          (sym (drain_busy f t q c e) ∙ h) in
      let (c2, popped, rest) = after-returns _ (pop_request c1) after1 in
      Reach-trans
        (next (send_discovery_request-Reach (read_responses f) t c c1 reads sending)
          (pop-Step c1 c2 popped))
        (drains c2 d rest)
]

read-Runs :
    (f : ℕ) → Runs (drain_requests f) → Runs (read_responses f) → Runs (read_responses (suc f))
read-Runs f drains reads c d h = elim (Option-cases c.stream) [
  | inl e ↦ absurd (cc (read_unconnected f c e, h))
  | inr (st, e) ↦ elim (List-cases st.inbound) [
    | inl i ↦ subst (Reach c) (ok-injective (sym (read_ended f st c e i) ∙ h)) here
    | inr (m, rest, i) ↦
        let (c1, answered, after1) =
          after-returns _ (on_discovery_response (drain_requests f) m (arrived st rest c))
            (sym (read_busy f st m rest c e i) ∙ h) in
        Reach-trans (respond-Reach (drain_requests f) drains st m rest c c1 e i answered)
          (reads c1 d after1)
  ]
]

pub drain-zero : (c : AdsClient) → drain_requests zero c ≡ out_of_fuel
unfolding drain_requests
drain-zero c = refl

read-zero : (c : AdsClient) → read_responses zero c ≡ out_of_fuel
unfolding read_responses
read-zero c = refl

both_run : (f : ℕ) → Runs (drain_requests f) × Runs (read_responses f)
both_run zero = (λ c d h. absurd (cc (drain-zero c, h)), λ c d h. absurd (cc (read-zero c, h)))
both_run (suc f) =
    let (drains, reads) = both_run f in (drain-Runs f drains reads, read-Runs f drains reads)

pub drain_requests-Reach : (f : ℕ) (c d : AdsClient) → drain_requests f c ≡ ok d → Reach c d
drain_requests-Reach f = (both_run f).0

pub read_responses-Reach : (f : ℕ) (c d : AdsClient) → read_responses f c ≡ ok d → Reach c d
read_responses-Reach f = (both_run f).1

-- When queueDiscoveryRequest returns, the client has only taken steps of the step relation: a state
-- allocated, a request noted as pending, a type queued or taken off the queue, a request sent for the
-- names that the watches of its type are set on, and only while the client is not shut down, an
-- answer dropped, its nonce noted, or, for a type without watches and an answer without resources,
-- settled with its version.
pub queue_discovery_request-Reach :
    (f : ℕ) (t : String) (c d : AdsClient)
    → queue_discovery_request (drain_requests f) t c ≡ ok d
    → Reach c d
queue_discovery_request-Reach f = queue-Reach (drain_requests f) (drain_requests-Reach f)
