-- ===== src/Client/Steps/Runs.antt =====
-- Every call of `drainRequests` and `queueDiscoveryRequest` that returns is a run of steps.
use mathlib.Core.Path.{subst}
use xds_client.Base.{
  String, true, false, none, some, List, [], ◌∷◌, ◌≡◌, sym, ◌∙◌, inl, inr, ok, Outcome, ◌>>=◌,
  after-returns, arith, Option-cases, Bool-cases, if◌then◌else◌, ◌&&◌, eq_iff, ap, ok-injective,
}
use xds_client.Wire.{DiscoveryRequest, DiscoveryResponse, Stream}
use xds_client.Client.State.{AdsClient, ApiState, api_state_for, set_api, paused}
use xds_client.Client.Requests.{
  watched, write, fill_node, push_request, pop_request, send_request, accept_response,
  on_discovery_response, queue_discovery_request,
}
use xds_client.Client.Loop.{is_empty}
use xds_client.Client.Loop.Send.{sent, named, fill_node-rest, send_request-eq-ok}
use xds_client.Client.Loop.Entry.{api_state_for-found, api_state_for-rest}
use xds_client.Client.Loop.Answer.{
  accept_response_lem, on_discovery_response-known, on_discovery_response-unknown,
}
use xds_client.Client.Loop.Read.{arrived}
use xds_client.Client.Steps.{
  Step, allocate, pend, push, pop, send, ignore, note, settle, Reach, here, next, Reach-trans,
}

push-Step : (t : String) (c d : AdsClient) → push_request t c ≡ ok d → Step c d
unfolding push_request
push-Step t c d h = elim (Option-cases c.request_queue) [
  | inl e ↦ absurd (ground arith)
  | inr (q, e) ↦ subst (Step c) (ground arith) (push t q c e)
]

pub pop-Step : (c d : AdsClient) → pop_request c ≡ ok d → Step c d
unfolding pop_request
pop-Step c d h = elim (Option-cases c.request_queue) [
  | inl e ↦ absurd (ground arith)
  | inr ([], e) ↦ absurd (ground arith)
  | inr (t ∷ q, e) ↦ subst (Step c) (ground arith) (pop t q c e)
]

api_state_for_idem :
    (t : String) (c : AdsClient) → api_state_for t (api_state_for t c).1 ≡ api_state_for t c
unfolding api_state_for
api_state_for_idem t c = ground (arith, eq_iff t t)

send_request-allocated :
    (t : String) (c : AdsClient) → send_request t (api_state_for t c).1 ≡ send_request t c
unfolding send_request
send_request-allocated t c = rw api_state_for_idem

send_request-watched :
    (t : String) (c d : AdsClient)
    → send_request t c ≡ ok d
    → (names : List String) × (watched (api_state_for t c).1.heap (api_state_for t c).0.watches
        ≡ ok names)
unfolding send_request
send_request-watched t c d h =
    let (names, found, rest) =
      after-returns _ (watched (api_state_for t c).1.heap (api_state_for t c).0.watches) h in
    (names, found)

write-connected :
    (r : DiscoveryRequest) (c d : AdsClient)
    → write r c ≡ ok d
    → (st : Stream) × (c.stream ≡ some st)
unfolding write
write-connected r c d h = elim (Option-cases c.stream) [
  | inl e ↦ absurd (ground arith)
  | inr (st, e) ↦ (st, e)
]

send_request-stream :
    (t : String) (c d : AdsClient)
    → send_request t c ≡ ok d
    → (st : Stream) × ((api_state_for t c).1.stream ≡ some st)
unfolding send_request
send_request-stream t c d h =
    let (names, found, sending) =
      after-returns _ (watched (api_state_for t c).1.heap (api_state_for t c).0.watches) h in
    let a = named (api_state_for t c).0 names in
    let filled = fill_node t a (api_state_for t c).1 in
    let (d', wrote, rest) = after-returns _ (write filled.0.request filled.1) sending in
    let (st, connected) = write-connected filled.0.request filled.1 d' wrote in
    (
      st,
      sym (ap (λ (e : AdsClient). e.stream) (fill_node-rest t a (api_state_for t c).1)) ∙ connected,
    )

-- A request that is written is written from the state of its type, allocated if need be.
pub send_request-sent :
    (t : String) (c d : AdsClient)
    → send_request t c ≡ ok d
    → (names : List String) × (st : Stream) × (watched
          (api_state_for t c).1.heap
          (api_state_for t c).0.watches
        ≡ ok names)
      × ((api_state_for t c).1.stream ≡ some st)
      × (sent t (api_state_for t c).0 names st (api_state_for t c).1 ≡ d)
send_request-sent t c d h =
    let (names, found) = send_request-watched t c d h in
    let (st, connected) = send_request-stream t c d h in
    (
      names,
      st,
      found,
      connected,
      ok-injective (
          sym (
            send_request-eq-ok t (api_state_for t c).0 names st (api_state_for t c).1 connected
              (api_state_for-found t c) found)
          ∙ send_request-allocated t c
          ∙ h),
    )

pub send-Reach :
    (t : String) (c d : AdsClient) → c.shut_down ≡ false → send_request t c ≡ ok d → Reach c d
send-Reach t c d s h =
    let (names, st, found, connected, e) = send_request-sent t c d h in
    let (a, c1) = api_state_for t c in
    subst (Reach c) e (
      next (next here (allocate t c)) (
        send t a names st c1 (ap (λ (e : AdsClient). e.shut_down) (api_state_for-rest t c) ∙ s)
          connected (api_state_for-found t c) found))

pub queue-unconnected :
    (drain : AdsClient → Outcome AdsClient) (t : String) (c : AdsClient)
    → c.stream ≡ none
    → queue_discovery_request drain t c ≡ ok c
unfolding queue_discovery_request
queue-unconnected drain t c e = ground arith

pub queue-connected :
    (drain : AdsClient → Outcome AdsClient) (t : String) (st : Stream) (c : AdsClient)
    → c.stream ≡ some st
    → queue_discovery_request drain t c ≡ (
        if paused (api_state_for t c).0
        then ok (set_api t (record (api_state_for t c).0 { pending = true }) (api_state_for t c).1)
        else (push_request t (api_state_for t c).1 >>= drain))
unfolding queue_discovery_request
queue-connected drain t st c e = ground arith

module _ (drain : AdsClient → Outcome AdsClient)
    (drains : (c d : AdsClient) → drain c ≡ ok d → Reach c d) where
  pub queue-Reach :
      (t : String) (c d : AdsClient) → queue_discovery_request drain t c ≡ ok d → Reach c d
  queue-Reach t c d h = elim (Option-cases c.stream) [
    | inl e ↦ subst (Reach c) (ok-injective (sym (queue-unconnected drain t c e) ∙ h)) here
    | inr (st, e) ↦ elim (Bool-cases (paused (api_state_for t c).0)) [
      | inl p ↦
          subst (Reach c) (ok-injective (cc (queue-connected drain t st c e, p, h)))
            (next (next here (allocate t c)) (pend t _ _ (api_state_for-found t c) p))
      | inr p ↦
          let (d1, pushed, drained) =
            after-returns drain (push_request t (api_state_for t c).1)
              (cc (queue-connected drain t st c e, p, h)) in
          Reach-trans
            (next (next here (allocate t c)) (push-Step t (api_state_for t c).1 d1 pushed))
            (drains d1 d drained)
    ]
  ]

  module _ (st : Stream) (m : DiscoveryResponse) (rest : List DiscoveryResponse) (c d : AdsClient)
      (hs : c.stream ≡ some st) (hi : st.inbound ≡ m ∷ rest) where
    accept-Reach :
        (a : ApiState)
        → c.api_state m.type_url ≡ some a
        → accept_response drain m a (arrived st rest c) ≡ ok d
        → Reach c d
    accept-Reach a ha h = elim (Bool-cases (is_empty a.watches && is_empty m.resources)) [
      | inl e ↦
          subst (Reach c)
            (ok-injective (cc (accept_response_lem drain m a (arrived st rest c), e, h)))
            (next here (settle st m rest a c hs hi ha (ground arith) (ground arith)))
      | inr e ↦ Reach-trans (next here (note st m rest a c hs hi ha)) (
          queue-Reach m.type_url _ d (cc (accept_response_lem drain m a (arrived st rest c), e, h)))
    ]

    pub respond-Reach : on_discovery_response drain m (arrived st rest c) ≡ ok d → Reach c d
    respond-Reach h = elim (Option-cases (c.api_state m.type_url)) [
      | inl e ↦
          subst (Reach c)
            (ok-injective (sym (on_discovery_response-unknown drain m (arrived st rest c) e) ∙ h))
            (next here (ignore st m rest c hs hi))
      | inr (a, e) ↦
          accept-Reach a e (sym (on_discovery_response-known drain m a (arrived st rest c) e) ∙ h)
    ]
