-- ===== src/Client/Steps/Established.antt =====
-- `onStreamEstablished` of AdsClient.cpp: what goes out on a new stream.
use mathlib.Core.Path.{subst}
use xds_client.Base.{
  ℕ, zero, suc, String, true, none, some, List, [], ◌≡◌, refl, sym, ok, arith, inl, inr, Bool-cases,
  Option-cases, All, get_elem?, after-returns, ok-injective,
}
use xds_client.Wire.{DiscoveryRequest, DiscoveryResponse}
use xds_client.Client.State.{AdsClient, ApiState, clear_nonce}
use xds_client.Client.Requests.{fill_node, queue_discovery_request, drain_requests}
use xds_client.Client.Streams.{request_subscriptions, new_stream, on_stream_established}
use xds_client.Client.Loop.{written, inbound}
use xds_client.Client.Loop.Send.{named}
use xds_client.Client.Steps.{Reach, here, Reach-trans}
use xds_client.Client.Steps.Drains.{queue_discovery_request-Reach}
use xds_client.Client.Steps.Wire.{Wires, Reach-Holds}

-- The client at the start of the loop over its subscriptions.
abbrev pub opened : List DiscoveryResponse → AdsClient → AdsClient
opened inbound c =
    record (clear_nonce (record c {
      context_used = true;
      stream = some (new_stream inbound);
      first_stream_request = true;
    })) { request_queue = some [] }

pub request_subscriptions-Reach :
    (f i : ℕ) (c d : AdsClient) → request_subscriptions f i c ≡ ok d → Reach c d
unfolding request_subscriptions
request_subscriptions-Reach zero i c d h = absurd (cc)
request_subscriptions-Reach (suc f) i c d h = elim (Option-cases (get_elem? c.subscriptions i)) [
  | inl e ↦ subst (Reach c) (ok-injective (ground arith)) here
  | inr (t, e) ↦
      let (c1, queued, rest) =
        after-returns (λ x. request_subscriptions f (suc i) x)
          (queue_discovery_request (drain_requests f) t c) (ground arith) in
      Reach-trans (queue_discovery_request-Reach f t c c1 queued)
        (request_subscriptions-Reach f (suc i) c1 d rest)
]

-- A call that returns had a stub and a fresh context: it is the loop, or there is no stream.
pub established-loop :
    (f : ℕ) (inbound : List DiscoveryResponse) (c d : AdsClient)
    → on_stream_established f (some inbound) c ≡ ok d
    → request_subscriptions f 0 (opened inbound c) ≡ ok d
unfolding on_stream_established
established-loop f inbound c d h = elim (Bool-cases c.has_stub) [
  | inl e ↦ elim (Bool-cases c.context_used) [
    | inl k ↦ absurd (ground arith)
    | inr k ↦ ground arith
  ]
  | inr e ↦ absurd (ground arith)
]

pub established-none :
    (f : ℕ) (c d : AdsClient)
    → on_stream_established f none c ≡ ok d
    → record c { context_used = true; stream = none } ≡ d
unfolding on_stream_established
established-none f c d h = elim (Bool-cases c.has_stub) [
  | inl e ↦ elim (Bool-cases c.context_used) [
    | inl k ↦ absurd (ground arith)
    | inr k ↦ ok-injective (ground arith)
  ]
  | inr e ↦ absurd (ground arith)
]

pub on_stream_established-Reach :
    (f : ℕ) (inbound : List DiscoveryResponse) (c d : AdsClient)
    → on_stream_established f (some inbound) c ≡ ok d
    → Reach (opened inbound c) d
on_stream_established-Reach f inbound c d h =
    request_subscriptions-Reach f 0 (opened inbound c) d (established-loop f inbound c d h)

pub opened_stream :
    (inbound : List DiscoveryResponse) (c : AdsClient)
    → (opened inbound c).stream ≡ some (new_stream inbound)
unfolding clear_nonce
opened_stream inbound c = refl

cleared :
    (inbound : List DiscoveryResponse) (c : AdsClient) (u : String) (a : ApiState)
    → (opened inbound c).api_state u ≡ some a
    → a.request.response_nonce ≡ ""
unfolding clear_nonce
cleared inbound c u a e = elim (Option-cases (c.api_state u)) [
  | inl k ↦ absurd (ground arith)
  | inr (b, k) ↦ ground arith
]

module _ (F : String → Type 0) (empty : F "") where
  abbrev StateNonce : ApiState → Type 0
  StateNonce a = F a.request.response_nonce

  abbrev pub RequestNonce : DiscoveryRequest → Type 0
  RequestNonce r = F r.response_nonce

  abbrev pub AnswerNonce : DiscoveryResponse → Type 0
  AnswerNonce m = F m.nonce

  nonce_filled :
      (t : String) (a : ApiState) (names : List String) (c : AdsClient)
      → (fill_node t (named a names) c).0.request.response_nonce ≡ a.request.response_nonce
  unfolding fill_node
  nonce_filled t a names c = ground arith

  nonce-Wires : Wires StateNonce RequestNonce AnswerNonce
  nonce-Wires = record {
    fresh = empty;
    pends = λ a h. h;
    asks = λ t a names c h. rw (nonce_filled t a names c) h;
    writes = λ t a names c h. rw (nonce_filled t a names c) h;
    notes = λ m a g h. g;
    settles = λ m a g h. g;
  }

  -- Whatever holds of the empty text and of the nonces of the messages that the server sends on a new
  -- stream holds of the nonce of every request that onStreamEstablished has written there when it
  -- returns: no nonce of an earlier stream is sent.
  pub on_stream_established_nonces :
      (f : ℕ) (inbound : List DiscoveryResponse) (c d : AdsClient)
      → on_stream_established f (some inbound) c ≡ ok d
      → All AnswerNonce inbound
      → All RequestNonce (written d)
  on_stream_established_nonces f inbound c d run good =
      (Reach-Holds StateNonce RequestNonce AnswerNonce nonce-Wires (opened inbound c) d
        (on_stream_established-Reach f inbound c d run)
        (record {
          states = λ u a e. subst F (sym (cleared inbound c u a e)) empty;
          requests = rw (opened_stream inbound c) tt;
          answers = rw (opened_stream inbound c) good;
        })).requests
