-- ===== src/Client/Silent.antt =====
-- One request of AdsClient.cpp for a type that is subscribed to, on a stream where the server is
-- silent.
use mathlib.Core.Path.{subst}
use mathlib.Core.List.{map-append}
use xds_client.Base.{
  ℕ, suc, String, true, false, some, none, Option, List, [], ◌∷◌, ◌++◌, ◌≡◌, refl, sym, ap, ◌∙◌,
  map, ok, fault, out_of_fuel, arith, inl, inr, Bool-cases, put_self, ◌==◌, eq_iff,
}
use xds_client.Wire.{DiscoveryRequest, Stream}
use xds_client.Client.State.{AdsClient, ApiState, Watcher, new_api_state, paused, api_state_for}
use xds_client.Client.Requests.{
  watched, add_names, fill_node, push_request, queue_discovery_request, drain_requests,
}
use xds_client.Client.Loop.{stream_written, written}
use xds_client.Client.Loop.Send.{named, sent, send_request-eq-ok}
use xds_client.Client.Loop.Drain.{drain_single}
use xds_client.Client.Steps.Drains.{read_ended}
use xds_client.Client.Steps.States.{put_miss}

-- A type that is subscribed to and not paused, with live watches and its own type in its request.
pub record IsResumed (c : AdsClient) (t : String) : Type 0 where
  pub state : ApiState
  pub names : List String
  pub found : c.api_state t ≡ some state
  pub subscribed : state.subscribed ≡ true
  pub unpaused : paused state ≡ false
  pub own_type : state.request.type_url ≡ t
  pub live : watched c.heap state.watches ≡ ok names

-- A stream on which nothing more will come, and an empty queue.
pub record IsSilent (c : AdsClient) : Type 0 where
  pub stream : Stream
  pub found : c.stream ≡ some stream
  pub nothing : stream.inbound ≡ []
  pub queue : c.request_queue ≡ some []
  pub open_still : c.shut_down ≡ false

-- The client when it has sent a request of type `t` on a silent stream.
abbrev pub resent : String → ApiState → List String → Stream → AdsClient → AdsClient
resent t a names st c = record (sent t a names st (record c { request_queue = some (t ∷ []) })) {
  request_queue = some [];
}

pub queue_silent :
    (f : ℕ) (t : String) (c : AdsClient) (s : IsSilent c) (r : IsResumed c t)
    → queue_discovery_request (drain_requests (suc (suc f))) t c
      ≡ ok (resent t r.state r.names s.stream c)
unfolding queue_discovery_request push_request api_state_for
queue_silent f t c s r =
    let c' = record c { request_queue = some (t ∷ []) } in
    let e = sent t r.state r.names s.stream c' in
    let st = record s.stream {
      written = s.stream.written ++ (fill_node t (named r.state r.names) c').0.request ∷ [];
    } in
    ground (arith, s.found, s.queue, r.found, r.unpaused)
    ∙ drain_single f t c' e e s.open_still refl
        (send_request-eq-ok t r.state r.names s.stream c' s.found r.found r.live)
        (read_ended f st e refl s.nothing) refl

-- What a request asks for.
pub record Summary : Type 0 where
  pub type_url : String
  pub version_info : String
  pub response_nonce : String
  pub resource_names : List String

abbrev pub summary : DiscoveryRequest → Summary
summary r = record {
  type_url = r.type_url;
  version_info = r.version_info;
  response_nonce = r.response_nonce;
  resource_names = r.resource_names;
}

abbrev pub summaries : AdsClient → List Summary
summaries c = map summary (written c)

-- What the state of a type makes a request ask for, and the client.
abbrev asking : String → ApiState → List String → Summary
asking t a names = record {
  type_url = t;
  version_info = a.request.version_info;
  response_nonce = a.request.response_nonce;
  resource_names = add_names [] names;
}

abbrev again_in : (ℕ → Option Watcher) → String → Option ApiState → Summary
again_in heap t o = elim o [
  | none ↦ asking t new_api_state []
  | some a ↦
      asking t a
        (elim (watched heap a.watches) [ ok names ↦ names | fault e ↦ [] | out_of_fuel ↦ [] ])
]

abbrev pub again : AdsClient → String → Summary
again c t = again_in c.heap t (c.api_state t)

again-found :
    (c : AdsClient) (t : String) (a : ApiState) (names : List String)
    → c.api_state t ≡ some a
    → watched c.heap a.watches ≡ ok names
    → again c t ≡ asking t a names
again-found c t a names ha hn = ground (arith, ha, hn)

-- A type that is subscribed to gets no new subscription, and asks for the same again.
fill_node-subscribed :
    (t : String) (a : ApiState) (c : AdsClient)
    → a.subscribed ≡ true
    → let (b, d) = fill_node t a c in
      (b.subscribed ≡ true)
      × (b.pauses ≡ a.pauses)
      × (b.watches ≡ a.watches)
      × (summary b.request ≡ summary a.request)
      × (d.subscriptions ≡ c.subscriptions)
unfolding fill_node
fill_node-subscribed t a c h =
    (ground (arith, h), ground (arith, h), ground (arith, h), ground (arith, h), ground (arith, h))

-- The types of the requests that the client has written on its stream.
abbrev pub types : AdsClient → List String
types c = map (λ (x : DiscoveryRequest). x.type_url) (written c)

module _ (t : String) (c : AdsClient) (s : IsSilent c) (r : IsResumed c t) where
  abbrev pub next : AdsClient
  next = resent t r.state r.names s.stream c

  pub filled :
      let (b, d) =
        fill_node t (named r.state r.names) (record c { request_queue = some (t ∷ []) }) in
      (b.subscribed ≡ true)
      × (b.pauses ≡ r.state.pauses)
      × (b.watches ≡ r.state.watches)
      × (summary b.request ≡ summary (named r.state r.names).request)
      × (d.subscriptions ≡ c.subscriptions)
  filled = fill_node-subscribed t (named r.state r.names) _ r.subscribed

  pub next-IsSilent : IsSilent next
  next-IsSilent = record {
    stream = _;
    found = refl;
    nothing = s.nothing;
    queue = refl;
    open_still = s.open_still;
  }

  pub next-IsResumed : (u : String) → IsResumed c u → IsResumed next u
  next-IsResumed u k = elim (Bool-cases (t == u)) [
    | inl e ↦ subst (IsResumed next) ((eq_iff t u).0 e) (record {
      state = _;
      names = r.names;
      found = put_self c.api_state t _;
      subscribed = filled.0;
      unpaused = ground (arith, filled.1, r.unpaused);
      own_type = ap (λ (x : Summary). x.type_url) filled.3 ∙ r.own_type;
      live = ap (λ ps. watched c.heap ps) filled.2 ∙ r.live;
    })
    | inr e ↦ record {
      state = k.state;
      names = k.names;
      found = ground (arith, e, k.found);
      subscribed = k.subscribed;
      unpaused = k.unpaused;
      own_type = k.own_type;
      live = k.live;
    }
  ]

  pub types-next : types next ≡ types c ++ t ∷ []
  types-next =
      map-append (λ (x : DiscoveryRequest). x.type_url) s.stream.written _
      ∙ ap (λ u. map (λ (x : DiscoveryRequest). x.type_url) s.stream.written ++ u ∷ [])
          (ap (λ (x : Summary). x.type_url) filled.3 ∙ r.own_type)
      ∙ ap
          (λ (o : Option Stream).
            map (λ (x : DiscoveryRequest). x.type_url) (stream_written o) ++ t ∷ [])
          (sym s.found)

  again_now : again c t ≡ asking t r.state r.names
  again_now = again-found c t r.state r.names r.found r.live

  again_self : again next t ≡ again c t
  again_self =
      again-found next t _ r.names (put_self c.api_state t _)
        (ap (λ ps. watched c.heap ps) filled.2 ∙ r.live)
      ∙ ap
          (λ (x : Summary). record {
            type_url = t;
            version_info = x.version_info;
            response_nonce = x.response_nonce;
            resource_names = add_names [] r.names;
          })
          filled.3
      ∙ sym again_now

  -- Before and after the request, every type asks for the same.
  pub again-next : (u : String) → IsResumed c u → again next u ≡ again c u
  again-next u k = elim (Bool-cases (t == u)) [
    | inl e ↦ subst (λ v. again next v ≡ again c v) ((eq_iff t u).0 e) again_self
    | inr e ↦ ap (again_in c.heap u) (put_miss c.api_state t u _ e)
  ]

  pub summaries-next : summaries next ≡ summaries c ++ again c t ∷ []
  summaries-next =
      map-append summary s.stream.written _
      ∙ ap (λ x. map summary s.stream.written ++ x ∷ [])
          (filled.3
            ∙ ap (λ u. record (asking t r.state r.names) { type_url = u }) r.own_type
            ∙ sym again_now)
      ∙ ap (λ (o : Option Stream). map summary (stream_written o) ++ again c t ∷ []) (sym s.found)
