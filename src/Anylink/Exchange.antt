-- ===== src/Anylink/Exchange.antt =====
-- grpc/manager/AdsManager.cpp: what `startClient` writes, and what it hands to the subscriptions.
use xds_client.Base.{
  String, Bool, true, false, Option, none, some, List, [], ◌∷◌, ◌++◌, ◌≡◌, refl, ok, fault,
  null_subscription, arith, All, inl, inr, Option-cases,
}
use xds_client.Wire.{Node, DiscoveryRequest, DiscoveryResponse}
use xds_client.Anylink.Subscriptions.{Subscription, type_url, make_request}
use xds_client.Anylink.Manager.{
  AdsManager, subscription_at, write_rpc, init_subscribe, receive_ads, send_ack, exchange,
  exchange_all, default_response, start_client,
}

abbrev pub type_urls : List Subscription → List String
type_urls [] = []
type_urls (s ∷ ss) = type_url s ∷ type_urls ss

-- The names of resources that a subscription asks for.
abbrev pub sample_names : Subscription → List String
sample_names Subscription.cluster = []
sample_names Subscription.listener = []
sample_names Subscription.endpoint = "outbound|80||gateway-test.default.svc.cluster.local" ∷ []
sample_names Subscription.route = "80" ∷ []

-- A request for the resources of a subscription, which names the version and nonce of a message.
abbrev pub asking : Node → Subscription → DiscoveryResponse → DiscoveryRequest
asking node s p = record {
  version_info = p.version_info;
  node = some node;
  resource_names = sample_names s;
  type_url = type_url s;
  response_nonce = p.nonce;
  error_detail = none;
}

-- What is written: for each subscription a first request, and the acknowledgement of the message
-- that comes next, whatever its type; without a message, the first request once more.
abbrev pub conversation : Node → List Subscription → List DiscoveryResponse → List DiscoveryRequest
conversation node [] ps = []
conversation node (s ∷ ss) [] =
    asking node s default_response ∷ asking node s default_response ∷ conversation node ss []
conversation node (s ∷ ss) (p ∷ ps) =
    asking node s default_response ∷ asking node s p ∷ conversation node ss ps

-- Some message among the first ones, as many as there are subscriptions, has none of its type.
abbrev pub strays :
    (String → Option Subscription) → List Subscription → List DiscoveryResponse → Bool
strays table [] ps = false
strays table (s ∷ ss) [] = false
strays table (s ∷ ss) (p ∷ ps) = elim (table p.type_url) [
  | none ↦ true
  | some _ ↦ strays table ss ps
]

-- The messages that are handed on, each with the subscription of its own type.
abbrev pub deliveries :
    (String → Option Subscription)
    → List Subscription
    → List DiscoveryResponse
    → List (Subscription × DiscoveryResponse)
deliveries table [] ps = []
deliveries table (s ∷ ss) [] = []
deliveries table (s ∷ ss) (p ∷ ps) = elim (table p.type_url) [
  | none ↦ []
  | some t ↦ (t, p) ∷ deliveries table ss ps
]

abbrev pub Registered : (String → Option Subscription) → List Subscription → Type 0
Registered table ss = All (λ s. table (type_url s) ≡ some s) ss

abbrev pub written_by : AdsManager → List DiscoveryRequest
written_by m = elim m.rpc [ none ↦ [] | some st ↦ st.written ]

make_request-asking :
    (s : Subscription) (node : Node) → make_request s node ≡ asking node s default_response
unfolding make_request
make_request-asking Subscription.cluster node = refl
make_request-asking Subscription.listener node = refl
make_request-asking Subscription.endpoint node = refl
make_request-asking Subscription.route node = refl

-- A manager in the midst of a call.
abbrev calling :
    AdsManager
    → List DiscoveryResponse
    → List DiscoveryRequest
    → List (Subscription × DiscoveryResponse)
    → AdsManager
calling m ps out heard = record m {
  rpc = some (record { inbound = ps; written = out; writes_done = false });
  heard = heard;
}

module _ (m : AdsManager) (out : List DiscoveryRequest)
    (heard : List (Subscription × DiscoveryResponse)) (s : Subscription)
    (known : m.subscribe_map (type_url s) ≡ some s) where
  exchange_heard :
      (p : DiscoveryResponse) (ps : List DiscoveryResponse) (t : Subscription)
      → m.subscribe_map p.type_url ≡ some t
      → exchange (type_url s) (calling m (p ∷ ps) out heard)
        ≡ ok (
            calling m ps
              ((out ++ asking m.local_info.node s default_response ∷ [])
                ++ asking m.local_info.node s p ∷ [])
              (heard ++ (t, p) ∷ []))
  unfolding exchange subscription_at init_subscribe write_rpc receive_ads send_ack
  exchange_heard p ps t e = ground (arith, make_request-asking s m.local_info.node)

  exchange_stray :
      (p : DiscoveryResponse) (ps : List DiscoveryResponse)
      → m.subscribe_map p.type_url ≡ none
      → exchange (type_url s) (calling m (p ∷ ps) out heard) ≡ fault null_subscription
  unfolding exchange subscription_at init_subscribe write_rpc receive_ads send_ack
  exchange_stray p ps e = ground (arith, make_request-asking s m.local_info.node)

-- The messages that stay unread.
abbrev unread : List Subscription → List DiscoveryResponse → List DiscoveryResponse
unread [] ps = ps
unread (s ∷ ss) [] = []
unread (s ∷ ss) (p ∷ ps) = unread ss ps

exchange_all-fault :
    (m : AdsManager) (ss : List Subscription) (ps : List DiscoveryResponse)
    (out : List DiscoveryRequest) (heard : List (Subscription × DiscoveryResponse))
    → Registered m.subscribe_map ss
    → strays m.subscribe_map ss ps ≡ true
    → exchange_all (type_urls ss) (calling m ps out heard) ≡ fault null_subscription
unfolding exchange_all
exchange_all-fault m [] ps out heard known lost = absurd (cc)
exchange_all-fault m (s ∷ ss) [] out heard known lost = absurd (cc)
exchange_all-fault m (s ∷ ss) (p ∷ ps) out heard known lost =
    elim (Option-cases (m.subscribe_map p.type_url)) [
      | inl e ↦ rw (exchange_stray m out heard s known.0 p ps e) refl
      | inr (t, e) ↦
          rw (exchange_heard m out heard s known.0 p ps t e)
            (exchange_all-fault m ss ps _ _ known.1 (ground arith))
    ]

-- The order of `urlList`.
abbrev pub all_four : List Subscription
all_four =
    Subscription.cluster ∷ Subscription.listener ∷ Subscription.endpoint ∷ Subscription.route ∷ []

-- For a manager that has the four subscriptions under their own types: if one of the first four
-- messages is of a type without a subscription, `startClient` dereferences the null pointer that
-- `subscribe_map` then holds for the type.
pub start_client-strays :
    (inbound : List DiscoveryResponse) (m : AdsManager)
    → Registered m.subscribe_map all_four
    → strays m.subscribe_map all_four inbound ≡ true
    → start_client inbound m ≡ fault null_subscription
unfolding start_client
start_client-strays inbound m known lost =
    exchange_all-fault m all_four inbound [] m.heard known lost
