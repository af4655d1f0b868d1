-- ===== src/Client/Loop/Send.antt =====
-- One request of AdsClient.cpp: `sendDiscoveryRequest` up to the first read.
use xds_client.Base.{
  ◌+◌, String, false, Option, none, some, List, [], ◌∷◌, ◌++◌, ◌≡◌, refl, ap, length, length-append,
  put, ok, arith,
}
use mathlib.Core.Path.{subst}
use xds_client.Wire.{Stream}
use xds_client.Client.State.{AdsClient, ApiState, api_state_for}
use xds_client.Client.Requests.{watched, add_names, fill_node, write, send_request}
use xds_client.Client.Loop.{
  stream_written, written, queued, profile, SameProfiles, SameProfiles-put, Ready,
  Ready-SameProfiles, Stays, AllKnown, IsKnown-some, live_names,
}

-- The state to be sent, with the names of its watches.
abbrev pub named : ApiState → List String → ApiState
named a names = record a { request = record a.request { resource_names = add_names [] names } }

-- The client after the request of type `t` is written.
abbrev pub sent : String → ApiState → List String → Stream → AdsClient → AdsClient
sent t a names st c =
    let (b, d) = fill_node t (named a names) c in
    record c {
      stream = some (record st { written = st.written ++ b.request ∷ [] });
      first_stream_request = false;
      subscriptions = d.subscriptions;
      api_state =
          put c.api_state t (record b { request = record b.request { error_detail = none } });
    }

pub fill_node-rest :
    (t : String) (a : ApiState) (c : AdsClient)
    → (fill_node t a c).1 ≡ record c { subscriptions = (fill_node t a c).1.subscriptions }
unfolding fill_node
fill_node-rest t a c = ground arith

pub profile-fill_node :
    (t : String) (a : ApiState) (c : AdsClient)
    → profile (some (fill_node t a c).0) ≡ profile (some a)
unfolding fill_node
profile-fill_node t a c = ground arith

-- With a stream and no dangling watch the request is written.
pub send_request-eq-ok :
    (t : String) (a : ApiState) (names : List String) (st : Stream) (c : AdsClient)
    → c.stream ≡ some st
    → c.api_state t ≡ some a
    → watched c.heap a.watches ≡ ok names
    → send_request t c ≡ ok (sent t a names st c)
unfolding send_request api_state_for write
send_request-eq-ok t a names st c hs ha hn = ground (arith, fill_node-rest t (named a names) c)

pub sent-Stays :
    (t : String) (a : ApiState) (names : List String) (st : Stream) (c : AdsClient)
    → c.stream ≡ some st
    → c.api_state t ≡ some a
    → Ready c
    → Stays c (sent t a names st c)
sent-Stays t a names st c hs ha r = record {
  ready =
      Ready-SameProfiles c (sent t a names st c) _ r.queue.0 same refl refl r.queue.1
        (subst (λ q. AllKnown c q) queue r.known) r;
  queue = refl;
  arriving = rw hs;
  shut = refl;
  same = same;
}
  where
    queue : queued c ≡ r.queue.0
    queue = rw r.queue.1

    same : SameProfiles c (sent t a names st c)
    same = SameProfiles-put c.api_state t a _ ha (profile-fill_node t (named a names) c)

pub wrote_one :
    (t : String) (a : ApiState) (names : List String) (st : Stream) (c : AdsClient)
    → c.stream ≡ some st
    → length (written (sent t a names st c)) ≡ length (written c) + 1
wrote_one t a names st c hs =
    omega (arith, length-append st.written _, ap length (ap stream_written hs))

-- A client that is ready writes the request at the front of its queue, and stays ready.
pub send_request-Stays :
    (t : String) (q : List String) (c : AdsClient)
    → Ready c
    → c.request_queue ≡ some (t ∷ q)
    → (d : AdsClient) × (send_request t c ≡ ok d)
      × Stays c d
      × (length (written d) ≡ length (written c) + 1)
send_request-Stays t q c r hq = (
  sent t a names st c,
  send_request-eq-ok t a names st c r.stream.1 ha (live_names c t a r ha).1,
  sent-Stays t a names st c r.stream.1 ha r,
  wrote_one t a names st c r.stream.1,
)
  where
    st : Stream
    st = r.stream.0

    front : AllKnown c (t ∷ q)
    front =
        subst (λ (o : Option (List String)). AllKnown c (elim o [ none ↦ [] | some q ↦ q ])) hq
          r.known

    a : ApiState
    a = (IsKnown-some (c.api_state t) front.0).0

    ha : c.api_state t ≡ some a
    ha = (IsKnown-some (c.api_state t) front.0).1

    names : List String
    names = (live_names c t a r ha).0
