-- ===== src/Client/Sessions.antt =====
-- AdsClient.h, AdsClient.cpp and Watcher.h: what holds of a client between the calls of its public
-- operations, whichever they are and in whatever order they come.
pub mod Lists
pub mod Loops
pub mod Idle
pub mod Memory
pub mod Added
pub mod Watches
pub mod Requests
pub mod Erasing
pub mod Names
pub mod Wire
pub mod Written
pub mod Requested
pub mod Effects
pub mod Refined
pub mod Told
pub mod Follows
pub mod Resent
pub mod Telling
pub mod Safety
pub mod Examples
pub mod Calls
use xds_client.Base.{
  ℕ, suc, ◌≤◌, String, Bool, true, false, Option, none, some, List, [], ◌∷◌, ◌≡◌, ◌⊎◌, contains,
  beq, ◌==◌, if◌then◌else◌, Outcome, ok, ◌>>=◌,
}
use xds_client.Wire.{DiscoveryResponse}
use xds_client.Client.State.{AdsClient, ApiState, Watcher, new_api_state, new_client, set_channel}
use xds_client.Client.Requests.{queue_discovery_request, on_discovery_response, drain_requests}
use xds_client.Client.Streams.{on_stream_established, end_stream, shutdown}
use xds_client.Client.Watches.{add_watch, update_watcher, delete_watcher}
use xds_client.Client.Loop.{is_empty}

-- How often a watch stands in a list.
abbrev pub count : ℕ → List ℕ → ℕ
count p [] = 0
count p (q ∷ ps) = let rest = count p ps in if beq p q then suc rest else rest

-- How often it is to stand in the list of type `t`, for what is at its address.
abbrev pub places : Option Watcher → String → ℕ
places none t = 0
places (some w) t = if w.type_url == t then 1 else 0

-- The state that `apiStateFor` gives.
abbrev pub state_of : Option ApiState → ApiState
state_of none = new_api_state
state_of (some a) = a

-- The state of a type is in order: its list holds each live watch of the type once, and nothing else;
-- it is not paused and need not send the node; a type that is subscribed to has its name in its request and in the list of
-- subscriptions; and a type that is watched is subscribed to.
pub record Fits (heap : ℕ → Option Watcher) (subscriptions : List String) (t : String)
    (a : ApiState) : Type 0 where
  pub once : (p : ℕ) → count p a.watches ≡ places (heap p) t
  pub unpaused : a.pauses ≡ 0
  pub silent_node : a.must_send_node ≡ false
  pub named : a.subscribed ≡ true → a.request.type_url ≡ t
  pub listed : a.subscribed ≡ true → contains subscriptions t ≡ true
  pub asked : is_empty a.watches ≡ false → a.subscribed ≡ true

-- The client is in order between two calls: so is every state, no address is in use that is still
-- to be given out, and no request waits on a stream.
pub record IsSound (c : AdsClient) : Type 0 where
  pub states : (t : String) → Fits c.heap c.subscriptions t (state_of (c.api_state t))
  pub unused : (p : ℕ) → c.next_watcher ≤ p → c.heap p ≡ none
  pub idle : (c.stream ≡ none) ⊎ (c.request_queue ≡ some [])

-- A call of an operation that is open to others: all of the class but `apiStateFor`, which hands out
-- a state, and `AggregatedDiscoveryService` and `continueChat`, which talk on the stream by
-- themselves. A watch is destroyed by its owner; `respond` is a call of `onDiscoveryResponse` from
-- outside the reading loop.
pub data Call : Type 0 where
  connect : Call
  establish : Option (List DiscoveryResponse) → Call
  request : String → Call
  respond : DiscoveryResponse → Call
  watch : String → List String → Call
  update : ℕ → List String → Call
  destroy : ℕ → Call
  stop : Call

abbrev pub perform : ℕ → Call → AdsClient → Outcome AdsClient
perform f connect c = ok (set_channel c)
perform f (establish connected) c = on_stream_established f connected c
perform f (request t) c = queue_discovery_request (drain_requests f) t c
perform f (respond m) c = on_discovery_response (drain_requests f) m c
perform f (watch t resources) c = add_watch f t resources c >>= λ made. ok made.1
perform f (update p resources) c = update_watcher f p resources c
perform f (destroy p) c = delete_watcher f p c
perform f stop c = shutdown c

-- A session: the calls one after the other, each with the fuel `f`.
abbrev pub perform_all : ℕ → List Call → AdsClient → Outcome AdsClient
perform_all f [] c = ok c
perform_all f (call ∷ calls) c = perform f call c >>= λ d. perform_all f calls d
