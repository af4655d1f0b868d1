-- ===== src/Client/Watches.antt =====
-- Watcher.h, and `addWatch` of AdsClient.cpp.
use xds_client.Base.{
  ℕ, suc, String, true, Option, none, some, List, [], ◌∷◌, ◌++◌, store, beq, insert_all,
  if◌then◌else◌, Outcome, ok, fault, dangling, ◌>>=◌,
}
use xds_client.Client.State.{AdsClient, ApiState, Watcher, api_state_for, set_api}
use xds_client.Client.Requests.{queue_discovery_request, drain_requests}

-- A read of a watch through its pointer.
unfoldable pub deref : ℕ → AdsClient → Outcome Watcher
deref p c = elim (c.heap p) [ none ↦ fault dangling | some w ↦ ok w ]

-- The list that the reference `watches_` of a watch of type `t` is bound to.
unfoldable pub watch_list : String → AdsClient → Outcome ApiState
watch_list t c = elim (c.api_state t) [ none ↦ fault dangling | some a ↦ ok a ]

-- The list without the node that holds `p`, if there is one.
unfoldable pub unlink : ℕ → List ℕ → Option (List ℕ)
unlink p [] = none
unlink p (q ∷ ps) =
    let rest = unlink p ps in
    if beq p q then some ps else elim rest [ none ↦ none | some r ↦ some (q ∷ r) ]

-- `watches_.erase(iter_)`.
unfoldable pub erase_watch : ℕ → AdsClient → Outcome AdsClient
unfolding deref watch_list
erase_watch p c = deref p c >>= λ w. watch_list w.type_url c >>= λ a. elim (unlink p a.watches) [
  | none ↦ fault dangling
  | some ps ↦ ok (set_api w.type_url (record a { watches = ps }) c)
]

-- `updateResources`: the new set is built from the elements of the `std::set` that is passed, given
-- here as a list, and the watch goes to the front of its list.
unfoldable pub update_resources : ℕ → List String → AdsClient → Outcome AdsClient
unfolding deref watch_list
update_resources p resources c = deref p c >>= λ w. watch_list w.type_url c >>= λ a.
    ok (record (set_api w.type_url (record a { watches = p ∷ a.watches }) c) {
      heap = store c.heap p (some (record w { resources = insert_all resources [] }));
    })

-- The constructor of `Watcher`.
unfoldable pub new_watcher : List String → String → AdsClient → Outcome (ℕ × AdsClient)
unfolding update_resources
new_watcher resources t c =
    let p = c.next_watcher in
    let (a, c1) = api_state_for t c in
    update_resources p resources (record c1 {
      heap = store c1.heap p (some (record { resources = []; type_url = t }));
      next_watcher = suc p;
    })
    >>= λ c2. ok (p, c2)

-- `if (!resources_.empty()) parent_.queueDiscoveryRequest(type_url_)`.
unfoldable pub request_unless_empty : ℕ → Watcher → AdsClient → Outcome AdsClient
request_unless_empty f w c = elim w.resources [
  | [] ↦ ok c
  | _ ∷ _ ↦ queue_discovery_request (drain_requests f) w.type_url c
]

-- The destructor of `Watcher`; then the memory is gone.
unfoldable pub delete_watcher : ℕ → ℕ → AdsClient → Outcome AdsClient
unfolding erase_watch request_unless_empty deref
delete_watcher f p c = deref p c >>= λ w. erase_watch p c >>= λ c1.
    request_unless_empty f w c1 >>= λ c2. ok (record c2 { heap = store c2.heap p none })

-- `Watcher::update`.
unfoldable pub update_watcher : ℕ → ℕ → List String → AdsClient → Outcome AdsClient
unfolding erase_watch request_unless_empty deref update_resources
update_watcher f p resources c = deref p c >>= λ w. erase_watch p c >>= λ c1.
    request_unless_empty f w c1 >>= λ c2. update_resources p resources c2 >>= λ c3.
    queue_discovery_request (drain_requests f) w.type_url c3

-- The middle of `addWatch`: a type is subscribed to on its first watch.
unfoldable pub subscribe : String → AdsClient → AdsClient
subscribe t c =
    let (a, c1) = api_state_for t c in
    if a.subscribed
    then c1
    else (record (set_api t
        (record a { request = record a.request { type_url = t }; subscribed = true }) c1) {
          subscriptions = c1.subscriptions ++ t ∷ [];
        })

unfoldable pub add_watch : ℕ → String → List String → AdsClient → Outcome (ℕ × AdsClient)
unfolding new_watcher subscribe
add_watch f t resources c = new_watcher resources t c >>= λ made.
    queue_discovery_request (drain_requests f) t (subscribe t made.1) >>= λ c2. ok (made.0, c2)
