-- ===== src/Client/Watching.antt =====
-- Watcher.h and `addWatch` of AdsClient.cpp: what becomes of the list of watches and of the memory.
use mathlib.Core.Path.{subst}
use xds_client.Base.{
  ℕ, suc, String, true, some, Option, List, [], ◌∷◌, ◌≡◌, refl, sym, ap, ◌∙◌, ok, after-returns,
  ok-injective, arith, inl, inr, Bool-cases, store, beq_iff, eq_refl, put_self, insert_all,
}
use xds_client.Client.State.{AdsClient, ApiState, Watcher, api_state_for, set_api}
use xds_client.Client.Requests.{queue_discovery_request, drain_requests}
use xds_client.Client.Watches.{update_resources, new_watcher, subscribe, add_watch}
use xds_client.Client.Loop.Entry.{api_state_for-rest, api_state_for-found}
use xds_client.Client.Steps.{
  Step, Reach, Reach-keeps, allocate, pend, push, pop, send, ignore, note, settle,
}
use xds_client.Client.Steps.Drains.{queue_discovery_request-Reach}
use xds_client.Client.Steps.Versions.{queue_discovery_request-Unacknowledged}

Step-heap : (h : ℕ → Option Watcher) (c d : AdsClient) → Step c d → c.heap ≡ h → d.heap ≡ h
Step-heap h _ _ (allocate t c) e = ap (λ (x : AdsClient). x.heap) (api_state_for-rest t c) ∙ e
Step-heap h _ _ (pend t a c ha p) e = e
Step-heap h _ _ (push t q c k) e = e
Step-heap h _ _ (pop t q c k) e = e
Step-heap h _ _ (send t a names st c s hs ha hn) e = e
Step-heap h _ _ (ignore st m rest c hs hi) e = e
Step-heap h _ _ (note st m rest a c hs hi ha) e = e
Step-heap h _ _ (settle st m rest a c hs hi ha w k) e = e

pub Reach-heap : (c d : AdsClient) → Reach c d → d.heap ≡ c.heap
Reach-heap c d reached = Reach-keeps (λ x. x.heap ≡ c.heap) (Step-heap c.heap) c reached refl

-- Requests and answers leave the watches in memory as they are.
pub queue-heap :
    (f : ℕ) (t : String) (c d : AdsClient)
    → queue_discovery_request (drain_requests f) t c ≡ ok d
    → d.heap ≡ c.heap
queue-heap f t c d run = Reach-heap c d (queue_discovery_request-Reach f t c d run)

abbrev pub new_watch : List String → String → Watcher
new_watch resources t = record { resources = insert_all resources []; type_url = t }

-- The client with the memory of a new watch.
abbrev pub blank : String → AdsClient → AdsClient
blank t c =
    let c1 = (api_state_for t c).1 in
    record c1 {
      heap = store c1.heap c.next_watcher (some (record { resources = []; type_url = t }));
      next_watcher = suc c.next_watcher;
    }

-- The client with a new watch at the front of the list of its type.
abbrev pub watching : List String → String → AdsClient → AdsClient
watching resources t c =
    let a = (api_state_for t c).0 in
    record (set_api t (record a { watches = c.next_watcher ∷ a.watches }) (blank t c)) {
      heap = store (blank t c).heap c.next_watcher (some (new_watch resources t));
    }

pub update_resources-eq-ok :
    (p : ℕ) (resources : List String) (w : Watcher) (a : ApiState) (c : AdsClient)
    → c.heap p ≡ some w
    → c.api_state w.type_url ≡ some a
    → update_resources p resources c
      ≡ ok (record (set_api w.type_url (record a { watches = p ∷ a.watches }) c) {
        heap = store c.heap p (some (record w { resources = insert_all resources [] }));
      })
unfolding update_resources
update_resources-eq-ok p resources w a c hp ha = ground arith

pub store_self : (heap : ℕ → Option Watcher) (p : ℕ) (o : Option Watcher) → store heap p o p ≡ o
store_self heap p o = ground (arith, beq_iff p p)

pub new_watcher_lem :
    (resources : List String) (t : String) (c : AdsClient)
    → new_watcher resources t c ≡ ok (c.next_watcher, watching resources t c)
unfolding new_watcher
new_watcher_lem resources t c = rw (
    update_resources-eq-ok c.next_watcher resources (record { resources = []; type_url = t })
      (api_state_for t c).0 (blank t c) (store_self (api_state_for t c).1.heap c.next_watcher _)
      (api_state_for-found t c))

-- The state of the type in a client that has subscribed to it.
subscribe_state :
    (t : String) (a : ApiState) (c : AdsClient)
    → c.api_state t ≡ some a
    → (b : ApiState) × ((subscribe t c).api_state t ≡ some b)
      × (b.watches ≡ a.watches)
      × (b.subscribed ≡ true)
unfolding subscribe api_state_for
subscribe_state t a c e = elim (Bool-cases a.subscribed) [
  | inl s ↦ (a, ground (arith, eq_refl t), refl, s)
  | inr s ↦ (
    record a { request = record a.request { type_url = t }; subscribed = true },
    ground (arith, eq_refl t),
    refl,
    refl,
  )
]

subscribe-heap : (t : String) (c : AdsClient) → (subscribe t c).heap ≡ c.heap
unfolding subscribe api_state_for
subscribe-heap t c = ground arith

-- When addWatch returns, its watch is new in memory, with the given names, and stands at the front of
-- the list of its type, before the watches that were there; the type is subscribed to.
pub add_watch_added :
    (f : ℕ) (t : String) (resources : List String) (c d : AdsClient) (p : ℕ)
    → add_watch f t resources c ≡ ok (p, d)
    → (p ≡ c.next_watcher)
      × (d.heap p ≡ some (record { resources = insert_all resources []; type_url = t }))
      × ((b : ApiState) × (d.api_state t ≡ some b)
          × (b.watches ≡ p ∷ (api_state_for t c).0.watches)
          × (b.subscribed ≡ true))
unfolding add_watch
add_watch_added f t resources c d p h =
    let made = subscribe t (watching resources t c) in
    let (c2, run, e) =
      after-returns (λ (x : AdsClient). ok (c.next_watcher, x))
        (queue_discovery_request (drain_requests f) t made)
        (rw (new_watcher_lem resources t c) at h) in
    let (b, found, watches, subscribed) =
      subscribe_state t _ (watching resources t c) (put_self (api_state_for t c).1.api_state t _) in
    let (b', found', stays) = queue_discovery_request-Unacknowledged f t t made c2 b run found in
    let q = ok-injective e in
    (
      sym (ap (λ (x : ℕ × AdsClient). x.0) q),
      subst (λ (x : ℕ × AdsClient). x.1.heap x.0 ≡ some (new_watch resources t)) q
          (ap (λ (heap : ℕ → Option Watcher). heap c.next_watcher)
              (queue-heap f t made c2 run ∙ subscribe-heap t (watching resources t c))
            ∙ store_self (blank t c).heap c.next_watcher (some (new_watch resources t))),
      (
        b',
        ap (λ (x : AdsClient). x.api_state t) (sym (ap (λ (x : ℕ × AdsClient). x.1) q)) ∙ found',
        stays.0
            ∙ watches
            ∙ ap (λ n. n ∷ (api_state_for t c).0.watches) (ap (λ (x : ℕ × AdsClient). x.0) q),
        stays.2 subscribed,
      ),
    )
