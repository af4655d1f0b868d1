-- ===== src/Client/Sessions/Effects.antt =====
-- AdsClient.h and AdsClient.cpp: what the operations do to the watches in memory.
use xds_client.Base.{
  ℕ, suc, String, ◌&&◌, Option, none, some, List, [], ◌∷◌, ◌≡◌, refl, sym, ap, ◌∙◌, inl, inr, ok,
  after-returns, ok-injective, store, insert_all, Bool-cases, Option-cases, arith, fun_ext,
}
use xds_client.Wire.{DiscoveryResponse}
use xds_client.Client.State.{AdsClient, Watcher, set_api, clear_nonce}
use xds_client.Client.Requests.{
  queue_discovery_request, accept_response, on_discovery_response, drain_requests,
}
use xds_client.Client.Streams.{shutdown_ended, on_stream_established, shutdown}
use xds_client.Client.Watches.{add_watch}
use xds_client.Client.Watching.{new_watch, watching, new_watcher_lem}
use xds_client.Client.Loop.{is_empty}
use xds_client.Client.Loop.Answer.{
  noted, settled, accept_response_lem, on_discovery_response-known, on_discovery_response-unknown,
}
use xds_client.Client.Loop.Entry.{api_state_for-rest}
use xds_client.Client.Steps.Established.{established-none, opened, on_stream_established-Reach}
use xds_client.Client.Sessions.{IsSound, Call, watch, update, destroy}
use xds_client.Client.Sessions.Loops.{Keeps, room, Reach-Keeps}
use xds_client.Client.Sessions.Idle.{IsSound-Keeps, queue-Keeps}
use xds_client.Client.Sessions.Added.{added, added_rest, added-IsSound}
use xds_client.Client.Sessions.Calls.{set_api-IsSound, opened-IsSound}

-- What a client promises: the watches that there are, and the address of the next.
abbrev pub Table : Type 0
Table = (ℕ → Option Watcher) × ℕ

abbrev pub table : AdsClient → Table
table c = (c.heap, c.next_watcher)

-- What a call does to them.
abbrev pub effect : Call → Table → Table
effect (watch t resources) (heap, next) = (store heap next (some (new_watch resources t)), suc next)
effect (update p resources) (heap, next) = (
  elim (heap p) [
    | none ↦ heap
    | some w ↦ store heap p (some (record w { resources = insert_all resources [] }))
  ],
  next,
)
effect (destroy p) (heap, next) = (store heap p none, next)
effect _ m = m

abbrev pub effects : List Call → Table → Table
effects [] m = m
effects (call ∷ calls) m = effects calls (effect call m)

pub table_ext :
    (c : AdsClient) (heap : ℕ → Option Watcher) (next : ℕ)
    → c.heap ≡ heap
    → c.next_watcher ≡ next
    → table c ≡ (heap, next)
table_ext c heap next h k = cc

pub Keeps-table :
    (view heap : ℕ → Option Watcher) (next bound : ℕ) (c : AdsClient)
    → Keeps view heap next bound c
    → table c ≡ (heap, next)
Keeps-table view heap next bound c k = table_ext c heap next k.memory k.address

pub queue-table :
    (f : ℕ) (t : String) (c d : AdsClient)
    → queue_discovery_request (drain_requests f) t c ≡ ok d
    → IsSound c
    → table d ≡ table c
queue-table f t c d run s =
    Keeps-table c.heap c.heap c.next_watcher (room c) d
      (queue-Keeps c.heap c.heap c.next_watcher (room c) f t c d run (IsSound-Keeps c s))

pub respond-table :
    (f : ℕ) (m : DiscoveryResponse) (c d : AdsClient)
    → on_discovery_response (drain_requests f) m c ≡ ok d
    → IsSound c
    → table d ≡ table c
respond-table f m c d h s = elim (Option-cases (c.api_state m.type_url)) [
  | inl e ↦
      ap table
        (sym (ok-injective (sym (on_discovery_response-unknown (drain_requests f) m c e) ∙ h)))
  | inr (a, e) ↦
      let run : accept_response (drain_requests f) m a c ≡ ok d =
        sym (on_discovery_response-known (drain_requests f) m a c e) ∙ h in
      let either = accept_response_lem (drain_requests f) m a c in
      elim (Bool-cases (is_empty a.watches && is_empty m.resources)) [
        | inl k ↦
            let same : ok (set_api m.type_url (settled m a) c) ≡ ok d = cc (either, k, run) in
            ap table (sym (ok-injective same))
        | inr k ↦
            queue-table f m.type_url (set_api m.type_url (noted m a) c) d (cc (either, k, run))
              (set_api-IsSound m.type_url a (noted m a) c e refl refl refl refl refl s)
      ]
]

pub establish-table :
    (f : ℕ) (connected : Option (List DiscoveryResponse)) (c d : AdsClient)
    → on_stream_established f connected c ≡ ok d
    → IsSound c
    → table d ≡ table c
unfolding clear_nonce
establish-table f none c d h s = ap table (sym (established-none f c d h))
establish-table f (some messages) c d h s =
    let start : AdsClient = opened messages c in
    Keeps-table start.heap start.heap start.next_watcher (room start) d (
      Reach-Keeps start.heap start.heap start.next_watcher (room start) start d
        (on_stream_established-Reach f messages c d h)
        (IsSound-Keeps start (opened-IsSound messages c s)))

pub shutdown-table : (c d : AdsClient) → shutdown c ≡ ok d → table d ≡ table c
shutdown-table c d h = ap table (sym (shutdown_ended c d h).2)

pub add_watch-table :
    (f : ℕ) (t : String) (resources : List String) (c d : AdsClient) (p : ℕ)
    → add_watch f t resources c ≡ ok (p, d)
    → IsSound c
    → table d ≡ effect (watch t resources) (table c)
unfolding add_watch
add_watch-table f t resources c d p h s =
    let (c2, run, e) =
      after-returns (λ (x : AdsClient). ok (c.next_watcher, x))
        (queue_discovery_request (drain_requests f) t (added t resources c s))
        (rw (new_watcher_lem resources t c) at h) in
    ap (λ (x : ℕ × AdsClient). table x.1) (sym (ok-injective e))
    ∙ queue-table f t (added t resources c s) c2 run (added-IsSound t resources c s)
    ∙ ap table (added_rest t resources c s)
    ∙ table_ext (watching resources t c)
        (store c.heap c.next_watcher (some (new_watch resources t))) (suc c.next_watcher)
        (fun_ext (λ q. ground (arith, ap (λ (x : AdsClient). x.heap q) (api_state_for-rest t c))))
        refl
