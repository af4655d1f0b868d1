-- ===== src/Client/Sessions/Requested.antt =====
-- AdsClient.h, AdsClient.cpp and Watcher.h: the names that a client asks for, and those that its
-- watches hold.
use mathlib.Core.Path.{subst}
use mathlib.Core.List.{append-nil, append_assoc}
use xds_client.Base.{
  ℕ, String, Bool, Option, none, some, List, [], ◌++◌, ◌≡◌, ◌⊎◌, refl, sym, ap, ◌∙◌, inl, inr, ok,
  after-returns, ok-injective, store, All, All-append, All-mono, List-cases, arith, fun_ext,
  insert_all,
}
use xds_client.Wire.{DiscoveryRequest}
use xds_client.Client.State.{AdsClient, Watcher, set_channel, new_client}
use xds_client.Client.Requests.{queue_discovery_request, drain_requests}
use xds_client.Client.Watches.{
  deref, erase_watch, update_resources, request_unless_empty, delete_watcher, update_watcher,
  add_watch,
}
use xds_client.Client.Watching.{queue-heap}
use xds_client.Client.Unwatching.{erase_watch-found, update_resources-found}
use xds_client.Client.Loop.{written}
use xds_client.Client.Sessions.{
  IsSound, Call, connect, establish, request, respond, watch, update, destroy, stop, perform,
  perform_all,
}
use xds_client.Client.Sessions.Loops.{room}
use xds_client.Client.Sessions.Watches.{
  Unlisted, erased-Unlisted, Unlisted-request, relisted-IsSound,
}
use xds_client.Client.Sessions.Erasing.{Covers-erased}
use xds_client.Client.Sessions.Names.{Serves}
use xds_client.Client.Sessions.Wire.{Writes, queue-Writes}
use xds_client.Client.Sessions.Written.{
  Writes-none, request-Writes, respond-Writes, establish-Writes, watch-Writes, stop-Writes,
}
use xds_client.Client.Sessions.Calls.{session-IsSound}

-- The request of the destructor and of `update`, while the watch is in no list.
unlisted-Writes :
    (f p : ℕ) (w v : Watcher) (heap : ℕ → Option Watcher) (next bound : ℕ)
    (before : List DiscoveryRequest) (c d : AdsClient)
    → request_unless_empty f v c ≡ ok d
    → Unlisted p w heap next bound c
    → written c ≡ before
    → Writes (store heap p none) before d
unfolding request_unless_empty
unlisted-Writes f p w v heap next bound before c d h u e = elim (List-cases v.resources) [
  | inl k ↦
      let same : ok c ≡ ok d = ground arith in
      ([], ap written (sym (ok-injective same)) ∙ e ∙ sym (append-nil before), tt)
  | inr (x, xs, k) ↦
      let run : queue_discovery_request (drain_requests f) v.type_url c ≡ ok d = ground arith in
      queue-Writes (store heap p none) heap next bound before (Covers-erased p heap) f v.type_url c
        d run u.keeps ([], e ∙ sym (append-nil before), tt)
]

erased_written : (p : ℕ) (c d : AdsClient) → erase_watch p c ≡ ok d → written d ≡ written c
erased_written p c d h =
    let (w, a, ps, hw, ha, found, e) = erase_watch-found p c d h in ap written (sym e)

destroy-Writes :
    (f p : ℕ) (c d : AdsClient)
    → delete_watcher f p c ≡ ok d
    → IsSound c
    → Writes d.heap (written c) d
unfolding delete_watcher
destroy-Writes f p c d h s =
    let (v, dv, h1) = after-returns _ (deref p c) h in
    let (c1, erased, h2) = after-returns _ (erase_watch p c) h1 in
    let (c2, asked, h3) = after-returns _ (request_unless_empty f v c1) h2 in
    let (w, hw, u) = erased-Unlisted p c c1 s erased in
    let writes =
      unlisted-Writes f p w v c.heap c.next_watcher (room c) (written c) c1 c2 asked u
        (erased_written p c c1 erased) in
    let later = Unlisted-request p f w v c.heap c.next_watcher (room c) c1 c2 asked u in
    subst (λ (x : AdsClient). Writes x.heap (written c) x) (ok-injective h3)
      (subst (λ h. Writes (store h p none) (written c) c2) (sym later.keeps.memory) writes)

-- What the watch at `p` held before an update is not in the memory `heap`.
store_again :
    (heap : ℕ → Option Watcher) (p : ℕ) (w : Watcher)
    → store (store heap p (some w)) p none ≡ store heap p none
store_again heap p w = fun_ext (λ q. ground arith)

update-Writes :
    (f p : ℕ) (resources : List String) (c d : AdsClient)
    → update_watcher f p resources c ≡ ok d
    → IsSound c
    → (rs : List DiscoveryRequest) × (written d ≡ written c ++ rs)
      × All (λ r. Serves d.heap r ⊎ Serves (store d.heap p none) r) rs
unfolding update_watcher
update-Writes f p resources c d h s =
    let (v, dv, h1) = after-returns _ (deref p c) h in
    let (c1, erased, h2) = after-returns _ (erase_watch p c) h1 in
    let (c2, asked, h3) = after-returns _ (request_unless_empty f v c1) h2 in
    let (c3, updated, h4) = after-returns _ (update_resources p resources c2) h3 in
    let (w, hw, u) = erased-Unlisted p c c1 s erased in
    let later = Unlisted-request p f w v c.heap c.next_watcher (room c) c1 c2 asked u in
    let (rs, wrote, good) =
      unlisted-Writes f p w v c.heap c.next_watcher (room c) (written c) c1 c2 asked u
        (erased_written p c c1 erased) in
    let (w', a', _, _, e) = update_resources-found p resources c2 c3 updated in
    let (qs, wrote_more, good_more) =
      request-Writes f v.type_url (written c2) c3 d h4
        (relisted-IsSound p resources w c c2 c3 s hw later updated) (ap written (sym e)) in
    let same : store d.heap p none ≡ store c.heap p none =
      ap (λ x. store x p none)
        (queue-heap f v.type_url c3 d h4 ∙ ap (λ (x : AdsClient). x.heap) (sym e))
      ∙ store_again c2.heap p (record w' { resources = insert_all resources [] })
      ∙ ap (λ x. store x p none) later.keeps.memory in
    (
      rs ++ qs,
      wrote_more ∙ ap (λ l. l ++ qs) wrote ∙ append_assoc (written c) rs qs,
      All-append (λ r. Serves d.heap r ⊎ Serves (store d.heap p none) r) rs qs
          (All-mono (Serves (store c.heap p none)) _ rs
            (λ r g. inr (subst (λ x. Serves x r) (sym same) g)) good)
          (All-mono (Serves d.heap) _ qs (λ r g. inl g) good_more),
    )

-- What is on the stream when the call starts to write.
abbrev pub written_before : Call → AdsClient → List DiscoveryRequest
written_before (establish connected) c = []
written_before _ c = written c

-- The memory while `update` has its watch in no list.
abbrev pub updating : Call → (ℕ → Option Watcher) → ℕ → Option Watcher
updating (update p resources) heap = store heap p none
updating _ heap = heap

-- The requests of a call, each for one of the two memories.
abbrev pub Requested : Call → AdsClient → AdsClient → Type 0
Requested call c d =
    (rs : List DiscoveryRequest) × (written d ≡ written_before call c ++ rs)
    × All (λ r. Serves d.heap r ⊎ Serves (updating call d.heap) r) rs

plain :
    (call : Call) (before : List DiscoveryRequest) (d : AdsClient)
    → Writes d.heap before d
    → (rs : List DiscoveryRequest) × (written d ≡ before ++ rs)
      × All (λ r. Serves d.heap r ⊎ Serves (updating call d.heap) r) rs
plain call before d (rs, e, good) = (rs, e, All-mono (Serves d.heap) _ rs (λ r g. inl g) good)

call-Requested :
    (f : ℕ) (call : Call) (c d : AdsClient)
    → IsSound c
    → perform f call c ≡ ok d
    → Requested call c d
unfolding set_channel
call-Requested f connect c d s h =
    plain connect (written c) d (Writes-none d.heap c d (ap written (sym (ok-injective h))))
call-Requested f (establish connected) c d s h =
    plain (establish connected) [] d (establish-Writes f connected c d h s)
call-Requested f (request t) c d s h =
    plain (request t) (written c) d (request-Writes f t (written c) c d h s refl)
call-Requested f (respond m) c d s h = plain (respond m) (written c) d (respond-Writes f m c d h s)
call-Requested f (watch t resources) c d s h =
    let (made, run, e) = after-returns _ (add_watch f t resources c) h in
    plain (watch t resources) (written c) d (
      subst (λ (x : AdsClient). Writes x.heap (written c) x) (ok-injective e)
        (watch-Writes f t resources c made.1 made.0 run s))
call-Requested f (update p resources) c d s h = update-Writes f p resources c d h s
call-Requested f (destroy p) c d s h = plain (destroy p) (written c) d (destroy-Writes f p c d h s)
call-Requested f stop c d s h = plain stop (written c) d (stop-Writes d.heap c d h)

-- When a call of an operation in `Call` returns, after any such calls on a new client that have
-- returned: what it has written on the stream is some requests behind those that were there (on a
-- new stream, behind none). Each of them names, each name once, exactly the names that the watches
-- of one type hold which are in memory after the call, or, when the call is an update, which are
-- there beside the updated watch; and its type is that one, or it names nothing.
pub session_requests :
    (f g : ℕ) (channel : Bool) (calls : List Call) (call : Call) (c d : AdsClient)
    → perform_all g calls (new_client channel) ≡ ok c
    → perform f call c ≡ ok d
    → (rs : List DiscoveryRequest) × (written d ≡ written_before call c ++ rs)
      × All (λ r. Serves d.heap r ⊎ Serves (updating call d.heap) r) rs
session_requests f g channel calls call c d run h =
    call-Requested f call c d (session-IsSound g channel calls c run) h
