-- ===== src/Client/Sessions/Refined.antt =====
-- AdsClient.h, AdsClient.cpp and Watcher.h: the client as a table of watches.

use xds_client.Base.{
  ℕ, String, Bool, Option, none, some, List, [], ◌∷◌, ◌≡◌, refl, sym, ap, ◌∙◌, ok, after-returns,
  ok-injective, store, insert_all,
}
use xds_client.Client.State.{AdsClient, Watcher, new_client, set_channel}
use xds_client.Client.Watches.{
  deref, erase_watch, update_resources, request_unless_empty, delete_watcher, update_watcher,
  add_watch,
}
use xds_client.Client.Unwatching.{update_resources-found}
use xds_client.Client.Sessions.{
  IsSound, Call, connect, establish, request, respond, watch, update, destroy, stop, perform,
  perform_all,
}
use xds_client.Client.Sessions.Loops.{room}
use xds_client.Client.Sessions.Watches.{erased-Unlisted, Unlisted-request, relisted-IsSound}
use xds_client.Client.Sessions.Calls.{new_client-IsSound, perform-IsSound}
use xds_client.Client.Sessions.Effects.{
  Table, table, effect, effects, Keeps-table, queue-table, respond-table, establish-table,
  shutdown-table, add_watch-table,
}

delete_watcher-table :
    (f p : ℕ) (c d : AdsClient)
    → delete_watcher f p c ≡ ok d
    → IsSound c
    → table d ≡ effect (destroy p) (table c)
unfolding delete_watcher
delete_watcher-table f p c d h s =
    let (v, dv, h1) = after-returns _ (deref p c) h in
    let (c1, erased, h2) = after-returns _ (erase_watch p c) h1 in
    let (c2, asked, h3) = after-returns _ (request_unless_empty f v c1) h2 in
    let (w, hw, u) = erased-Unlisted p c c1 s erased in
    let later = Unlisted-request p f w v c.heap c.next_watcher (room c) c1 c2 asked u in
    ap table (sym (ok-injective h3))
    ∙ ap (λ (m : Table). effect (destroy p) m)
        (Keeps-table (store c.heap p none) c.heap c.next_watcher (room c) c2 later.keeps)

update_effect :
    (p : ℕ) (resources : List String) (w : Watcher) (heap : ℕ → Option Watcher) (next : ℕ)
    → heap p ≡ some w
    → effect (update p resources) (heap, next)
      ≡ (store heap p (some (record w { resources = insert_all resources [] })), next)
update_effect p resources w heap next h = rw h refl

update_watcher-table :
    (f p : ℕ) (resources : List String) (c d : AdsClient)
    → update_watcher f p resources c ≡ ok d
    → IsSound c
    → table d ≡ effect (update p resources) (table c)
unfolding update_watcher
update_watcher-table f p resources c d h s =
    let (v, dv, h1) = after-returns _ (deref p c) h in
    let (c1, erased, h2) = after-returns _ (erase_watch p c) h1 in
    let (c2, asked, h3) = after-returns _ (request_unless_empty f v c1) h2 in
    let (c3, updated, h4) = after-returns _ (update_resources p resources c2) h3 in
    let (w, hw, u) = erased-Unlisted p c c1 s erased in
    let later = Unlisted-request p f w v c.heap c.next_watcher (room c) c1 c2 asked u in
    let (w', a', hw', _, e) = update_resources-found p resources c2 c3 updated in
    queue-table f v.type_url c3 d h4 (relisted-IsSound p resources w c c2 c3 s hw later updated)
    ∙ ap table (sym e)
    ∙ sym (update_effect p resources w' c2.heap c2.next_watcher hw')
    ∙ ap (λ (m : Table). effect (update p resources) m)
        (Keeps-table (store c.heap p none) c.heap c.next_watcher (room c) c2 later.keeps)

perform-table :
    (f : ℕ) (call : Call) (c d : AdsClient)
    → perform f call c ≡ ok d
    → IsSound c
    → table d ≡ effect call (table c)
unfolding set_channel
perform-table f connect c d h s = ap table (sym (ok-injective h))
perform-table f (establish connected) c d h s = establish-table f connected c d h s
perform-table f (request t) c d h s = queue-table f t c d h s
perform-table f (respond m) c d h s = respond-table f m c d h s
perform-table f (watch t resources) c d h s =
    let (made, run, e) = after-returns _ (add_watch f t resources c) h in
    ap table (sym (ok-injective e)) ∙ add_watch-table f t resources c made.1 made.0 run s
perform-table f (update p resources) c d h s = update_watcher-table f p resources c d h s
perform-table f (destroy p) c d h s = delete_watcher-table f p c d h s
perform-table f stop c d h s = shutdown-table c d h

perform_all-table :
    (f : ℕ) (calls : List Call) (c d : AdsClient)
    → perform_all f calls c ≡ ok d
    → IsSound c
    → table d ≡ effects calls (table c)
perform_all-table f [] c d h s = ap table (sym (ok-injective h))
perform_all-table f (call ∷ calls) c d h s =
    let (e, first, rest) = after-returns _ (perform f call c) h in
    perform_all-table f calls e d rest (perform-IsSound f call c e first s)
    ∙ ap (λ (m : Table). effects calls m) (perform-table f call c e first s)

new_client-table : (channel : Bool) → table (new_client channel) ≡ ((λ _. none), 0)
unfolding new_client
new_client-table channel = refl

-- The operations in `Call`, called on a new client one after the other and each returning, do to
-- the watches in memory what the same calls do to an empty table of watches: `addWatch` enters a
-- watch with its names, as an ordered set, at the next address, `update` gives the watch at its
-- address new names, the destructor takes it out, and nothing else that the client does, whatever
-- the server sends, changes a watch.
pub session-effects :
    (f : ℕ) (channel : Bool) (calls : List Call) (c : AdsClient)
    → perform_all f calls (new_client channel) ≡ ok c
    → (c.heap, c.next_watcher) ≡ effects calls ((λ _. none), 0)
session-effects f channel calls c h =
    perform_all-table f calls (new_client channel) c h (new_client-IsSound channel)
    ∙ ap (λ (m : Table). effects calls m) (new_client-table channel)
