-- ===== src/Client/Sessions/Telling.antt =====
-- AdsClient.cpp and Watcher.h: what the server has been told of a type when a call that asks for it
-- returns.
use mathlib.Core.Path.{subst}
use mathlib.Core.List.{append-nil}
use mathlib.Core.Option.{some-injective}
use xds_client.Base.{
  ℕ, String, Bool, true, false, Option, none, some, List, [], ◌≡◌, sym, ap, ◌∙◌, ok, after-returns,
  ok-injective, inl, inr, List-cases, arith,
}
use xds_client.Wire.{Stream}
use xds_client.Client.State.{AdsClient, Watcher, new_client}
use xds_client.Client.Requests.{queue_discovery_request, drain_requests}
use xds_client.Client.Watches.{
  deref, erase_watch, update_resources, request_unless_empty, update_watcher, add_watch,
}
use xds_client.Client.Watching.{new_watcher_lem, queue-heap}
use xds_client.Client.Unwatching.{deref-found, erase_watch-found, update_resources-found}
use xds_client.Client.Loop.{is_empty}
use xds_client.Client.Loop.Entry.{api_state_for-rest}
use xds_client.Client.Sessions.{
  state_of, IsSound, Call, connect, establish, request, respond, watch, update, destroy, stop,
  perform, perform_all,
}
use xds_client.Client.Sessions.Erasing.{live-listed}
use xds_client.Client.Sessions.Added.{added, added_rest, watching_rest, added-IsSound}
use xds_client.Client.Sessions.Calls.{session-IsSound}
use xds_client.Client.Sessions.Told.{Told, queue-Told}
use xds_client.Client.Sessions.Resent.{count-occupied, established-Told}
use xds_client.Client.Steps.{Reach-keeps}
use xds_client.Client.Steps.Drains.{queue_discovery_request-Reach}
use xds_client.Client.Sessions.Loops.{room}
use xds_client.Client.Sessions.Watches.{erased-Unlisted, Unlisted-request, relisted-IsSound}
use xds_client.Client.Sessions.Follows.{Follows, Step-Follows}
use xds_client.Client.Sessions.Effects.{Table, establish-table}

-- A watched type is subscribed to.
live-subscribed :
    (p : ℕ) (w : Watcher) (c : AdsClient)
    → IsSound c
    → c.heap p ≡ some w
    → (state_of (c.api_state w.type_url)).subscribed ≡ true
live-subscribed p w c s live =
    let (a, ha, stands) = live-listed p w c s live in
    (s.states w.type_url).asked
      (ap (λ o. is_empty (state_of o).watches) ha ∙ count-occupied p a.watches stands)

-- A request for a watched type.
request-Told :
    (f p : ℕ) (t : String) (w : Watcher) (st : Stream) (c d : AdsClient)
    → IsSound c
    → c.stream ≡ some st
    → c.shut_down ≡ false
    → queue_discovery_request (drain_requests f) t c ≡ ok d
    → d.heap p ≡ some w
    → w.type_url ≡ t
    → Told d.heap t d
request-Told f p t w st c d s hs open_still run live typed =
    let heap = queue-heap f t c d run in
    let here : c.heap p ≡ some w = ap (λ (h : ℕ → Option Watcher). h p) (sym heap) ∙ live in
    let subscribed =
      subst (λ u. (state_of (c.api_state u)).subscribed ≡ true) typed
        (live-subscribed p w c s here) in
    subst (λ h. Told h t d) (sym heap) (queue-Told c s f t st d hs open_still subscribed run)

watch-Told :
    (f p q : ℕ) (t : String) (resources : List String) (w : Watcher) (st : Stream) (c d : AdsClient)
    → IsSound c
    → c.stream ≡ some st
    → c.shut_down ≡ false
    → add_watch f t resources c ≡ ok (q, d)
    → d.heap p ≡ some w
    → w.type_url ≡ t
    → Told d.heap t d
unfolding add_watch
watch-Told f p q t resources w st c d s hs open_still h live typed =
    let (c2, run, e) =
      after-returns (λ (x : AdsClient). ok (c.next_watcher, x))
        (queue_discovery_request (drain_requests f) t (added t resources c s))
        (rw (new_watcher_lem resources t c) at h) in
    let same : c2 ≡ d = ap (λ (x : ℕ × AdsClient). x.1) (ok-injective e) in
    let rest = added_rest t resources c s in
    request-Told f p t w st (added t resources c s) d (added-IsSound t resources c s)
      (ap (λ (x : AdsClient). x.stream) rest ∙ (watching_rest t resources c s).0 ∙ hs)
      (ap (λ (x : AdsClient). x.shut_down) rest
        ∙ ap (λ (x : AdsClient). x.shut_down) (api_state_for-rest t c)
        ∙ open_still)
      (run ∙ ap ok same) live typed

-- The client has a stream and is not shut down.
abbrev pub IsOpen : AdsClient → Type 0
IsOpen c = ((st : Stream) × (c.stream ≡ some st)) × (c.shut_down ≡ false)

queue-IsOpen :
    (f : ℕ) (t : String) (c d : AdsClient)
    → queue_discovery_request (drain_requests f) t c ≡ ok d
    → IsOpen c
    → IsOpen d
queue-IsOpen f t c d run h =
    let on =
      Reach-keeps (Follows c) (Step-Follows c) c (queue_discovery_request-Reach f t c d run)
        (record {
          stream = h.0;
          open_still = h.1;
          more = ([], sym (append-nil c.subscriptions));
        }) in
    (on.stream, on.open_still)

request_unless_empty-IsOpen :
    (f : ℕ) (w : Watcher) (c d : AdsClient)
    → request_unless_empty f w c ≡ ok d
    → IsOpen c
    → IsOpen d
unfolding request_unless_empty
request_unless_empty-IsOpen f w c d h k = elim (List-cases w.resources) [
  | inl e ↦ let same : ok c ≡ ok d = ground arith in subst IsOpen (ok-injective same) k
  | inr (x, xs, e) ↦
      let run : queue_discovery_request (drain_requests f) w.type_url c ≡ ok d = ground arith in
      queue-IsOpen f w.type_url c d run k
]

update-Told :
    (f p q : ℕ) (resources : List String) (v w : Watcher) (c d : AdsClient)
    → IsSound c
    → IsOpen c
    → update_watcher f q resources c ≡ ok d
    → c.heap q ≡ some v
    → d.heap p ≡ some w
    → w.type_url ≡ v.type_url
    → Told d.heap v.type_url d
unfolding update_watcher
update-Told f p q resources v w c d s opened h hv live typed =
    let (v', dv, h1) = after-returns _ (deref q c) h in
    let (c1, erased, h2) = after-returns _ (erase_watch q c) h1 in
    let (c2, asked, h3) = after-returns _ (request_unless_empty f v' c1) h2 in
    let (c3, updated, h4) = after-returns _ (update_resources q resources c2) h3 in
    let (x, hx, u) = erased-Unlisted q c c1 s erased in
    let later = Unlisted-request q f x v' c.heap c.next_watcher (room c) c1 c2 asked u in
    let sound = relisted-IsSound q resources x c c2 c3 s hx later updated in
    let (_, _, _, _, _, _, e) = erase_watch-found q c c1 erased in
    let (_, _, _, _, e') = update_resources-found q resources c2 c3 updated in
    let open1 : IsOpen c1 = subst IsOpen e opened in
    let open3 : IsOpen c3 = subst IsOpen e' (request_unless_empty-IsOpen f v' c1 c2 asked open1) in
    let same : v' ≡ v = some-injective _ _ (sym (deref-found q c v' dv) ∙ hv) in
    let run =
      subst (λ (y : Watcher). queue_discovery_request (drain_requests f) y.type_url c3 ≡ ok d) same
        h4 in
    request-Told f p v.type_url w open3.0.0 c3 d sound open3.0.1 open3.1 run live typed

-- The calls that ask for the resources of type `t`.
abbrev pub Asks : Call → AdsClient → String → Type 0
Asks (establish (some messages)) c t = c.shut_down ≡ false
Asks (request u) c t = (u ≡ t) × IsOpen c
Asks (watch u resources) c t = (u ≡ t) × IsOpen c
Asks (update p resources) c t = (v : Watcher) × (c.heap p ≡ some v) × (v.type_url ≡ t) × IsOpen c
Asks _ c t = ⊥

call-Told :
    (f p : ℕ) (call : Call) (w : Watcher) (c d : AdsClient)
    → IsSound c
    → Asks call c w.type_url
    → perform f call c ≡ ok d
    → d.heap p ≡ some w
    → Told d.heap w.type_url d
call-Told f p connect w c d s asks h live = absurd asks
call-Told f p (establish none) w c d s asks h live = absurd asks
call-Told f p (establish (some messages)) w c d s asks h live =
    let same : d.heap ≡ c.heap =
      ap (λ (m : Table). m.0) (establish-table f (some messages) c d h s) in
    subst (λ m. Told m w.type_url d) (sym same)
      (established-Told f messages c d p w s asks h
        (ap (λ (m : ℕ → Option Watcher). m p) (sym same) ∙ live))
call-Told f p (request t) w c d s asks h live =
    let (typed, opened) = asks in
    subst (λ u. Told d.heap u d) typed
      (request-Told f p t w opened.0.0 c d s opened.0.1 opened.1 h live (sym typed))
call-Told f p (respond m) w c d s asks h live = absurd asks
call-Told f p (watch t resources) w c d s asks h live =
    let (typed, opened) = asks in
    let (made, run, e) = after-returns _ (add_watch f t resources c) h in
    subst (λ u. Told d.heap u d) typed
      (watch-Told f p made.0 t resources w opened.0.0 c d s opened.0.1 opened.1
        (run ∙ ap (λ (x : AdsClient). ok (made.0, x)) (ok-injective e)) live (sym typed))
call-Told f p (update q resources) w c d s asks h live =
    let (v, hv, typed, opened) = asks in
    subst (λ u. Told d.heap u d) typed
      (update-Told f p q resources v w c d s opened h hv live (sym typed))
call-Told f p (destroy q) w c d s asks h live = absurd asks
call-Told f p stop w c d s asks h live = absurd asks

-- After any calls of operations in `Call` on a new client, when a further call returns that asks
-- for a type (onStreamEstablished, with a stream, for every type; or queueDiscoveryRequest,
-- addWatch or the update of a watch for their own type, on a stream), and the client had not been
-- shut down: if a watch of the type is in memory then, a request of the type is on the stream which
-- names exactly the names that the watches of the type in memory hold, whatever the server has
-- sent.
pub session-Told :
    (f g : ℕ) (channel : Bool) (calls : List Call) (call : Call) (c d : AdsClient) (p : ℕ)
    (w : Watcher)
    → perform_all g calls (new_client channel) ≡ ok c
    → Asks call c w.type_url
    → perform f call c ≡ ok d
    → d.heap p ≡ some w
    → Told d.heap w.type_url d
session-Told f g channel calls call c d p w run asks h live =
    call-Told f p call w c d (session-IsSound g channel calls c run) asks h live
