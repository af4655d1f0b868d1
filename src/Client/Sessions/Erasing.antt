-- ===== src/Client/Sessions/Erasing.antt =====
-- Watcher.h: how the destructor and `update` of a watch end, for a client in order.
use mathlib.Core.Path.{subst}
use mathlib.Core.Option.{some-injective}
use xds_client.Base.{
  ℕ, ◌+◌, ◌*◌, ◌≤◌, ◌<◌, String, Option, none, some, List, ◌≡◌, sym, ap, ◌∙◌, inl, inr, ok, Ends,
  Ends-map, Ends-bind, Ends-returned, ◌>>=◌, length, store, Option-cases, List-cases, arith,
  eq_refl,
}
use xds_client.Client.State.{AdsClient, ApiState, Watcher, set_api}
use xds_client.Client.Requests.{queue_discovery_request, drain_requests}
use xds_client.Client.Watches.{
  erase_watch, unlink, update_resources, request_unless_empty, delete_watcher, update_watcher,
}
use xds_client.Client.Watching.{update_resources-eq-ok}
use xds_client.Client.Loop.{inbound}
use xds_client.Client.Sessions.{count, state_of, IsSound}
use xds_client.Client.Sessions.Lists.{unlink-found}
use xds_client.Client.Sessions.Loops.{fit_at, room}
use xds_client.Client.Sessions.Watches.{
  Unlisted, erased-Unlisted, Unlisted-request, relisted-IsSound,
}
use xds_client.Client.Sessions.Requests.{Covers, Reenters, Between, request-Ends, sound-Ends}

-- A live watch stands in the list of its type.
pub live-listed :
    (p : ℕ) (w : Watcher) (c : AdsClient)
    → IsSound c
    → c.heap p ≡ some w
    → (a : ApiState) × (c.api_state w.type_url ≡ some a) × (0 < count p a.watches)
live-listed p w c s h = elim (Option-cases (c.api_state w.type_url)) [
  | inl e ↦
      absurd (ground (arith, (s.states w.type_url).once p, ap state_of e, h, eq_refl w.type_url))
  | inr (a, e) ↦ (
    a,
    e,
    ground (arith, (fit_at c.heap w.type_url a c e s.states).once p, h, eq_refl w.type_url),
  )
]

-- The client whose watch has been taken off its list, `ps` being the others.
abbrev unlisted : Watcher → ApiState → List ℕ → AdsClient → AdsClient
unlisted w a ps c = set_api w.type_url (record a { watches = ps }) c

erase_watch-eq-ok :
    (p : ℕ) (w : Watcher) (a : ApiState) (ps : List ℕ) (c : AdsClient)
    → c.heap p ≡ some w
    → c.api_state w.type_url ≡ some a
    → unlink p a.watches ≡ some ps
    → erase_watch p c ≡ ok (unlisted w a ps c)
unfolding erase_watch
erase_watch-eq-ok p w a ps c h ha e = ground arith

-- What the destructor and `update` do after that.
delete_watcher-eq :
    (f p : ℕ) (w : Watcher) (a : ApiState) (ps : List ℕ) (c : AdsClient)
    → c.heap p ≡ some w
    → c.api_state w.type_url ≡ some a
    → unlink p a.watches ≡ some ps
    → delete_watcher f p c ≡ (
        request_unless_empty f w (unlisted w a ps c) >>= λ d.
        ok (record d { heap = store d.heap p none }))
unfolding delete_watcher
delete_watcher-eq f p w a ps c h ha e = ground arith

update_watcher-eq :
    (f p : ℕ) (resources : List String) (w : Watcher) (a : ApiState) (ps : List ℕ) (c : AdsClient)
    → c.heap p ≡ some w
    → c.api_state w.type_url ≡ some a
    → unlink p a.watches ≡ some ps
    → update_watcher f p resources c ≡ (
        request_unless_empty f w (unlisted w a ps c) >>= λ d.
        update_resources p resources d >>= λ e.
        queue_discovery_request (drain_requests f) w.type_url e)
unfolding update_watcher
update_watcher-eq f p resources w a ps c h ha e = ground arith

-- Where a live watch stands, and the client without it there.
erased :
    (p : ℕ) (w : Watcher) (c : AdsClient)
    → IsSound c
    → c.heap p ≡ some w
    → (a : ApiState) × (ps : List ℕ) × (c.api_state w.type_url ≡ some a)
      × (unlink p a.watches ≡ some ps)
      × Unlisted p w c.heap c.next_watcher (room c) (unlisted w a ps c)
erased p w c s h =
    let (a, ha, k) = live-listed p w c s h in
    let (ps, e) = unlink-found p a.watches k in
    let (v, hv, u) =
      erased-Unlisted p c (unlisted w a ps c) s (erase_watch-eq-ok p w a ps c h ha e) in
    let same : v ≡ w = some-injective _ _ (sym hv ∙ h) in
    (
      a,
      ps,
      ha,
      e,
      subst (λ x. Unlisted p x c.heap c.next_watcher (room c) (unlisted w a ps c)) same u,
    )

pub Covers-erased : (p : ℕ) (heap : ℕ → Option Watcher) → Covers (store heap p none) heap
Covers-erased p heap q w h = ground (arith, h)

module _ (f p : ℕ) (w : Watcher) (c : AdsClient) (s : IsSound c) (h : c.heap p ≡ some w)
    (fuel : 4 * length (inbound c) + 4 ≤ f) where
  abbrev IsWithout : AdsClient → Type 0
  IsWithout d =
      Unlisted p w c.heap c.next_watcher (room c) d × (length (inbound d) ≤ length (inbound c))

  IsWithout-Ends :
      (d : AdsClient)
      → IsWithout d
      → Ends (Reenters (length (inbound c))) IsWithout (request_unless_empty f w d)
  unfolding request_unless_empty
  IsWithout-Ends d u =
      Ends-returned (Reenters (length (inbound c))) (λ e. length (inbound e) ≤ length (inbound c))
        IsWithout (request_unless_empty f w d) ended
        (λ e run k. (Unlisted-request p f w w _ _ _ d e run u.0, k))
    where
      ended :
          Ends
            (Reenters (length (inbound c)))
            (λ e. length (inbound e) ≤ length (inbound c))
            (request_unless_empty f w d)
      ended = elim (List-cases w.resources) [
        | inl e ↦ rw e u.1
        | inr (x, xs, e) ↦ rw e (
            Ends-map (Reenters (length (inbound c))) (Reenters (length (inbound c)))
              (Between (store c.heap p none) c.heap c.next_watcher (room c) (length (inbound c)))
              (λ e. length (inbound e) ≤ length (inbound c))
              (queue_discovery_request (drain_requests f) w.type_url d)
              (request-Ends (store c.heap p none) c.heap c.next_watcher (room c)
                (length (inbound c)) f w.type_url d (Covers-erased p c.heap) fuel
                (record { keeps = u.0.keeps; idle = u.0.idle; coming = u.1 }))
              (λ e k. k) (λ e k. k.coming))
      ]

  pub delete_watcher-Ends : Ends (Reenters (length (inbound c))) (λ d. Unit) (delete_watcher f p c)
  delete_watcher-Ends =
      let (a, ps, ha, e, u) = erased p w c s h in
      rw (delete_watcher-eq f p w a ps c h ha e) (
        Ends-bind (Reenters (length (inbound c))) (Reenters (length (inbound c))) IsWithout
          (λ d. Unit) (request_unless_empty f w (unlisted w a ps c)) _
          (IsWithout-Ends (unlisted w a ps c) (u, omega arith)) (λ e k. k) (λ e k. tt))

  relisted-Ends :
      (resources : List String) (d : AdsClient)
      → IsWithout d
      → Ends
          (Reenters (length (inbound c)))
          (λ e. Unit)
          (update_resources p resources d >>= λ e.
            queue_discovery_request (drain_requests f) w.type_url e)
  relisted-Ends resources d u =
      let (b, hb, _) = u.0.state in
      let found : d.heap p ≡ some w = ap (λ (x : ℕ → Option Watcher). x p) u.0.keeps.memory ∙ h in
      let run = update_resources-eq-ok p resources w b d found hb in
      rw run (
        sound-Ends (length (inbound c)) f w.type_url _
          (relisted-IsSound p resources w c d _ s h u.0 run) u.1 fuel)

  pub update_watcher-Ends :
      (resources : List String)
      → Ends (Reenters (length (inbound c))) (λ d. Unit) (update_watcher f p resources c)
  update_watcher-Ends resources =
      let (a, ps, ha, e, u) = erased p w c s h in
      rw (update_watcher-eq f p resources w a ps c h ha e) (
        Ends-bind (Reenters (length (inbound c))) (Reenters (length (inbound c))) IsWithout
          (λ d. Unit) (request_unless_empty f w (unlisted w a ps c)) _
          (IsWithout-Ends (unlisted w a ps c) (u, omega arith)) (λ e k. k)
          (λ e k. relisted-Ends resources e k))
