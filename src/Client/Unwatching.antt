-- ===== src/Client/Unwatching.antt =====
-- Watcher.h: the destructor of a watch, and its update.
use mathlib.Core.Path.{subst}
use mathlib.Core.Option.{some-injective}
use xds_client.Base.{
  ℕ, String, some, none, Option, List, [], ◌∷◌, ◌++◌, ◌≡◌, refl, sym, ap, ◌∙◌, ok, after-returns,
  ok-injective, arith, inl, inr, Bool-cases, Option-cases, List-cases, store, beq, beq_iff,
  put_self, insert_all,
}
use xds_client.Client.State.{AdsClient, ApiState, Watcher, set_api}
use xds_client.Client.Requests.{queue_discovery_request, drain_requests}
use xds_client.Client.Watches.{
  deref, watch_list, unlink, erase_watch, update_resources, request_unless_empty, delete_watcher,
  update_watcher,
}
use xds_client.Client.Steps.Versions.{
  Unacknowledged, Unacknowledged-IsStable, queue_discovery_request-Unacknowledged,
}
use xds_client.Client.Watching.{queue-heap, store_self}

pub deref-found : (p : ℕ) (c : AdsClient) (w : Watcher) → deref p c ≡ ok w → c.heap p ≡ some w
unfolding deref
deref-found p c w h = elim (Option-cases (c.heap p)) [
  | inl e ↦ absurd (ground arith)
  | inr (v, e) ↦ ground arith
]

watch_list-found :
    (t : String) (c : AdsClient) (a : ApiState) → watch_list t c ≡ ok a → c.api_state t ≡ some a
unfolding watch_list
watch_list-found t c a h = elim (Option-cases (c.api_state t)) [
  | inl e ↦ absurd (ground arith)
  | inr (b, e) ↦ ground arith
]

-- A watch that is taken off a list stood somewhere in it, and the others stay in their order.
unlink-splits :
    (p : ℕ) (ps rest : List ℕ)
    → unlink p ps ≡ some rest
    → (xs ys : List ℕ) × (ps ≡ xs ++ p ∷ ys) × (rest ≡ xs ++ ys)
unfolding unlink
unlink-splits p [] rest h = absurd (ground arith)
unlink-splits p (q ∷ ps) rest h = elim (Bool-cases (beq p q)) [
  | inl e ↦ ([], ps, ground (arith, beq_iff p q), ground arith)
  | inr e ↦ elim (Option-cases (unlink p ps)) [
    | inl k ↦ absurd (ground arith)
    | inr (r, k) ↦
        let (xs, ys, whole, left) = unlink-splits p ps r k in
        (q ∷ xs, ys, ap (λ l. q ∷ l) whole, ground arith)
  ]
]

-- A watch that is taken off its list was in it.
pub erase_watch-found :
    (p : ℕ) (c d : AdsClient)
    → erase_watch p c ≡ ok d
    → (w : Watcher) × (a : ApiState) × (ps : List ℕ) × (c.heap p ≡ some w)
      × (c.api_state w.type_url ≡ some a)
      × (unlink p a.watches ≡ some ps)
      × (set_api w.type_url (record a { watches = ps }) c ≡ d)
unfolding erase_watch
erase_watch-found p c d h =
    let (w, dw, h1) = after-returns _ (deref p c) h in
    let (a, da, h2) = after-returns _ (watch_list w.type_url c) h1 in
    elim (Option-cases (unlink p a.watches)) [
      | inl e ↦ absurd (ground arith)
      | inr (ps, e) ↦
          (w, a, ps, deref-found p c w dw, watch_list-found w.type_url c a da, e, ground arith)
    ]

-- What a queued request leaves of the watches and the states.
abbrev Keeps : AdsClient → AdsClient → Type 0
Keeps c d =
    (d.heap ≡ c.heap)
    × ((u : String) (a : ApiState)
        → c.api_state u ≡ some a
        → (b : ApiState) × (d.api_state u ≡ some b) × Unacknowledged a b)

queue-Keeps :
    (f : ℕ) (t : String) (c d : AdsClient)
    → queue_discovery_request (drain_requests f) t c ≡ ok d
    → Keeps c d
queue-Keeps f t c d run =
    (queue-heap f t c d run, λ u a ha. queue_discovery_request-Unacknowledged f t u c d a run ha)

pub request_unless_empty-Keeps :
    (f : ℕ) (w : Watcher) (c d : AdsClient) → request_unless_empty f w c ≡ ok d → Keeps c d
unfolding request_unless_empty
request_unless_empty-Keeps f w c d h = elim (List-cases w.resources) [
  | inl e ↦
      subst (Keeps c) {x = c} {y = d} (ok-injective (ground arith))
        (refl, λ u a ha. (a, ha, Unacknowledged-IsStable.same a))
  | inr (x, xs, e) ↦ queue-Keeps f w.type_url c d (ground arith)
]

-- When the destructor of a watch returns, the watch stood in the list of its type and has been taken
-- off it; what stood before and behind it stays, in its order; its memory is gone, and all other
-- memory is as it was.
pub delete_watcher_deleted :
    (f : ℕ) (p : ℕ) (c d : AdsClient)
    → delete_watcher f p c ≡ ok d
    → (w : Watcher) × (a b : ApiState) × (xs ys : List ℕ) × (c.heap p ≡ some w)
      × (c.api_state w.type_url ≡ some a)
      × (d.api_state w.type_url ≡ some b)
      × (a.watches ≡ xs ++ p ∷ ys)
      × (b.watches ≡ xs ++ ys)
      × (d.heap ≡ store c.heap p none)
unfolding delete_watcher
delete_watcher_deleted f p c d h =
    let (v, dv, h1) = after-returns _ (deref p c) h in
    let (c1, erased, h2) = after-returns _ (erase_watch p c) h1 in
    let (c2, asked, h3) = after-returns _ (request_unless_empty f v c1) h2 in
    let (w, a, ps, hw, ha, found, e) = erase_watch-found p c c1 erased in
    let (heap, states) = request_unless_empty-Keeps f v c1 c2 asked in
    let (b, hb, kept) =
      states w.type_url (record a { watches = ps })
        (ap (λ (x : AdsClient). x.api_state w.type_url) (sym e)
          ∙ put_self c.api_state w.type_url (record a { watches = ps })) in
    let (xs, ys, whole, left) = unlink-splits p a.watches ps found in
    let last = ok-injective h3 in
    (
      w,
      a,
      b,
      xs,
      ys,
      hw,
      ha,
      ap (λ (x : AdsClient). x.api_state w.type_url) (sym last) ∙ hb,
      whole,
      kept.0 ∙ left,
      ap (λ (x : AdsClient). x.heap) (sym last)
          ∙ ap (λ h. store h p none) (heap ∙ ap (λ (x : AdsClient). x.heap) (sym e)),
    )

pub update_resources-found :
    (p : ℕ) (resources : List String) (c d : AdsClient)
    → update_resources p resources c ≡ ok d
    → (w : Watcher) × (a : ApiState) × (c.heap p ≡ some w)
      × (c.api_state w.type_url ≡ some a)
      × (record (set_api w.type_url (record a { watches = p ∷ a.watches }) c) {
        heap = store c.heap p (some (record w { resources = insert_all resources [] }));
      }
          ≡ d)
unfolding update_resources
update_resources-found p resources c d h =
    let (w, dw, h1) = after-returns _ (deref p c) h in
    let (a, da, h2) = after-returns _ (watch_list w.type_url c) h1 in
    (w, a, deref-found p c w dw, watch_list-found w.type_url c a da, ok-injective h2)

-- When `update` of a watch returns, the watch has the given names, and has moved from its place to
-- the front of the list of its type; the other watches stay, in their order.
pub update_watcher_updated :
    (f : ℕ) (p : ℕ) (resources : List String) (c d : AdsClient)
    → update_watcher f p resources c ≡ ok d
    → (w : Watcher) × (a b : ApiState) × (xs ys : List ℕ) × (c.heap p ≡ some w)
      × (c.api_state w.type_url ≡ some a)
      × (d.api_state w.type_url ≡ some b)
      × (a.watches ≡ xs ++ p ∷ ys)
      × (b.watches ≡ p ∷ xs ++ ys)
      × (d.heap p ≡ some (record w { resources = insert_all resources [] }))
unfolding update_watcher
update_watcher_updated f p resources c d h =
    let (v, dv, h1) = after-returns _ (deref p c) h in
    let (c1, erased, h2) = after-returns _ (erase_watch p c) h1 in
    let (c2, asked, h3) = after-returns _ (request_unless_empty f v c1) h2 in
    let (c3, updated, h4) = after-returns _ (update_resources p resources c2) h3 in
    let (w, a, ps, hw, ha, found, e) = erase_watch-found p c c1 erased in
    let (heap, states) = request_unless_empty-Keeps f v c1 c2 asked in
    let (b, hb, kept) =
      states w.type_url (record a { watches = ps })
        (ap (λ (x : AdsClient). x.api_state w.type_url) (sym e)
          ∙ put_self c.api_state w.type_url (record a { watches = ps })) in
    let (w', b', hw', hb', e') = update_resources-found p resources c2 c3 updated in
    let same : w' ≡ w = some-injective _ _ (
      sym hw'
      ∙ ap (λ (x : ℕ → Option Watcher). x p) (heap ∙ ap (λ (x : AdsClient). x.heap) (sym e))
      ∙ hw) in
    let b'' : ApiState = record b' { watches = p ∷ b'.watches } in
    let moved =
      subst (λ (x : Watcher). c3.api_state x.type_url ≡ some b'') same
        (ap (λ (x : AdsClient). x.api_state w'.type_url) (sym e')
          ∙ put_self c2.api_state w'.type_url b'') in
    let same' : b' ≡ b =
      some-injective _ _ (sym hb' ∙ ap (λ (x : Watcher). c2.api_state x.type_url) same ∙ hb) in
    let (later, states') = queue-Keeps f v.type_url c3 d h4 in
    let (g, hg, last) = states' w.type_url b'' moved in
    let (xs, ys, whole, left) = unlink-splits p a.watches ps found in
    (
      w,
      a,
      g,
      xs,
      ys,
      hw,
      ha,
      hg,
      whole,
      last.0 ∙ ap (λ (x : ApiState). p ∷ x.watches) same' ∙ ap (λ l. p ∷ l) (kept.0 ∙ left),
      ap (λ (x : ℕ → Option Watcher). x p) (later ∙ ap (λ (x : AdsClient). x.heap) (sym e'))
          ∙ store_self c2.heap p _
          ∙ ap (λ (x : Watcher). some (record x { resources = insert_all resources [] })) same,
    )
