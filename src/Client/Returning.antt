-- ===== src/Client/Returning.antt =====
-- Watcher.h: the destructor of a watch and its update return where the server is silent.
use mathlib.Core.Option.{some-injective}
use mathlib.Core.Path.{subst}
use xds_client.Base.{
  ℕ, ◌+◌, ◌*◌, ◌≤◌, String, false, some, none, Option, List, [], ◌∷◌, ◌++◌, ◌≡◌, sym, ap, ◌∙◌, ok,
  arith, put, put_self, store, eq_iff, insert_all, ltb,
}
use xds_client.Client.State.{AdsClient, ApiState, Watcher, paused, api_state_for, set_api}
use xds_client.Client.Requests.{queue_discovery_request, drain_requests}
use xds_client.Client.Watches.{unlink, request_unless_empty, delete_watcher, update_watcher}
use xds_client.Client.Unwatching.{
  request_unless_empty-Keeps, delete_watcher_deleted, update_watcher_updated,
}
use xds_client.Client.Liveness.{watched_new, watched-unlink, changed-Ready, IsLive-store}
use xds_client.Client.Loop.{
  Ready, profile, queued, live_names, inbound, written, backlog, some_asks,
}
use xds_client.Client.Answers.{Lasts}
use xds_client.Client.Sessions.{state_of}
use xds_client.Client.Lasting.{Same, Lasts-reput}
use xds_client.Client.Asking.{Asked, AskedAll, AskedAll-earlier, queue_discovery_request_asks}
use xds_client.Wire.{DiscoveryRequest}
use xds_client.Client.Released.{wanted, waiting, request_unless_empty_returns}

-- A watch of a ready client, which stands in the list of its type.
module _ (f p : ℕ) (w : Watcher) (a : ApiState) (ps : List ℕ) (c : AdsClient) (r : Ready c)
    (s : c.shut_down ≡ false) (quiet : inbound c ≡ []) (hw : c.heap p ≡ some w)
    (ha : c.api_state w.type_url ≡ some a) (hu : unlink p a.watches ≡ some ps)
    (n : paused a ≡ false) (fuel : 2 * backlog c + 4 ≤ f) where
  -- The client when the watch is off its list.
  abbrev erased : AdsClient
  erased = set_api w.type_url (record a { watches = ps }) c

  erased-Ready : Ready erased
  erased-Ready =
      let (names, live) = live_names c w.type_url a r ha in
      changed-Ready w.type_url (record a { watches = ps }) c.heap c r (λ o h. h)
        (watched-unlink c.heap p a.watches ps names live hu)

  taken_off_returns :
      (d : AdsClient) × (request_unless_empty f w erased ≡ ok d)
      × Ready d
      × (d.shut_down ≡ false)
      × (inbound d ≡ [])
      × (backlog d ≤ backlog c)
      × (queued d ≡ waiting w c)
      × Same erased d
      × Asked c.heap erased.api_state (wanted w c) c d
  taken_off_returns =
      request_unless_empty_returns f w (record a { watches = ps }) erased erased-Ready s quiet
        (put_self c.api_state w.type_url _) n fuel

  -- There is one watch at `p`, and one state of its type.
  same_watch :
      (v : Watcher) (a' : ApiState)
      → c.heap p ≡ some v
      → c.api_state v.type_url ≡ some a'
      → (v.type_url ≡ w.type_url) × (a' ≡ a)
  same_watch v a' hv ha' =
      let typed = ap (λ (x : Watcher). x.type_url) (some-injective _ _ (sym hv ∙ hw)) in
      (typed, some-injective _ _ (sym ha' ∙ ap c.api_state typed ∙ ha))

  destroyed :
      (d : AdsClient) × (delete_watcher f p c ≡ ok d)
      × Asked c.heap erased.api_state (wanted w c) c d
  unfolding delete_watcher
  destroyed =
      let (d, run, ready, open_still, gone, less, left, same, told) = taken_off_returns in
      (record d { heap = store d.heap p none }, ground (arith, hw, ha, hu, run), told)

  -- For a client that is ready (it has a stream, every queued type has a state, no watch list dangles)
  -- and not shut down, a server that sends nothing more, a live watch that stands in the list of its
  -- type, which is not paused, and fuel of at least twice the backlog plus four: the destructor of the
  -- watch returns. If the watch has no names, nothing is written; if it has, the requests that were
  -- written are one for each type that was queued, in the order of the queue, and then one for its
  -- own type: each lists, each name once, exactly the names that the watches of its type without the
  -- destroyed one are set on, and has the type that is noted for it, if it is subscribed to. The watch
  -- stood in the list of its type and has been taken off it; what stood before and behind it stays, in
  -- its order; its memory is gone, and all other memory is as it was.
  pub delete_watcher_returns :
      (d : AdsClient) × (delete_watcher f p c ≡ ok d)
      × Asked c.heap (put c.api_state w.type_url (record a { watches = ps })) (wanted w c) c d
      × (d.heap ≡ store c.heap p none)
      × ((b : ApiState) × (xs ys : List ℕ) × (d.api_state w.type_url ≡ some b)
          × (a.watches ≡ xs ++ p ∷ ys)
          × (b.watches ≡ xs ++ ys))
  delete_watcher_returns =
      let (d, run, count) = destroyed in
      let (v, a', b, xs, ys, hv, ha', hb, whole, left, heap) = delete_watcher_deleted f p c d run in
      let (typed, state) = same_watch v a' hv ha' in
      (
        d,
        run,
        count,
        heap,
        (
          b,
          xs,
          ys,
          ap d.api_state (sym typed) ∙ hb,
          ap (λ (x : ApiState). x.watches) (sym state) ∙ whole,
          left,
        ),
      )

  module _ (resources : List String) where
    -- The client `d` when the watch has its new names and is on its list again.
    abbrev relisted : ApiState → AdsClient → AdsClient
    relisted b d = record (set_api w.type_url (record b { watches = p ∷ b.watches }) d) {
      heap = store d.heap p (some (record w { resources = insert_all resources [] }));
    }

    relisted-Ready :
        (b : ApiState) (d : AdsClient)
        → Ready d
        → d.api_state w.type_url ≡ some b
        → Ready (relisted b d)
    relisted-Ready b d ready hb =
        let v = record w { resources = insert_all resources [] } in
        let (names, live) = live_names d w.type_url b ready hb in
        let (more, live') = IsLive-store d.heap p v (profile (some b)) (names, live) in
        changed-Ready w.type_url (record b { watches = p ∷ b.watches }) _ d ready
          (IsLive-store d.heap p v) (_, watched_new d.heap p v b.watches more live')

    relisted_returns :
        (b : ApiState) (d : AdsClient)
        → Ready d
        → d.api_state w.type_url ≡ some b
        → d.shut_down ≡ false
        → inbound d ≡ []
        → paused b ≡ false
        → 2 * backlog d + 4 ≤ f
        → (e : AdsClient) × (queue_discovery_request (drain_requests f) w.type_url (relisted b d)
            ≡ ok e)
          × (e.request_queue ≡ some [])
          × (inbound e ≡ [])
          × Asked (relisted b d).heap (relisted b d).api_state (queued d ++ w.type_url ∷ []) d e
    unfolding api_state_for
    relisted_returns b d ready hb open_still gone unpaused enough =
        queue_discovery_request_asks w.type_url (relisted b d) f (relisted-Ready b d ready hb)
          open_still (ground (arith, eq_iff w.type_url w.type_url, unpaused)) enough
          (ap (λ l. some_asks (api_state_for w.type_url (relisted b d)).1 l) gone)

    -- The memory with the new names, and the states with the watch in front.
    abbrev set_again : ℕ → Option Watcher
    set_again = store c.heap p (some (record w { resources = insert_all resources [] }))

    abbrev listed_again : String → Option ApiState
    listed_again = put c.api_state w.type_url (record a { watches = p ∷ ps })

    -- The second request, seen from the client before the update.
    relisted-Asked :
        (b : ApiState) (d e : AdsClient) (rs : List DiscoveryRequest)
        → Same erased d
        → d.api_state w.type_url ≡ some b
        → AskedAll (relisted b d).heap (relisted b d).api_state (waiting w c ++ w.type_url ∷ []) rs
        → AskedAll set_again listed_again (waiting w c ++ w.type_url ∷ []) rs
    relisted-Asked b d e rs same hb all =
        let ts = waiting w c ++ w.type_url ∷ [] in
        let was : Lasts (record a { watches = ps }) b =
          subst (λ x. Lasts (record a { watches = ps }) x) (ap state_of hb)
            (subst (λ x. Lasts (state_of x) (state_of (d.api_state w.type_url)))
              (put_self c.api_state w.type_url _) (same.lasts w.type_url)) in
        let other =
          Lasts-reput c.api_state d.api_state w.type_url (record a { watches = ps })
            (record a { watches = p ∷ ps }) (record b { watches = p ∷ b.watches }) same.lasts
            (ap (λ l. p ∷ l) was.0, was.1, was.2) in
        AskedAll-earlier set_again listed_again (relisted b d).api_state ts rs other (
          subst (λ m. AskedAll m (relisted b d).api_state ts rs)
            (ap (λ m. store m p (some (record w { resources = insert_all resources [] })))
              same.heap)
            all)

    updated_returns :
        (d : AdsClient) × (update_watcher f p resources c ≡ ok d)
        × (d.request_queue ≡ some [])
        × ((qs rs : List DiscoveryRequest) × (written d ≡ written c ++ qs ++ rs)
            × AskedAll c.heap erased.api_state (wanted w c) qs
            × AskedAll set_again listed_again (waiting w c ++ w.type_url ∷ []) rs)
    unfolding update_watcher
    updated_returns =
        let (d, run, ready, open_still, gone, less, left, same, (qs, first, before)) =
          taken_off_returns in
        let (heap, states) = request_unless_empty-Keeps f w erased d run in
        let (b, hb, kept) = states w.type_url _ (put_self c.api_state w.type_url _) in
        let unpaused = ap (λ k. ltb 0 k) kept.1 ∙ n in
        let (e, ran, empty, _, (rs, second, behind)) =
          relisted_returns b d ready hb open_still gone unpaused (omega (arith, less, fuel)) in
        let hw' : d.heap p ≡ some w = ap (λ (h : ℕ → Option Watcher). h p) heap ∙ hw in
        (
          e,
          ground (arith, hw, ha, hu, run, hw', hb, ran),
          empty,
          (
            qs,
            rs,
            second ∙ ap (λ l. l ++ rs) first,
            before,
            relisted-Asked b d e rs same hb (
                subst
                  (λ q.
                    AskedAll (relisted b d).heap (relisted b d).api_state (q ++ w.type_url ∷ []) rs)
                  left behind),
          ),
        )

    -- For a client that is ready (it has a stream, every queued type has a state, no watch list
    -- dangles) and not shut down, a server that sends nothing more, a live watch that stands in the
    -- list of its type, which is not paused, and fuel of at least twice the backlog plus four:
    -- `update` of the watch returns for all new names. If the watch had names, it has first written one
    -- request for each type that was queued, in the order of the queue, and one for its own type, with
    -- the names that the watches are set on without this one. Then it has written a request for its
    -- own type, after one for each type that was queued if the watch had no names, with the names that
    -- the watches are set on when this one has the new names. Each request lists each name of the
    -- watches of its type once and no other, and has the type that is noted for it, if it is subscribed
    -- to. The watch has the given names, and has moved from its place to the front of the list of its
    -- type; the other watches stay, in their order.
    pub update_watcher_returns :
        (d : AdsClient) × (update_watcher f p resources c ≡ ok d)
        × (d.request_queue ≡ some [])
        × ((qs rs : List DiscoveryRequest) × (written d ≡ written c ++ qs ++ rs)
            × AskedAll c.heap
                (put c.api_state w.type_url (record a { watches = ps }))
                (wanted w c)
                qs
            × AskedAll
                (store c.heap p (some (record w { resources = insert_all resources [] })))
                (put c.api_state w.type_url (record a { watches = p ∷ ps }))
                (waiting w c ++ w.type_url ∷ [])
                rs)
        × (d.heap p ≡ some (record w { resources = insert_all resources [] }))
        × ((b : ApiState) × (xs ys : List ℕ) × (d.api_state w.type_url ≡ some b)
            × (a.watches ≡ xs ++ p ∷ ys)
            × (b.watches ≡ p ∷ xs ++ ys))
    update_watcher_returns =
        let (d, run, empty, count) = updated_returns in
        let (v, a', b, xs, ys, hv, ha', hb, whole, moved, held) =
          update_watcher_updated f p resources c d run in
        let (typed, state) = same_watch v a' hv ha' in
        (
          d,
          run,
          empty,
          count,
          held
              ∙ ap (λ t. some (record { resources = insert_all resources []; type_url = t })) typed,
          (
            b,
            xs,
            ys,
            ap d.api_state (sym typed) ∙ hb,
            ap (λ (x : ApiState). x.watches) (sym state) ∙ whole,
            moved,
          ),
        )
