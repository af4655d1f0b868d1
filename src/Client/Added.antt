-- ===== src/Client/Added.antt =====
-- `addWatch` of AdsClient.cpp returns where the server is silent.
use mathlib.Core.Path.{subst}
use xds_client.Base.{
  ℕ, ◌+◌, ◌*◌, ◌≤◌, String, false, some, Option, List, [], ◌∷◌, ◌++◌, ◌≡◌, refl, sym, ap, ◌∙◌,
  length, ok, arith, inl, inr, Bool-cases, Option-cases, true, insert_all, ltb, put_self, ◌==◌,
  eq_iff,
}
use xds_client.Wire.{Stream}
use xds_client.Client.State.{AdsClient, ApiState, paused, api_state_for}
use xds_client.Client.Requests.{watched, queue_discovery_request, drain_requests}
use xds_client.Client.Watches.{subscribe, add_watch}
use xds_client.Client.Watching.{watching, new_watcher_lem, add_watch_added}
use xds_client.Client.Liveness.{watched_new, AllKnown-mono, IsLive-store}
use xds_client.Client.Loop.{
  Ready, IsLive, IsKnown, AllKnown, profile, Profile, queued, SameProfiles, live_names, queued-eq,
  Ready-SameProfiles, inbound, written, backlog, some_asks, stream_inbound, stream_written,
}
use xds_client.Client.Loop.Entry.{api_state_for-rest}
use xds_client.Client.Asking.{Asked, AskedAll, queue_discovery_request_asks}

subscribe-SameProfiles :
    (t : String) (c : AdsClient)
    → (a : ApiState) → c.api_state t ≡ some a
    → SameProfiles c (subscribe t c)
unfolding subscribe api_state_for
subscribe-SameProfiles t c a e u = elim (Bool-cases a.subscribed) [
  | inl k ↦ ground (arith, e, k)
  | inr k ↦ ground (arith, e, k, eq_iff t u)
]

-- `subscribe` leaves what the loop depends on.
subscribe-stays :
    (t : String) (c : AdsClient) (a : ApiState)
    → c.api_state t ≡ some a
    → ((subscribe t c).stream ≡ c.stream)
      × ((subscribe t c).heap ≡ c.heap)
      × ((subscribe t c).request_queue ≡ c.request_queue)
      × ((subscribe t c).shut_down ≡ c.shut_down)
      × ((api_state_for t (subscribe t c)).0.pauses ≡ a.pauses)
unfolding subscribe api_state_for
subscribe-stays t c a e = elim (Bool-cases a.subscribed) [
  | inl k ↦ (
    ground (arith, e, k),
    ground (arith, e, k),
    ground (arith, e, k),
    ground (arith, e, k),
    ground (arith, e, k),
  )
  | inr k ↦ (
    ground (arith, e, k),
    ground (arith, e, k),
    ground (arith, e, k),
    ground (arith, e, k),
    ground (arith, e, k, eq_iff t t),
  )
]

module _ (t : String) (resources : List String) (c : AdsClient) (r : Ready c) where
  -- The profile of another type, and of the type itself.
  watching_other :
      (u : String) → (t == u) ≡ false → (watching resources t c).api_state u ≡ c.api_state u
  unfolding api_state_for
  watching_other u n = elim (Option-cases (c.api_state t)) [
    | inl e ↦ ground (arith, e, n)
    | inr (a, e) ↦ ground (arith, e, n)
  ]

  watching_self :
      (watching resources t c).api_state t
      ≡ some (record (api_state_for t c).0 {
        watches = c.next_watcher ∷ (api_state_for t c).0.watches;
      })
  watching_self = put_self (api_state_for t c).1.api_state t _

  watching-IsKnown :
      (u : String)
      → IsKnown (profile (c.api_state u))
      → IsKnown (profile ((watching resources t c).api_state u))
  watching-IsKnown u k = elim (Bool-cases (t == u)) [
    | inl e ↦
        subst (λ v. IsKnown (profile ((watching resources t c).api_state v))) ((eq_iff t u).0 e)
          (rw watching_self tt)
    | inr n ↦ rw (watching_other u n) k
  ]

  kept_heap : (api_state_for t c).1.heap ≡ c.heap
  kept_heap = ap (λ (x : AdsClient). x.heap) (api_state_for-rest t c)

  -- What was live in memory is live beside the new watch.
  IsLive-beside : (o : Option Profile) → IsLive c.heap o → IsLive (watching resources t c).heap o
  IsLive-beside o h =
      IsLive-store _ c.next_watcher _ o
        (IsLive-store (api_state_for t c).1.heap c.next_watcher _ o (rw kept_heap h))

  state-IsLive : IsLive c.heap (profile (some (api_state_for t c).0))
  unfolding api_state_for watched
  state-IsLive = elim (Option-cases (c.api_state t)) [
    | inl e ↦ ([], ground (arith, e))
    | inr (a, e) ↦ let (names, h) = live_names c t a r e in (names, ground (arith, e, h))
  ]

  watching-IsLive :
      (u : String)
      → IsLive (watching resources t c).heap (profile ((watching resources t c).api_state u))
  watching-IsLive u = elim (Bool-cases (t == u)) [
    | inl e ↦
        let (names, h) = IsLive-beside (profile (some (api_state_for t c).0)) state-IsLive in
        subst
          (λ v.
            IsLive (watching resources t c).heap (profile ((watching resources t c).api_state v)))
          ((eq_iff t u).0 e)
          (rw watching_self
            (_, watched_new _ c.next_watcher _ (api_state_for t c).0.watches names h))
    | inr n ↦ rw (watching_other u n) (IsLive-beside _ (r.live u))
  ]

  watching-Ready : Ready (watching resources t c)
  watching-Ready =
      let rest = api_state_for-rest t c in
      let eq = ap (λ (x : AdsClient). x.request_queue) rest ∙ r.queue.1 in
      record {
        stream = (r.stream.0, ap (λ (x : AdsClient). x.stream) rest ∙ r.stream.1);
        queue = (r.queue.0, eq);
        known =
            AllKnown-mono c (watching resources t c) (queued (watching resources t c))
              watching-IsKnown
              (subst (AllKnown c)
                (queued-eq c r.queue.0 r.queue.1
                  ∙ sym (queued-eq (watching resources t c) r.queue.0 eq))
                r.known);
        live = watching-IsLive;
      }

  -- The client when the type has been subscribed to.
  abbrev made : AdsClient
  made = subscribe t (watching resources t c)

  made-Ready : Ready made
  made-Ready =
      let w = watching-Ready in
      let stays = subscribe-stays t (watching resources t c) _ watching_self in
      Ready-SameProfiles (watching resources t c) made w.stream.0 w.queue.0
        (subscribe-SameProfiles t (watching resources t c) _ watching_self) stays.1
        (stays.0 ∙ w.stream.1) (stays.2 ∙ w.queue.1)
        (subst (AllKnown (watching resources t c))
          (queued-eq (watching resources t c) w.queue.0 w.queue.1) w.known)
        w

  made_stream : made.stream ≡ c.stream
  made_stream =
      (subscribe-stays t (watching resources t c) _ watching_self).0
      ∙ ap (λ (x : AdsClient). x.stream) (api_state_for-rest t c)

  made_numbers : (inbound made ≡ inbound c) × (written made ≡ written c) × (queued made ≡ queued c)
  made_numbers =
      let stays = subscribe-stays t (watching resources t c) _ watching_self in
      let eq = ap (λ (x : AdsClient). x.request_queue) (api_state_for-rest t c) ∙ r.queue.1 in
      (
        ap (λ (o : Option Stream). stream_inbound o) made_stream,
        ap (λ (o : Option Stream). stream_written o) made_stream,
        queued-eq made r.queue.0 (stays.2 ∙ eq) ∙ sym (queued-eq c r.queue.0 r.queue.1),
      )

  add_watch-made :
      (f : ℕ) (d : AdsClient)
      → queue_discovery_request (drain_requests f) t made ≡ ok d
      → add_watch f t resources c ≡ ok (c.next_watcher, d)
  unfolding add_watch
  add_watch-made f d run = rw (new_watcher_lem resources t c) (rw run refl)

  -- For a client that is ready and not shut down, a type that is not paused, a server that sends
  -- nothing more, and fuel of at least twice the backlog plus four, `addWatch` returns, with the queue
  -- empty. The requests that were written are one for each type that was queued, in the order of the
  -- queue, and then one for the type: each lists, each name once, exactly the names that the watches
  -- of its type are set on, the new watch among them, and has the type that is noted for it, if it is
  -- subscribed to. The watch is new in memory, with the given names, and stands at the front of the
  -- list of its type, before the watches that were there; the type is subscribed to.
  pub add_watch_returns :
      (f : ℕ)
      → c.shut_down ≡ false
      → paused (api_state_for t c).0 ≡ false
      → inbound c ≡ []
      → 2 * backlog c + 4 ≤ f
      → (p : ℕ) × (d : AdsClient) × (add_watch f t resources c ≡ ok (p, d))
        × (d.request_queue ≡ some [])
        × Asked made.heap made.api_state (queued c ++ t ∷ []) c d
        × (p ≡ c.next_watcher)
        × (d.heap p ≡ some (record { resources = insert_all resources []; type_url = t }))
        × ((b : ApiState) × (d.api_state t ≡ some b)
            × (b.watches ≡ p ∷ (api_state_for t c).0.watches)
            × (b.subscribed ≡ true))
  add_watch_returns f s n quiet fuel =
      let stays = subscribe-stays t (watching resources t c) _ watching_self in
      let (coming, out, waiting) = made_numbers in
      let shut = stays.3 ∙ ap (λ (x : AdsClient). x.shut_down) (api_state_for-rest t c) ∙ s in
      let (d, run, empty, gone, (rs, more, all)) =
        queue_discovery_request_asks t made f made-Ready shut (ap (λ k. ltb 0 k) stays.4 ∙ n)
          (omega (arith, ap length coming, ap length waiting, fuel))
          (ap (λ l. some_asks (api_state_for t made).1 l) (coming ∙ quiet)) in
      let ran : add_watch f t resources c ≡ ok (c.next_watcher, d) = add_watch-made f d run in
      let (address, memory, listed) = add_watch_added f t resources c d c.next_watcher ran in
      (
        c.next_watcher,
        d,
        ran,
        empty,
        (
          rs,
          more ∙ ap (λ l. l ++ rs) out,
          subst (λ ts. AskedAll made.heap made.api_state ts rs) (ap (λ q. q ++ t ∷ []) waiting) all,
        ),
        address,
        memory,
        listed,
      )
