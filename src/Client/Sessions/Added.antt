-- ===== src/Client/Sessions/Added.antt =====
-- `addWatch` of AdsClient.cpp: the states of a client with a new watch.
use xds_client.Base.{
  ℕ, suc, ◌≤◌, String, true, false, Option, none, some, List, [], ◌∷◌, ◌++◌, ◌≡◌, refl, ap, ◌∙◌,
  inl, inr, ◌==◌, put_self, Bool-cases, arith,
}
use xds_client.Client.State.{AdsClient, ApiState, Watcher, api_state_for}
use xds_client.Client.Watches.{subscribe}
use xds_client.Client.Watching.{new_watch, blank, watching, store_self}
use xds_client.Client.Steps.States.{put_miss}
use xds_client.Client.Loop.Entry.{api_state_for-rest, api_state_for-found}
use xds_client.Client.Sessions.{state_of, Fits, IsSound}
use xds_client.Client.Sessions.Lists.{contains-last, state_of-allocate, Fits-put, Fits-append}
use xds_client.Client.Sessions.Loops.{AllFit, fit_at}
use xds_client.Client.Sessions.Memory.{
  Adds, Fits-beside, Fits-listed, subscribe-subscribed, subscribe-fresh,
}

-- The state of a type that has been subscribed to.
abbrev subscribed_state : String → ApiState → ApiState
subscribed_state t a = record a { request = record a.request { type_url = t }; subscribed = true }

Fits-subscribed :
    (heap : ℕ → Option Watcher) (subscriptions : List String) (t : String) (a : ApiState)
    → Fits heap subscriptions t a
    → Fits heap (subscriptions ++ t ∷ []) t (subscribed_state t a)
Fits-subscribed heap subs t a h = record {
  once = h.once;
  unpaused = h.unpaused;
  silent_node = h.silent_node;
  named = λ _. refl;
  listed = λ _. contains-last subs t;
  asked = λ _. refl;
}

subscribe_rest :
    (t : String) (c : AdsClient)
    → subscribe t c ≡ record c {
      api_state = (subscribe t c).api_state;
      subscriptions = (subscribe t c).subscriptions;
    }
unfolding subscribe api_state_for
subscribe_rest t c = ground arith

module _ (t : String) (resources : List String) (c : AdsClient) (s : IsSound c) where
  abbrev found_state : ApiState
  found_state = (api_state_for t c).0

  abbrev with_watch : ApiState
  with_watch = record found_state { watches = c.next_watcher ∷ found_state.watches }

  abbrev pub added : AdsClient
  added = subscribe t (watching resources t c)

  kept_heap : (api_state_for t c).1.heap ≡ c.heap
  kept_heap = ap (λ (x : AdsClient). x.heap) (api_state_for-rest t c)

  -- The memory of the new watch was not in use.
  watching-Adds : Adds c.next_watcher (new_watch resources t) c.heap (watching resources t c).heap
  watching-Adds = record {
    gone = s.unused c.next_watcher (omega arith);
    there = store_self (blank t c).heap c.next_watcher _;
    others = λ q e. ground (arith, e, ap (λ (h : ℕ → Option Watcher). h q) kept_heap);
  }

  allocated-AllFit : AllFit c.heap (api_state_for t c).1
  allocated-AllFit u = rw (api_state_for-rest t c) (rw (state_of-allocate t u c) (s.states u))

  found-Fits : Fits c.heap (api_state_for t c).1.subscriptions t found_state
  found-Fits =
      fit_at c.heap t found_state (api_state_for t c).1 (api_state_for-found t c) allocated-AllFit

  put_twice :
      (u : String)
      → (t == u) ≡ false
      → (watching resources t c).api_state u ≡ (api_state_for t c).1.api_state u
  put_twice u n = put_miss (api_state_for t c).1.api_state t u with_watch n

  -- The list with the watch, of a type that had a subscription, and of another.
  added-AllFit : AllFit (watching resources t c).heap added
  added-AllFit = elim (Bool-cases found_state.subscribed) [
    | inl e ↦ rw (subscribe-subscribed t with_watch (watching resources t c) watching_state e) (
        Fits-put (watching resources t c).heap _ (api_state_for t c).1.api_state t with_watch
          (λ u n. beside u n (allocated-AllFit u))
          (Fits-listed c.next_watcher (new_watch resources t) c.heap _ watching-Adds _ found_state e
            found-Fits))
    | inr e ↦ rw (subscribe-fresh t with_watch (watching resources t c) watching_state e) (
        Fits-put (watching resources t c).heap _ (watching resources t c).api_state t
          (subscribed_state t with_watch)
          (λ u n. rw (put_twice u n) (
            Fits-append (watching resources t c).heap _ (t ∷ []) u _
              (beside u n (allocated-AllFit u))))
          (Fits-listed c.next_watcher (new_watch resources t) c.heap _ watching-Adds _
            (subscribed_state t found_state) refl
            (Fits-subscribed c.heap _ t found_state found-Fits)))
  ]
    where
      watching_state : (watching resources t c).api_state t ≡ some with_watch
      watching_state = put_self (api_state_for t c).1.api_state t with_watch

      beside :
          (u : String)
          → (t == u) ≡ false
          → Fits c.heap
              (api_state_for t c).1.subscriptions
              u
              (state_of ((api_state_for t c).1.api_state u))
          → Fits
              (watching resources t c).heap
              (api_state_for t c).1.subscriptions
              u
              (state_of ((api_state_for t c).1.api_state u))
      beside u n =
          (Fits-beside c.next_watcher (new_watch resources t) c.heap (watching resources t c).heap
            watching-Adds _ u _ n).0

  pub watching_rest :
      ((watching resources t c).stream ≡ c.stream)
      × ((watching resources t c).request_queue ≡ c.request_queue)
  watching_rest =
      let rest = api_state_for-rest t c in
      (ap (λ (x : AdsClient). x.stream) rest, ap (λ (x : AdsClient). x.request_queue) rest)

  pub added_rest : added ≡ record (watching resources t c) {
    api_state = added.api_state;
    subscriptions = added.subscriptions;
  }
  added_rest = subscribe_rest t (watching resources t c)

  pub added-IsSound : IsSound added
  added-IsSound = record {
    states = λ u. rw added_rest (added-AllFit u);
    unused = λ p h.
        rw added_rest
          (watching_unused p (rw (ap (λ (x : AdsClient). x.next_watcher) added_rest) at h));
    idle = rw added_rest (rw (watching_rest.0, watching_rest.1) s.idle);
  }
    where
      watching_unused : (p : ℕ) → suc c.next_watcher ≤ p → (watching resources t c).heap p ≡ none
      watching_unused p h = watching-Adds.others p (ground arith) ∙ s.unused p (omega arith)
