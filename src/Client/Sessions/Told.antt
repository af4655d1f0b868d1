-- ===== src/Client/Sessions/Told.antt =====
-- AdsClient.cpp: what the server has been told when a request returns.
use mathlib.Core.Path.{subst}
use mathlib.Core.List.{append-nil, append_assoc}
use xds_client.Base.{
  ℕ, zero, suc, String, true, false, Option, some, List, [], ◌∷◌, ◌++◌, ◌≡◌, ◌↔◌, refl, sym, ap,
  ◌∙◌, ok, Outcome, after-returns, contains, arith,
}
use xds_client.Wire.{DiscoveryRequest, Stream}
use xds_client.Client.State.{AdsClient, ApiState, Watcher, api_state_for}
use xds_client.Client.Requests.{
  fill_node, send_request, send_discovery_request, pop_request, queue_discovery_request,
  drain_requests, read_responses,
}
use xds_client.Client.Loop.{written, queued-eq}
use xds_client.Client.Loop.Send.{named}
use xds_client.Client.Loop.Drain.{drain_busy}
use xds_client.Client.Loop.Entry.{entered, entered-queue, api_state_for-rest}
use xds_client.Client.Steps.{allocate, Reach, next, Reach-trans}
use xds_client.Client.Steps.Runs.{send_request-sent, send-Reach, pop-Step}
use xds_client.Client.Steps.Drains.{drain-zero, drain_requests-Reach, read_responses-Reach}
use xds_client.Client.Sessions.{state_of, Fits, IsSound}
use xds_client.Client.Sessions.Lists.{state_of-found, state_of-allocate}
use xds_client.Client.Sessions.Loops.{Keeps, room, Step-Keeps, Reach-Keeps}
use xds_client.Client.Sessions.Idle.{IsSound-Keeps}
use xds_client.Client.Sessions.Requests.{all-Ready, unpaused_type, idle_queue}
use xds_client.Client.Sessions.Names.{Holder, filled-Holder}
use xds_client.Client.Content.{filled_type}
use xds_client.Client.Sessions.Wire.{Reach-Writes}

-- The request is of the type, and names what the watches of the type in the memory hold.
abbrev pub Tells : (ℕ → Option Watcher) → String → DiscoveryRequest → Type 0
Tells heap t r =
    (r.type_url ≡ t) × ((x : String) → (contains r.resource_names x ≡ true) ↔ Holder heap t x)

-- Such a request is on the stream.
abbrev pub Told : (ℕ → Option Watcher) → String → AdsClient → Type 0
Told heap t c =
    (r : DiscoveryRequest) × (before after : List DiscoveryRequest) × (written c
      ≡ before ++ r ∷ after)
    × Tells heap t r

pub Told-append :
    (heap : ℕ → Option Watcher) (t : String) (c d : AdsClient) (more : List DiscoveryRequest)
    → written d ≡ written c ++ more
    → Told heap t c
    → Told heap t d
Told-append heap t c d more e (r, before, after, w, tells) = (
  r,
  before,
  after ++ more,
  e ∙ ap (λ l. l ++ more) w ∙ append_assoc before (r ∷ after) more,
  tells,
)

send_returns :
    (read : AdsClient → Outcome AdsClient) (t : String) (c d : AdsClient)
    → c.shut_down ≡ false
    → send_discovery_request read t c ≡ ok d
    → (e : AdsClient) × (send_request t c ≡ ok e) × (read e ≡ ok d)
unfolding send_discovery_request
send_returns read t c d s h = after-returns read (send_request t c) (ground arith)

-- What a run writes comes behind what was there.
pub Reach-written :
    (c d : AdsClient) (heap : ℕ → Option Watcher) (address bound : ℕ)
    → Reach c d
    → Keeps heap heap address bound c
    → (more : List DiscoveryRequest) × (written d ≡ written c ++ more)
Reach-written c d heap address bound r k =
    let (rs, w, _) =
      Reach-Writes heap heap address bound (written c) (λ p w e. e) c d r k
        ([], sym (append-nil (written c)), tt) in
    (rs, w)

module _ (c : AdsClient) (s : IsSound c) where
  abbrev Kept : AdsClient → Type 0
  Kept = Keeps c.heap c.heap c.next_watcher (room c)

  entered-Keeps : (t : String) → Kept (entered t c)
  entered-Keeps t =
      let k =
        Step-Keeps c.heap c.heap c.next_watcher (room c) c (api_state_for t c).1 (allocate t c)
          (IsSound-Keeps c s) in
      record { fit = k.fit; memory = k.memory; address = k.address; bounded = k.bounded }

  -- The first request that is sent tells the server of the type.
  sent-Told :
      (t : String) (d e : AdsClient)
      → Kept d
      → (state_of (d.api_state t)).subscribed ≡ true
      → send_request t d ≡ ok e
      → Told c.heap t e
  sent-Told t d e k subscribed h =
      let (names, st, found, connected, same) = send_request-sent t d e h in
      let (a, d1) = api_state_for t d in
      let k1 =
        Step-Keeps c.heap c.heap c.next_watcher (room c) d (api_state_for t d).1 (allocate t d) k in
      let fits : Fits c.heap d1.subscriptions t a =
        subst (Fits c.heap d1.subscriptions t) (state_of-allocate t t d ∙ sym (state_of-found t d))
          (k1.fit t) in
      let r = (fill_node t (named a names) d1).0.request in
      let sub : a.subscribed ≡ true =
        ap (λ (x : ApiState). x.subscribed) (state_of-found t d) ∙ subscribed in
      subst (Told c.heap t) same (
        r,
        st.written,
        [],
        refl,
        (
          filled_type t (named a names) d1 sub ∙ fits.named sub,
          filled-Holder c.heap d1.heap t a d1.subscriptions
              (λ p w e. subst (λ h. h p ≡ some w) (sym k1.memory) e) fits names d1 found,
        ),
      )

  -- A request that returns has told the server what the watches of its type hold.
  pub queue-Told :
      (f : ℕ) (t : String) (st : Stream) (d : AdsClient)
      → c.stream ≡ some st
      → c.shut_down ≡ false
      → (state_of (c.api_state t)).subscribed ≡ true
      → queue_discovery_request (drain_requests f) t c ≡ ok d
      → Told c.heap t d
  queue-Told f t st d hs open_still subscribed h = drained f (
      sym (
        entered-queue t c f (all-Ready c.heap c s.states (λ p w e. e) st hs s.idle)
          (unpaused_type c.heap c s.states (λ p w e. e) t))
      ∙ h)
    where
      start : AdsClient
      start = entered t c

      waiting : start.request_queue ≡ some (t ∷ [])
      waiting =
          ap (λ (q : List String). some (q ++ t ∷ []))
            (queued-eq c [] (idle_queue c.heap c s.states (λ p w e. e) st hs s.idle))

      rest_same : start.shut_down ≡ false
      rest_same = ap (λ (x : AdsClient). x.shut_down) (api_state_for-rest t c) ∙ open_still

      drained : (g : ℕ) → drain_requests g start ≡ ok d → Told c.heap t d
      drained zero run = absurd (cc (drain-zero start, run))
      drained (suc g) run =
          let (c1, sending, after1) =
            after-returns _ (send_discovery_request (read_responses g) t start)
              (sym (drain_busy g t [] start waiting) ∙ run) in
          let (c2, popped, rest) = after-returns _ (pop_request c1) after1 in
          let (e, wrote, read) = send_returns (read_responses g) t start c1 rest_same sending in
          let onward : Reach e d =
            Reach-trans (next (read_responses-Reach g e c1 read) (pop-Step c1 c2 popped))
              (drain_requests-Reach g c2 d rest) in
          let first = entered-Keeps t in
          let kept =
            Reach-Keeps c.heap c.heap c.next_watcher (room c) start e
              (send-Reach t start e rest_same wrote) first in
          let (more, grown) = Reach-written e d c.heap c.next_watcher (room c) onward kept in
          Told-append c.heap t e d more grown (
            sent-Told t start e first
              (ap (λ (x : ApiState). x.subscribed) (state_of-allocate t t c) ∙ subscribed) wrote)
