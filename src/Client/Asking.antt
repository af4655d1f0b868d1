-- ===== src/Client/Asking.antt =====
-- `drainRequests` and `sendDiscoveryRequest` of AdsClient.cpp: what the requests say that go out for
-- the types in the queue, when no answer makes the client write again.
use mathlib.Core.List.{append-nil, append_assoc}
use mathlib.Core.Path.{subst}
use xds_client.Base.{
  ℕ, zero, suc, ◌+◌, ◌*◌, ◌≤◌, String, true, false, Option, some, List, [], ◌∷◌, ◌++◌, ◌≡◌, refl,
  sym, ap, ◌∙◌, length, contains, ok, ◌>>=◌, ok-injective, arith,
}
use xds_client.Wire.{DiscoveryRequest}
use xds_client.Client.State.{AdsClient, ApiState, Watcher, api_state_for, paused}
use xds_client.Client.Requests.{
  fill_node, send_request, pop_request, queue_discovery_request, read_responses, drain_requests,
}
use xds_client.Client.Content.{
  NoRepeats, is_watched, contains-watched, contains-add_names, add_names-NoRepeats, filled_names,
  filled_type,
}
use xds_client.Client.Loop.{
  Ready, queued, queued-eq, inbound, written, backlog, some_asks, stream_written, Stays-asks,
  Stays-backlog,
}
use xds_client.Client.Loop.Send.{named, send_request-Stays}
use xds_client.Client.Loop.Drain.{
  drain_idle, drain_busy, send_open, pop_request-eq-ok, pop_request-Ready,
}
use xds_client.Client.Loop.Entry.{
  entered, entered-Ready, entered-queue, entered_numbers, api_state_for-rest,
  queue_discovery_request-IsDrained,
}
use xds_client.Client.Lasting.{Step-Lasts, Reach-Same}
use xds_client.Client.Answers.{Lasts, read_responses_quiet}
use xds_client.Client.Steps.{allocate, Reach-trans}
use xds_client.Client.Steps.Runs.{send-Reach, send_request-sent}
use xds_client.Client.Steps.Drains.{read_responses-Reach}
use xds_client.Client.Sessions.{state_of}
use xds_client.Client.Sessions.Lists.{state_of-found}

-- The request asks for a type in the state `a`: it lists each name once, and exactly those that the
-- watches of the state are set on, and it has the type that is noted, if there is a subscription.
pub record Asks (heap : ℕ → Option Watcher) (a : ApiState) (r : DiscoveryRequest) : Type 0 where
  pub distinct : NoRepeats r.resource_names
  pub names : (x : String) → contains r.resource_names x ≡ is_watched heap a.watches x
  pub typed : a.subscribed ≡ true → r.type_url ≡ a.request.type_url

-- One request for each of the types, in their order.
abbrev pub AskedAll :
    (ℕ → Option Watcher) → (String → Option ApiState) → List String → List DiscoveryRequest → Type 0
AskedAll heap api [] [] = Unit
AskedAll heap api [] (r ∷ rs) = ⊥
AskedAll heap api (t ∷ ts) [] = ⊥
AskedAll heap api (t ∷ ts) (r ∷ rs) = Asks heap (state_of (api t)) r × AskedAll heap api ts rs

-- What was written between two clients asks for the types.
abbrev pub Asked :
    (ℕ → Option Watcher) → (String → Option ApiState) → List String → AdsClient → AdsClient → Type 0
Asked heap api ts c d =
    (rs : List DiscoveryRequest) × (written d ≡ written c ++ rs) × AskedAll heap api ts rs

-- The request that is sent for one type.
send_request-Asks :
    (t : String) (c d : AdsClient)
    → send_request t c ≡ ok d
    → (r : DiscoveryRequest) × (written d ≡ written c ++ r ∷ [])
      × Asks c.heap (state_of (c.api_state t)) r
send_request-Asks t c d h =
    let (names, st, found, connected, e) = send_request-sent t c d h in
    let (a, c1) = api_state_for t c in
    let heap = ap (λ (x : AdsClient). x.heap) (api_state_for-rest t c) in
    let (listed, version, nonce) = filled_names t a names c1 in
    (
      (fill_node t (named a names) c1).0.request,
      ap written (sym e)
          ∙ ap (λ l. l ++ (fill_node t (named a names) c1).0.request ∷ [])
              (ap stream_written
                (sym connected ∙ ap (λ (x : AdsClient). x.stream) (api_state_for-rest t c))),
      subst (λ x. Asks c.heap x (fill_node t (named a names) c1).0.request) (state_of-found t c)
          (record {
            distinct = rw listed (add_names-NoRepeats [] names);
            names = λ x.
                ap (λ l. contains l x) listed
                ∙ contains-add_names [] names x
                ∙ contains-watched c1.heap a.watches names x found
                ∙ ap (λ h. is_watched h a.watches x) heap;
            typed = λ s. filled_type t (named a names) c1 s;
          }),
    )

pub AskedAll-earlier :
    (heap : ℕ → Option Watcher) (before api : String → Option ApiState) (ts : List String)
    (rs : List DiscoveryRequest)
    → ((u : String) → Lasts (state_of (before u)) (state_of (api u)))
    → AskedAll heap api ts rs
    → AskedAll heap before ts rs
AskedAll-earlier heap before api [] [] same h = tt
AskedAll-earlier heap before api [] (r ∷ rs) same h = h
AskedAll-earlier heap before api (t ∷ ts) [] same h = h
AskedAll-earlier heap before api (t ∷ ts) (r ∷ rs) same (h, hs) =
    let l = same t in
    (
      record {
        distinct = h.distinct;
        names = λ x. h.names x ∙ ap (λ ps. is_watched heap ps x) l.0;
        typed = λ s. h.typed (l.2 s).0 ∙ (l.2 s).1;
      },
      AskedAll-earlier heap before api ts rs same hs,
    )

drain_asks :
    (ts : List String) (f : ℕ) (c : AdsClient)
    → c.request_queue ≡ some ts
    → Ready c
    → c.shut_down ≡ false
    → some_asks c (inbound c) ≡ false
    → 2 * backlog c + 2 ≤ f
    → (d : AdsClient) × (drain_requests f c ≡ ok d) × Asked c.heap c.api_state ts c d
drain_asks ts zero c hq r s quiet fuel = absurd (omega arith)
drain_asks [] (suc f) c hq r s quiet fuel =
    (c, drain_idle f c hq, ([], sym (append-nil (written c)), tt))
drain_asks (t ∷ q) (suc f) c hq r s quiet fuel =
    let (d, wrote, stays, one) = send_request-Stays t q c r hq in
    let (x, put_out, asks) = send_request-Asks t c d wrote in
    let calm = Stays-asks c d stays ∙ quiet in
    let (e, reading, done, subs, states) =
      read_responses_quiet f d stays.ready (stays.shut ∙ s) calm
        (omega (arith, Stays-backlog c d stays)) in
    let rest : e.request_queue ≡ some (t ∷ q) = (done.quiet calm).0 ∙ stays.queue ∙ hq in
    let left : AdsClient = record e { request_queue = some q } in
    let (g, run, (xs, more, all)) =
      drain_asks q f left refl (pop_request-Ready t q e rest done.ready) done.open_still
        (ap (λ ms. some_asks left ms) done.none_left)
        (omega
          (arith, ap length (queued-eq e (t ∷ q) rest), done.shrinks, Stays-backlog c d stays)) in
    let same =
      Reach-Same c e
        (Reach-trans (send-Reach t c d s wrote) (read_responses-Reach f d e reading)) in
    (
      g,
      drain_busy f t q c hq
          ∙ ap (λ y. y >>= λ c1. pop_request c1 >>= λ c2. drain_requests f c2)
              (send_open (read_responses f) t c d s wrote ∙ reading)
          ∙ ap (λ y. y >>= λ c2. drain_requests f c2) (pop_request-eq-ok t q e rest)
          ∙ run,
      (
        x ∷ xs,
        more
            ∙ ap (λ l. l ++ xs) ((done.quiet calm).1 ∙ put_out)
            ∙ append_assoc (written c) (x ∷ []) xs,
        (
          asks,
          AskedAll-earlier c.heap c.api_state e.api_state q xs same.lasts
              (subst (λ m. AskedAll m e.api_state q xs) same.heap all),
        ),
      ),
    )

module _ (t : String) (c : AdsClient) (f : ℕ) (r : Ready c) (s : c.shut_down ≡ false)
    (p : paused (api_state_for t c).0 ≡ false) (fuel : 2 * backlog c + 4 ≤ f)
    (quiet : some_asks (api_state_for t c).1 (inbound c) ≡ false) where
  pub queue-Asked :
      (d : AdsClient)
      → queue_discovery_request (drain_requests f) t c ≡ ok d
      → Asked c.heap c.api_state (queued c ++ t ∷ []) c d
  queue-Asked d run =
      let numbers = entered_numbers t c in
      let (e, ran, (rs, out, all)) =
        drain_asks (queued c ++ t ∷ []) f (entered t c) refl (entered-Ready t c r) (numbers.3 ∙ s)
          (ap (λ ms. some_asks (api_state_for t c).1 ms) numbers.1 ∙ quiet)
          (omega (arith, numbers.2)) in
      let same : e ≡ d = ok-injective (sym ran ∙ sym (entered-queue t c f r p) ∙ run) in
      (
        rs,
        ap written (sym same) ∙ out ∙ ap (λ l. l ++ rs) numbers.0,
        subst (λ m. AskedAll m c.api_state (queued c ++ t ∷ []) rs)
            (ap (λ (x : AdsClient). x.heap) (api_state_for-rest t c))
            (AskedAll-earlier (entered t c).heap c.api_state (entered t c).api_state
              (queued c ++ t ∷ []) rs (Step-Lasts (allocate t c)) all),
      )

  -- For a client that is ready and not shut down, a type that is not paused, and fuel of at least
  -- twice the backlog plus four: if no message that the server still sends makes the client write
  -- again, `queueDiscoveryRequest` returns: the queue is empty, every message is read, and the
  -- requests that were written are one for each type that was queued, in the order of the queue, and
  -- then one for the type. Each lists, each name once, exactly the names that the watches of its type
  -- are set on, and has the type that is noted for it, if it is subscribed to.
  pub queue_discovery_request_asks :
      (d : AdsClient) × (queue_discovery_request (drain_requests f) t c ≡ ok d)
      × (d.request_queue ≡ some [])
      × (inbound d ≡ [])
      × Asked c.heap c.api_state (queued c ++ t ∷ []) c d
  queue_discovery_request_asks =
      let (d, run, done, gone, count) = queue_discovery_request-IsDrained t c f r s p fuel quiet in
      (d, run, done.empty, gone, queue-Asked d run)
