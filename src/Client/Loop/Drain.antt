-- ===== src/Client/Loop/Drain.antt =====
-- `drainRequests` and the loop of `sendDiscoveryRequest` of AdsClient.cpp, which call one another.
use mathlib.Core.Path.{subst}
use xds_client.Base.{
  ℕ, suc, ◌+◌, ◌*◌, ◌≤◌, String, true, false, none, some, List, [], ◌∷◌, ◌≡◌, ◌⊎◌, inl, inr, refl,
  sym, ap, ◌∙◌, length, Fault, Outcome, ok, fault, empty_pop, ◌>>=◌, Ends, Ends-bind, Ends-map,
  arith, Bool-cases,
}
use xds_client.Client.State.{AdsClient}
use xds_client.Client.Requests.{
  send_request, send_discovery_request, pop_request, front_request, drain_requests, read_responses,
}
use xds_client.Client.Loop.{
  inbound, written, queued, backlog, some_asks, Ready, Ready-SameProfiles, Stays, Stays-backlog,
  Stays-asks, queued-eq, AllKnown,
}
use xds_client.Client.Loop.Send.{send_request-Stays}

-- The only fault of the loop, and when it comes.
abbrev pub Fails : AdsClient → Fault → Type 0
Fails c e = (e ≡ empty_pop) × (some_asks c (inbound c) ≡ true)

-- What the reading of the answers ends in.
pub record IsRead (c d : AdsClient) : Type 0 where
  pub ready : Ready d
  pub open_still : d.shut_down ≡ false
  pub none_left : inbound d ≡ []
  pub shrinks : backlog d ≤ backlog c
  pub asked : some_asks c (inbound c) ≡ true → d.request_queue ≡ some []
  pub quiet :
      some_asks c (inbound c) ≡ false
      → (d.request_queue ≡ c.request_queue) × (written d ≡ written c)

-- What the draining of the queue ends in.
pub record IsDrained (c d : AdsClient) : Type 0 where
  pub ready : Ready d
  pub open_still : d.shut_down ≡ false
  pub empty : d.request_queue ≡ some []
  pub shrinks : backlog d ≤ backlog c
  pub counted : length (written d) ≡ length (written c) + length (queued c)
  pub still_none : inbound c ≡ [] → inbound d ≡ []
  pub unasked : (c.request_queue ≡ some []) ⊎ ((inbound d ≡ []) × (some_asks c (inbound c) ≡ false))

abbrev pub DrainEnds : ℕ → Type 0
DrainEnds f =
    (c : AdsClient)
    → Ready c
    → c.shut_down ≡ false
    → 2 * backlog c + 2 ≤ f
    → Ends (Fails c) (IsDrained c) (drain_requests f c)

abbrev pub ReadEnds : ℕ → Type 0
ReadEnds f =
    (c : AdsClient)
    → Ready c
    → c.shut_down ≡ false
    → 2 * backlog c + 1 ≤ f
    → Ends (Fails c) (IsRead c) (read_responses f c)

pub front_request-empty : (c : AdsClient) → c.request_queue ≡ some [] → front_request c ≡ ok none
unfolding front_request
front_request-empty c e = ground arith

pub front_request-front :
    (t : String) (q : List String) (c : AdsClient)
    → c.request_queue ≡ some (t ∷ q)
    → front_request c ≡ ok (some t)
unfolding front_request
front_request-front t q c e = ground arith

-- An empty queue is drained.
pub drain_idle :
    (f : ℕ) (c : AdsClient) → c.request_queue ≡ some [] → drain_requests (suc f) c ≡ ok c
unfolding drain_requests
drain_idle f c e = rw (front_request-empty c e)

-- The queue behind the request that was sent.
pub pop_request-eq-ok :
    (t : String) (q : List String) (c : AdsClient)
    → c.request_queue ≡ some (t ∷ q)
    → pop_request c ≡ ok (record c { request_queue = some q })
unfolding pop_request
pop_request-eq-ok t q c e = ground arith

pop_request-empty : (c : AdsClient) → c.request_queue ≡ some [] → pop_request c ≡ fault empty_pop
unfolding pop_request
pop_request-empty c e = ground arith

pub drain_busy :
    (f : ℕ) (t : String) (q : List String) (c : AdsClient)
    → c.request_queue ≡ some (t ∷ q)
    → drain_requests (suc f) c ≡ (
        send_discovery_request (read_responses f) t c >>= λ c1.
        pop_request c1 >>= λ c2. drain_requests f c2)
unfolding drain_requests
drain_busy f t q c e = rw (front_request-front t q c e)

pub send_open :
    (read : AdsClient → Outcome AdsClient) (t : String) (c d : AdsClient)
    → c.shut_down ≡ false
    → send_request t c ≡ ok d
    → send_discovery_request read t c ≡ read d
unfolding send_discovery_request
send_open read t c d e h = ground arith

-- A queue with one request, whose answers ask for nothing, is drained by one round.
pub drain_single :
    (f : ℕ) (t : String) (c d e : AdsClient)
    → c.shut_down ≡ false
    → c.request_queue ≡ some (t ∷ [])
    → send_request t c ≡ ok d
    → read_responses (suc f) d ≡ ok e
    → e.request_queue ≡ some (t ∷ [])
    → drain_requests (suc (suc f)) c ≡ ok (record e { request_queue = some [] })
drain_single f t c d e s hq sending reading same =
    drain_busy (suc f) t [] c hq
    ∙ ap (λ x. x >>= λ c1. pop_request c1 >>= λ c2. drain_requests (suc f) c2)
        (send_open (read_responses (suc f)) t c d s sending ∙ reading)
    ∙ ap (λ x. x >>= λ c2. drain_requests (suc f) c2) (pop_request-eq-ok t [] e same)
    ∙ drain_idle f (record e { request_queue = some [] }) refl

pub idle-IsDrained :
    (c : AdsClient) → Ready c → c.shut_down ≡ false → c.request_queue ≡ some [] → IsDrained c c
idle-IsDrained c r s e = record {
  ready = r;
  open_still = s;
  empty = e;
  shrinks = omega arith;
  counted = omega (arith, ap length (queued-eq c [] e));
  still_none = λ h. h;
  unasked = inl e;
}

-- The client after the front of its queue is taken off.
pub pop_request-Ready :
    (t : String) (q : List String) (c : AdsClient)
    → c.request_queue ≡ some (t ∷ q)
    → Ready c
    → Ready (record c { request_queue = some q })
pop_request-Ready t q c e r =
    Ready-SameProfiles c _ r.stream.0 q (λ u. refl) refl r.stream.1 refl
      (subst (λ ts. AllKnown c ts) (queued-eq c (t ∷ q) e) r.known).1 r

-- The client `d` has sent the front of the queue of `c`, and `e` has read all answers, of which
-- none asked for more.
module _ (f : ℕ) (t : String) (q : List String) (c d e : AdsClient) (ih : DrainEnds f)
    (hq : c.request_queue ≡ some (t ∷ q)) (fuel : 2 * backlog c + 2 ≤ suc f) (stays : Stays c d)
    (one : length (written d) ≡ length (written c) + 1) (done : IsRead d e)
    (quiet : some_asks d (inbound d) ≡ false) where
  rest_queue : e.request_queue ≡ some (t ∷ q)
  rest_queue = (done.quiet quiet).0 ∙ stays.queue ∙ hq

  rest_backlog : backlog (record e { request_queue = some q }) + 1 ≤ backlog c
  rest_backlog =
      omega
        (arith, ap length (queued-eq e (t ∷ q) rest_queue), done.shrinks, Stays-backlog c d stays)

  rest-IsDrained :
      (g : AdsClient) → IsDrained (record e { request_queue = some q }) g → IsDrained c g
  rest-IsDrained g k = record {
    ready = k.ready;
    open_still = k.open_still;
    empty = k.empty;
    shrinks = omega (arith, rest_backlog, k.shrinks);
    counted =
        omega (
          arith,
          k.counted,
          one,
          ap length (done.quiet quiet).1,
          ap length (queued-eq c (t ∷ q) hq),
        );
    still_none = λ _. k.still_none done.none_left;
    unasked = inr (k.still_none done.none_left, sym (Stays-asks c d stays) ∙ quiet);
  }

  drain_rest : Ends (Fails c) (IsDrained c) (pop_request e >>= λ c2. drain_requests f c2)
  drain_rest = rw (pop_request-eq-ok t q e rest_queue) (
      Ends-map (Fails left) (Fails c) (IsDrained left) (IsDrained c) (drain_requests f left)
        (ih left (pop_request-Ready t q e rest_queue done.ready) done.open_still
          (omega (arith, rest_backlog)))
        (λ x h. absurd (cc (ap (λ ms. some_asks left ms) done.none_left, h.1)))
        (λ g k. rest-IsDrained g k))
    where
      left : AdsClient
      left = record e { request_queue = some q }

-- One round of `drainRequests`.
pub drain_round :
    (f : ℕ) (t : String) (q : List String) (c : AdsClient)
    → DrainEnds f
    → ReadEnds f
    → Ready c
    → c.shut_down ≡ false
    → c.request_queue ≡ some (t ∷ q)
    → 2 * backlog c + 2 ≤ suc f
    → Ends (Fails c) (IsDrained c) (drain_requests (suc f) c)
drain_round f t q c ihd ihr r s hq fuel =
    let (d, wrote, stays, one) = send_request-Stays t q c r hq in
    rw (drain_busy f t q c hq, send_open (read_responses f) t c d s wrote)
      (Ends-bind (Fails d) (Fails c) (IsRead d) (IsDrained c) (read_responses f d) _
        (ihr d stays.ready (stays.shut ∙ s) (omega (arith, Stays-backlog c d stays)))
        (λ x h. (h.0, sym (Stays-asks c d stays) ∙ h.1))
        (λ e done. elim (Bool-cases (some_asks d (inbound d))) [
          | inl asked ↦
              rw (pop_request-empty e (done.asked asked)) (refl, sym (Stays-asks c d stays) ∙ asked)
          | inr quiet ↦ drain_rest f t q c d e ihd hq fuel stays one done quiet
        ]))
