-- ===== src/Client/Resuming.antt =====
-- `onStreamEstablished` of AdsClient.cpp for a client that has subscriptions already.

use mathlib.Core.List.{append-nil, append_assoc}
use xds_client.Base.{
  ℕ, zero, suc, ◌+◌, ◌≤◌, String, true, false, some, none, List, [], ◌∷◌, ◌++◌, ◌≡◌, refl, sym, ap,
  ◌∙◌, length, map, get_elem?, All, All-mono, ok, arith, ◌>>=◌,
}
use xds_client.Client.State.{AdsClient, clear_nonce}
use xds_client.Client.Requests.{queue_discovery_request, drain_requests}
use xds_client.Client.Streams.{new_stream, request_subscriptions, on_stream_established}
use xds_client.Client.Steps.Established.{opened}
use xds_client.Client.Silent.{
  Summary, IsResumed, IsSilent, types, summaries, again, queue_silent, next, filled, next-IsSilent,
  next-IsResumed, types-next, again-next, summaries-next,
}

-- The subscriptions from position `i` on.
abbrev IsRest : AdsClient → ℕ → List String → Type 0
IsRest c i ts = (k : ℕ) → get_elem? c.subscriptions (k + i) ≡ get_elem? ts k

IsRest-first :
    (c : AdsClient) (i : ℕ) (ts : List String)
    → IsRest c i ts
    → get_elem? c.subscriptions i ≡ get_elem? ts 0
IsRest-first c i ts rest = ap (get_elem? c.subscriptions) (omega arith) ∙ rest 0

pub request_end :
    (f i : ℕ) (c : AdsClient)
    → get_elem? c.subscriptions i ≡ none
    → request_subscriptions (suc f) i c ≡ ok c
unfolding request_subscriptions
request_end f i c h = ground arith

pub request_more :
    (f i : ℕ) (t : String) (c : AdsClient)
    → get_elem? c.subscriptions i ≡ some t
    → request_subscriptions (suc f) i c ≡ (
        queue_discovery_request (drain_requests f) t c >>= λ c1. request_subscriptions f (suc i) c1)
unfolding request_subscriptions
request_more f i t c h = ground arith

map-eq : (f g : String → Summary) (ts : List String) → All (λ t. f t ≡ g t) ts → map f ts ≡ map g ts
map-eq f g [] h = refl
map-eq f g (t ∷ ts) h = rw (h.0, map-eq f g ts h.1) refl

pub request_resumes :
    (ts : List String) (f i : ℕ) (c : AdsClient)
    → IsSilent c
    → All (IsResumed c) ts
    → IsRest c i ts
    → length ts + 2 ≤ f
    → (d : AdsClient) × (request_subscriptions f i c ≡ ok d)
      × (types d ≡ types c ++ ts)
      × (summaries d ≡ summaries c ++ map (again c) ts)
      × (d.subscriptions ≡ c.subscriptions)
      × IsSilent d
request_resumes [] zero i c s k rest fuel = absurd (omega arith)
request_resumes [] (suc f) i c s k rest fuel = (
  c,
  request_end f i c (IsRest-first c i [] rest),
  sym (append-nil (types c)),
  sym (append-nil (summaries c)),
  refl,
  s,
)
request_resumes (t ∷ ts) zero i c s k rest fuel = absurd (omega arith)
request_resumes (t ∷ ts) (suc zero) i c s k rest fuel = absurd (omega arith)
request_resumes (t ∷ ts) (suc (suc zero)) i c s k rest fuel = absurd (omega arith)
request_resumes (t ∷ ts) (suc (suc (suc f))) i c s k rest fuel =
    let r = k.0 in
    let c1 = next t c s r in
    let kept : c1.subscriptions ≡ c.subscriptions = (filled t c s r).4 in
    let (d, run, wrote, asked, same, silent) =
      request_resumes ts (suc (suc f)) (suc i) c1 (next-IsSilent t c s r)
        (All-mono (IsResumed c) (IsResumed c1) ts (next-IsResumed t c s r) k.1)
        (λ n.
          ap (λ l. get_elem? l (n + suc i)) kept
          ∙ ap (get_elem? c.subscriptions) (omega arith)
          ∙ rest (suc n))
        (omega (arith, fuel)) in
    (
      d,
      request_more (suc (suc f)) i t c (IsRest-first c i (t ∷ ts) rest)
          ∙ ap (λ x. x >>= λ c1. request_subscriptions (suc (suc f)) (suc i) c1)
              (queue_silent f t c s r)
          ∙ run,
      wrote ∙ ap (λ l. l ++ ts) (types-next t c s r) ∙ append_assoc (types c) (t ∷ []) ts,
      asked
          ∙ ap (λ l. summaries c1 ++ l)
              (map-eq (again c1) (again c) ts
                (All-mono (IsResumed c) (λ u. again c1 u ≡ again c u) ts (again-next t c s r) k.1))
          ∙ ap (λ l. l ++ map (again c) ts) (summaries-next t c s r)
          ∙ append_assoc (summaries c) (again c t ∷ []) (map (again c) ts),
      same ∙ kept,
      silent,
    )

opened-IsResumed : (c : AdsClient) (t : String) → IsResumed c t → IsResumed (opened [] c) t
unfolding clear_nonce
opened-IsResumed c t r = record {
  state = record r.state { request = record r.state.request { response_nonce = "" } };
  names = r.names;
  found = ground (arith, r.found);
  subscribed = r.subscribed;
  unpaused = r.unpaused;
  own_type = r.own_type;
  live = r.live;
}

-- What a type is asked for on a new stream: the names of its watches, with the version that was noted
-- and without a nonce.
abbrev pub resumption : AdsClient → String → Summary
resumption c t = record (again c t) { response_nonce = "" }

again-opened : (c : AdsClient) (t : String) → again (opened [] c) t ≡ resumption c t
unfolding clear_nonce
again-opened c t = ground arith

-- For a client that has a stub, has not asked for a stream before and is not shut down, and each of
-- whose subscriptions is marked as subscribed, not paused, with live watches and its own type in its
-- request, for a server that sends nothing, and for fuel of at least the number of subscriptions plus
-- two: onStreamEstablished returns, has written exactly one request for each subscription, in their
-- order, for the names of the type's watches, with the version noted for the type and without a nonce,
-- and leaves the subscriptions as they are.
pub on_stream_established_resumes :
    (f : ℕ) (c : AdsClient)
    → c.has_stub ≡ true
    → c.context_used ≡ false
    → c.shut_down ≡ false
    → All (IsResumed c) c.subscriptions
    → length c.subscriptions + 2 ≤ f
    → (d : AdsClient) × (on_stream_established f (some []) c ≡ ok d)
      × (summaries d ≡ map (resumption c) c.subscriptions)
      × (d.subscriptions ≡ c.subscriptions)
unfolding on_stream_established clear_nonce
on_stream_established_resumes f c stub unused s k fuel =
    let (d, run, wrote, asked, same, silent) =
      request_resumes c.subscriptions f 0 (opened [] c)
        (record {
          stream = new_stream [];
          found = refl;
          nothing = refl;
          queue = refl;
          open_still = s;
        })
        (All-mono (IsResumed c) (IsResumed (opened [] c)) c.subscriptions (opened-IsResumed c) k)
        (λ n. ap (get_elem? c.subscriptions) (omega arith)) fuel in
    (
      d,
      ground (arith, stub, unused, run),
      asked
          ∙ map-eq (again (opened [] c)) (resumption c) c.subscriptions (
              All-mono (IsResumed c) (λ u. again (opened [] c) u ≡ resumption c u) c.subscriptions
                (λ u _. again-opened c u) k),
      same,
    )
