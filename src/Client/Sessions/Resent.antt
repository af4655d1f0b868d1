-- ===== src/Client/Sessions/Resent.antt =====
-- `onStreamEstablished` of AdsClient.cpp: what a new stream is told.
use mathlib.Core.Path.{subst}
use mathlib.Core.List.{append-nil}
use mathlib.Core.Option.{some-injective}
use xds_client.Base.{
  ℕ, zero, suc, ◌≤◌, ◌<◌, String, true, false, none, some, List, [], ◌∷◌, ◌++◌, ◌≡◌, refl, sym, ap,
  ◌∙◌, inl, inr, ok, after-returns, contains, ◌==◌, eq_iff, beq, beq_iff, Bool-cases, Option-cases,
  arith, get_elem?,
}
use xds_client.Wire.{DiscoveryResponse}
use xds_client.Client.State.{AdsClient, ApiState, Watcher, clear_nonce}
use xds_client.Client.Requests.{queue_discovery_request, drain_requests}
use xds_client.Client.Streams.{on_stream_established, request_subscriptions, new_stream}
use xds_client.Client.Loop.{is_empty}
use xds_client.Client.Steps.{Reach-keeps}
use xds_client.Client.Steps.Drains.{queue_discovery_request-Reach}
use xds_client.Client.Steps.Versions.{queue_discovery_request-Unacknowledged}
use xds_client.Client.Steps.Established.{established-loop, opened, request_subscriptions-Reach}
use xds_client.Client.Resuming.{request_more}
use xds_client.Client.Sessions.{count, state_of, IsSound}
use xds_client.Client.Sessions.Loops.{room}
use xds_client.Client.Sessions.Idle.{IsSound-Keeps, queue-IsSound}
use xds_client.Client.Sessions.Erasing.{live-listed}
use xds_client.Client.Sessions.Calls.{opened-IsSound}
use xds_client.Client.Sessions.Told.{Told, Told-append, Reach-written, queue-Told}
use xds_client.Client.Watching.{queue-heap}
use xds_client.Client.Sessions.Follows.{Follows, Step-Follows}

get_elem?-append :
    (xs ys : List String) (i : ℕ) (t : String)
    → get_elem? xs i ≡ some t
    → get_elem? (xs ++ ys) i ≡ some t
get_elem?-append [] ys i t h = absurd (cc)
get_elem?-append (x ∷ xs) ys zero t h = h
get_elem?-append (x ∷ xs) ys (suc i) t h = get_elem?-append xs ys i t h

get_elem?-ended :
    (xs : List String) (i j : ℕ) → get_elem? xs i ≡ none → i ≤ j → get_elem? xs j ≡ none
get_elem?-ended [] i j h k = refl
get_elem?-ended (x ∷ xs) zero j h k = absurd (cc)
get_elem?-ended (x ∷ xs) (suc i) zero h k = absurd (omega arith)
get_elem?-ended (x ∷ xs) (suc i) (suc j) h k = get_elem?-ended xs i j h (omega arith)

contains-get_elem? :
    (xs : List String) (t : String) → contains xs t ≡ true → (i : ℕ) × (get_elem? xs i ≡ some t)
contains-get_elem? [] t h = absurd (cc)
contains-get_elem? (x ∷ xs) t h = elim (Bool-cases (x == t)) [
  | inl e ↦ (0, ap some ((eq_iff x t).0 e))
  | inr e ↦ let (i, found) = contains-get_elem? xs t (ground (arith, h, e)) in (suc i, found)
]

subscribed_still :
    (f : ℕ) (u t : String) (c d : AdsClient)
    → queue_discovery_request (drain_requests f) u c ≡ ok d
    → (state_of (c.api_state t)).subscribed ≡ true
    → (state_of (d.api_state t)).subscribed ≡ true
subscribed_still f u t c d run h = elim (Option-cases (c.api_state t)) [
  | inl e ↦ absurd (cc (ap (λ o. (state_of o).subscribed) e, h))
  | inr (a, e) ↦
      let (b, found, kept) = queue_discovery_request-Unacknowledged f u t c d a run e in
      ap (λ o. (state_of o).subscribed) found
      ∙ kept.2 (sym (ap (λ o. (state_of o).subscribed) e) ∙ h)
]

-- The loop over the subscriptions tells the server of every type that is subscribed to and still to
-- come.
subscriptions-Told :
    (f i j : ℕ) (t : String) (c d : AdsClient)
    → IsSound c
    → Follows c c
    → request_subscriptions f i c ≡ ok d
    → i ≤ j
    → get_elem? c.subscriptions j ≡ some t
    → (state_of (c.api_state t)).subscribed ≡ true
    → Told c.heap t d
unfolding request_subscriptions
subscriptions-Told zero i j t c d s h run k found sub = absurd (cc)
subscriptions-Told (suc f) i j t c d s h run k found sub =
    elim (Option-cases (get_elem? c.subscriptions i)) [
      | inl e ↦ absurd (cc (get_elem?-ended c.subscriptions i j e k, found))
      | inr (u, e) ↦
          let (c1, queued, rest) =
            after-returns (λ x. request_subscriptions f (suc i) x)
              (queue_discovery_request (drain_requests f) u c)
              (sym (request_more f i u c e) ∙ run) in
          let sound = queue-IsSound f u c c1 queued s in
          let on =
            Reach-keeps (Follows c) (Step-Follows c) c
              (queue_discovery_request-Reach f u c c1 queued) h in
          let heap = queue-heap f u c c1 queued in
          elim (Bool-cases (beq i j)) [
            | inl same ↦
                let here : u ≡ t =
                  some-injective _ _
                    (sym e ∙ ap (get_elem? c.subscriptions) ((beq_iff i j).0 same) ∙ found) in
                let told : Told c.heap t c1 =
                  queue-Told c s f t h.stream.0 c1 h.stream.1 h.open_still sub (
                    subst (λ v. queue_discovery_request (drain_requests f) v c ≡ ok c1) here
                      queued) in
                let (more, grown) =
                  Reach-written c1 d c1.heap c1.next_watcher (room c1)
                    (request_subscriptions-Reach f (suc i) c1 d rest) (IsSound-Keeps c1 sound) in
                Told-append c.heap t c1 d more grown told
            | inr other ↦
                subst (λ m. Told m t d) heap
                  (subscriptions-Told f (suc i) j t c1 d sound
                    (record {
                      stream = on.stream;
                      open_still = on.open_still;
                      more = ([], sym (append-nil c1.subscriptions));
                    })
                    rest (ground arith)
                    (ap (λ l. get_elem? l j) on.more.1
                      ∙ get_elem?-append c.subscriptions on.more.0 j t found)
                    (subscribed_still f u t c c1 queued sub))
          ]
    ]

pub count-occupied : (p : ℕ) (ps : List ℕ) → 0 < count p ps → is_empty ps ≡ false
count-occupied p [] h = absurd (omega arith)
count-occupied p (x ∷ ps) h = refl

-- A new stream is told of every type that has a watch.
pub established-Told :
    (f : ℕ) (messages : List DiscoveryResponse) (c d : AdsClient) (p : ℕ) (w : Watcher)
    → IsSound c
    → c.shut_down ≡ false
    → on_stream_established f (some messages) c ≡ ok d
    → c.heap p ≡ some w
    → Told c.heap w.type_url d
unfolding clear_nonce
established-Told f messages c d p w sound open_still h live =
    let start : AdsClient = opened messages c in
    let s = opened-IsSound messages c sound in
    let (a, ha, stands) = live-listed p w start s live in
    let fits = s.states w.type_url in
    let same : state_of (start.api_state w.type_url) ≡ a = ap state_of ha in
    let subscribed =
      fits.asked
        (ap (λ (x : ApiState). is_empty x.watches) same ∙ count-occupied p a.watches stands) in
    let (j, found) = contains-get_elem? start.subscriptions w.type_url (fits.listed subscribed) in
    subscriptions-Told f 0 j w.type_url start d s
      (record {
        stream = (new_stream messages, refl);
        open_still = open_still;
        more = ([], sym (append-nil start.subscriptions));
      })
      (established-loop f messages c d h) (omega arith) found subscribed
