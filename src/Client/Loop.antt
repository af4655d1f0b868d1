-- ===== src/Client/Loop.antt =====
-- What the proofs about the loop of requests and answers of AdsClient.cpp speak of.
pub mod Send
pub mod Answer
pub mod Drain
pub mod Read
pub mod Ends
pub mod Entry
use xds_client.Base.{
  ℕ, ◌+◌, ◌*◌, String, Bool, true, false, not, ◌&&◌, ◌||◌, Option, none, some, List, [], ◌∷◌, ◌++◌,
  ◌≡◌, refl, ap, sym, ◌∙◌, length, ltb, Outcome, ok, put, arith, eq_iff,
}
use mathlib.Core.Path.{subst}
use xds_client.Wire.{DiscoveryRequest, DiscoveryResponse, Stream}
use xds_client.Client.State.{AdsClient, ApiState, Watcher}
use xds_client.Client.Requests.{watched}

-- What the server still sends.
abbrev pub stream_inbound : Option Stream → List DiscoveryResponse
stream_inbound none = []
stream_inbound (some st) = st.inbound

abbrev pub inbound : AdsClient → List DiscoveryResponse
inbound c = stream_inbound c.stream

-- What the client has written on its stream.
abbrev pub stream_written : Option Stream → List DiscoveryRequest
stream_written none = []
stream_written (some st) = st.written

abbrev pub written : AdsClient → List DiscoveryRequest
written c = stream_written c.stream

-- The requests that wait.
abbrev pub queued : AdsClient → List String
queued c = elim c.request_queue [ none ↦ [] | some q ↦ q ]

-- An answer may put a request into the queue, so it counts for two.
abbrev pub backlog : AdsClient → ℕ
backlog c = 2 * length (inbound c) + length (queued c)

-- What decides of the state of a type whether an answer makes the client write again.
pub record Profile : Type 0 where
  pub watches : List ℕ
  pub pauses : ℕ

abbrev pub profile : Option ApiState → Option Profile
profile none = none
profile (some a) = some (record { watches = a.watches; pauses = a.pauses })

abbrev pub is_empty {ℓ} : {A : Type ℓ} → List A → Bool
is_empty [] = true
is_empty (_ ∷ _) = false

-- The answer is of a type that is not paused, and which is watched or of which it has resources.
abbrev pub asks_at : Option Profile → DiscoveryResponse → Bool
asks_at none m = false
asks_at (some p) m =
    not (ltb 0 p.pauses) && (not (is_empty p.watches) || not (is_empty m.resources))

abbrev pub asks : AdsClient → DiscoveryResponse → Bool
asks c m = asks_at (profile (c.api_state m.type_url)) m

abbrev pub some_asks : AdsClient → List DiscoveryResponse → Bool
some_asks c [] = false
some_asks c (m ∷ ms) = asks c m || some_asks c ms

abbrev pub SameProfiles : AdsClient → AdsClient → Type 0
SameProfiles c d = (u : String) → profile (d.api_state u) ≡ profile (c.api_state u)

abbrev pub IsKnown : Option Profile → Type 0
IsKnown none = ⊥
IsKnown (some p) = Unit

abbrev pub IsLive : (ℕ → Option Watcher) → Option Profile → Type 0
IsLive heap none = Unit
IsLive heap (some p) = (names : List String) × (watched heap p.watches ≡ ok names)

abbrev pub AllKnown : AdsClient → List String → Type 0
AllKnown c [] = Unit
AllKnown c (t ∷ ts) = IsKnown (profile (c.api_state t)) × AllKnown c ts

-- The client has a stream, every queued type has a state, and no list has a dangling watch.
pub record Ready (c : AdsClient) : Type 0 where
  pub stream : (st : Stream) × (c.stream ≡ some st)
  pub queue : (q : List String) × (c.request_queue ≡ some q)
  pub known : AllKnown c (queued c)
  pub live : (u : String) → IsLive c.heap (profile (c.api_state u))

-- A state is put back with its profile as it was.
pub SameProfiles-put :
    (api : String → Option ApiState) (t : String) (a b : ApiState)
    → api t ≡ some a
    → profile (some b) ≡ profile (some a)
    → (u : String) → profile (put api t b u) ≡ profile (api u)
SameProfiles-put api t a b ha hb u = ground (arith, eq_iff t u)

pub asks-SameProfiles :
    (c d : AdsClient) (m : DiscoveryResponse) → SameProfiles c d → asks d m ≡ asks c m
asks-SameProfiles c d m h = ap (λ p. asks_at p m) (h m.type_url)

pub some_asks-SameProfiles :
    (c d : AdsClient) (ms : List DiscoveryResponse)
    → SameProfiles c d
    → some_asks d ms ≡ some_asks c ms
some_asks-SameProfiles c d [] h = refl
some_asks-SameProfiles c d (m ∷ ms) h =
    rw (asks-SameProfiles c d m h, some_asks-SameProfiles c d ms h)

pub AllKnown-SameProfiles :
    (c d : AdsClient) (ts : List String) → SameProfiles c d → AllKnown c ts → AllKnown d ts
AllKnown-SameProfiles c d [] h k = tt
AllKnown-SameProfiles c d (t ∷ ts) h k =
    (subst IsKnown (sym (h t)) k.0, AllKnown-SameProfiles c d ts h k.1)

pub AllKnown-append :
    (c : AdsClient) (ts us : List String) → AllKnown c ts → AllKnown c us → AllKnown c (ts ++ us)
AllKnown-append c [] us h k = k
AllKnown-append c (t ∷ ts) us h k = (h.0, AllKnown-append c ts us h.1 k)

-- Where profiles and the heap stay, so does readiness, given a stream and a queue of known types.
pub Ready-SameProfiles :
    (c d : AdsClient) (st : Stream) (q : List String)
    → SameProfiles c d
    → d.heap ≡ c.heap
    → d.stream ≡ some st
    → d.request_queue ≡ some q
    → AllKnown c q
    → Ready c
    → Ready d
Ready-SameProfiles c d st q same eh es eq k r = record {
  stream = (st, es);
  queue = (q, eq);
  known = rw eq (AllKnown-SameProfiles c d q same k);
  live = λ u. rw (eh, same u) (r.live u);
}

-- `d` differs from `c` in nothing that the loop depends on.
pub record Stays (c d : AdsClient) : Type 0 where
  pub ready : Ready d
  pub queue : d.request_queue ≡ c.request_queue
  pub arriving : inbound d ≡ inbound c
  pub shut : d.shut_down ≡ c.shut_down
  pub same : SameProfiles c d

pub IsKnown-some : (o : Option ApiState) → IsKnown (profile o) → (a : ApiState) × (o ≡ some a)
IsKnown-some none h = absurd h
IsKnown-some (some a) h = (a, refl)

pub live_names :
    (c : AdsClient) (u : String) (a : ApiState)
    → Ready c
    → c.api_state u ≡ some a
    → (names : List String) × (watched c.heap a.watches ≡ ok names)
live_names c u a r e = subst (λ o. IsLive c.heap (profile o)) e (r.live u)

pub queued-eq : (c : AdsClient) (q : List String) → c.request_queue ≡ some q → queued c ≡ q
queued-eq c q e = ground arith

Stays-queued : (c d : AdsClient) → Stays c d → queued d ≡ queued c
Stays-queued c d h = ground (arith, h.queue)

pub Stays-backlog : (c d : AdsClient) → Stays c d → backlog d ≡ backlog c
Stays-backlog c d h = omega (arith, ap length h.arriving, ap length (Stays-queued c d h))

pub Stays-asks : (c d : AdsClient) → Stays c d → some_asks d (inbound d) ≡ some_asks c (inbound c)
Stays-asks c d h =
    some_asks-SameProfiles c d (inbound d) h.same ∙ ap (λ ms. some_asks c ms) h.arriving
