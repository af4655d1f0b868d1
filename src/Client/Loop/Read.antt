-- ===== src/Client/Loop/Read.antt =====
-- The loop `while (stream_->Read(...))` of `sendDiscoveryRequest` of AdsClient.cpp, one round of it.
use mathlib.Core.Path.{subst}
use mathlib.Core.Option.{some-injective}
use xds_client.Base.{
  ℕ, suc, ◌+◌, ◌*◌, ◌≤◌, String, true, false, some, none, List, [], ◌∷◌, ◌++◌, ◌≡◌, inl, inr, refl,
  sym, ap, ◌∙◌, length, length-append, ok, ◌>>=◌, Ends, Ends-bind, Ends-map, arith, Bool-cases,
}
use xds_client.Wire.{DiscoveryResponse, Stream}
use xds_client.Client.State.{AdsClient}
use xds_client.Client.Requests.{
  read_response, on_discovery_response, drain_requests, read_responses,
}
use xds_client.Client.Loop.{
  inbound, written, backlog, asks, some_asks, Ready, Ready-SameProfiles, Stays, Stays-backlog,
  Stays-asks, queued-eq, AllKnown, IsKnown, profile, AllKnown-append,
}
use xds_client.Client.Loop.Answer.{on_discovery_response-quiet, on_discovery_response-asks}
use xds_client.Client.Loop.Drain.{Fails, IsRead, IsDrained, DrainEnds, ReadEnds}

-- The client once the first answer is off the stream.
abbrev pub arrived : Stream → List DiscoveryResponse → AdsClient → AdsClient
arrived st rest c = record c { stream = some (record st { inbound = rest }) }

pub inbound-eq : (st : Stream) (c : AdsClient) → c.stream ≡ some st → inbound c ≡ st.inbound
inbound-eq st c h = ground arith

pub read_response-none :
    (st : Stream) (c : AdsClient) → c.stream ≡ some st → st.inbound ≡ [] → read_response c ≡ ok none
unfolding read_response
read_response-none st c hs hi = ground arith

pub read_response-some :
    (st : Stream) (m : DiscoveryResponse) (rest : List DiscoveryResponse) (c : AdsClient)
    → c.stream ≡ some st
    → st.inbound ≡ m ∷ rest
    → read_response c ≡ ok (some (m, arrived st rest c))
unfolding read_response
read_response-some st m rest c hs hi = ground arith

arrived-Ready :
    (st : Stream) (rest : List DiscoveryResponse) (c : AdsClient)
    → Ready c
    → Ready (arrived st rest c)
arrived-Ready st rest c r = record {
  stream = (record st { inbound = rest }, refl);
  queue = r.queue;
  known = r.known;
  live = r.live;
}

idle-IsRead : (c : AdsClient) → Ready c → c.shut_down ≡ false → inbound c ≡ [] → IsRead c c
idle-IsRead c r s e = record {
  ready = r;
  open_still = s;
  none_left = e;
  shrinks = omega arith;
  asked = λ h. absurd (cc (ap (λ ms. some_asks c ms) e, h));
  quiet = λ _. (refl, refl);
}

pub IsRead-idle :
    (f : ℕ) (c : AdsClient)
    → Ready c
    → c.shut_down ≡ false
    → inbound c ≡ []
    → Ends (Fails c) (IsRead c) (read_responses (suc f) c)
unfolding read_responses
IsRead-idle f c r s e =
    rw (read_response-none r.stream.0 c r.stream.1 (sym (inbound-eq r.stream.0 c r.stream.1) ∙ e))
      (idle-IsRead c r s e)

pub read_busy :
    (f : ℕ) (st : Stream) (m : DiscoveryResponse) (rest : List DiscoveryResponse) (c : AdsClient)
    → c.stream ≡ some st
    → st.inbound ≡ m ∷ rest
    → read_responses (suc f) c
      ≡ (on_discovery_response (drain_requests f) m (arrived st rest c) >>= λ d. read_responses f d)
unfolding read_responses
read_busy f st m rest c hs hi = rw (read_response-some st m rest c hs hi)

pub not_nil : (q : List String) (t : String) → (q ++ t ∷ []) ≡ [] → ⊥
not_nil [] t h = cc
not_nil (x ∷ q) t h = cc

-- A queue that was not empty is drained only by sending, which leaves no answer unread.
pub IsDrained-gone :
    (q : List String) (t : String) (d e : AdsClient)
    → d.request_queue ≡ some (q ++ t ∷ [])
    → IsDrained d e
    → inbound e ≡ []
IsDrained-gone q t d e hq done = elim done.unasked [
  | inl h ↦ absurd (not_nil q t (some-injective _ _ (sym hq ∙ h)))
  | inr h ↦ h.0
]

module _ (f : ℕ) (st : Stream) (m : DiscoveryResponse) (rest : List DiscoveryResponse)
    (c : AdsClient) (ihd : DrainEnds f) (ihr : ReadEnds f) (r : Ready c) (s : c.shut_down ≡ false)
    (hs : c.stream ≡ some st) (hi : st.inbound ≡ m ∷ rest) (fuel : 2 * backlog c + 1 ≤ suc f) where
  arriving : inbound c ≡ m ∷ rest
  arriving = inbound-eq st c hs ∙ hi

  arrived-backlog : backlog (arrived st rest c) + 2 ≡ backlog c
  arrived-backlog = omega (arith, ap length arriving)

  -- The answer asked for nothing.
  IsRead-quiet :
      (d : AdsClient)
      → Stays (arrived st rest c) d
      → written d ≡ written (arrived st rest c)
      → asks c m ≡ false
      → Ends (Fails c) (IsRead c) (read_responses f d)
  IsRead-quiet d stays w silent =
      Ends-map (Fails d) (Fails c) (IsRead d) (IsRead c) (read_responses f d)
        (ihr d stays.ready (stays.shut ∙ s)
          (omega (arith, arrived-backlog, Stays-backlog (arrived st rest c) d stays)))
        (λ x h. (h.0, sym later ∙ h.1))
        (λ g k. record {
          ready = k.ready;
          open_still = k.open_still;
          none_left = k.none_left;
          shrinks =
              omega (arith, k.shrinks, arrived-backlog, Stays-backlog (arrived st rest c) d stays);
          asked = λ h. k.asked (later ∙ h);
          quiet = λ h.
              ((k.quiet (later ∙ h)).0 ∙ stays.queue, (k.quiet (later ∙ h)).1 ∙ w ∙ same_written);
        })
    where
      later : some_asks d (inbound d) ≡ some_asks c (inbound c)
      later =
          cc (Stays-asks (arrived st rest c) d stays, ap (λ ms. some_asks c ms) arriving, silent)

      same_written : written (arrived st rest c) ≡ written c
      same_written = rw hs

  -- The answer asked, and the queue is drained: nothing is left for the calls above this one.
  IsRead-asked :
      (d e : AdsClient)
      → asks c m ≡ true
      → backlog d + 1 ≡ backlog c
      → IsDrained d e
      → inbound e ≡ []
      → Ends (Fails c) (IsRead c) (read_responses f e)
  IsRead-asked d e loud b done gone =
      Ends-map (Fails e) (Fails c) (IsRead e) (IsRead c) (read_responses f e)
        (ihr e done.ready done.open_still (omega (arith, done.shrinks)))
        (λ x h. absurd (cc (nothing, h.1)))
        (λ g k. record {
          ready = k.ready;
          open_still = k.open_still;
          none_left = k.none_left;
          shrinks = omega (arith, k.shrinks, done.shrinks);
          asked = λ _. (k.quiet nothing).0 ∙ done.empty;
          quiet = λ h. absurd (cc (ap (λ ms. some_asks c ms) arriving, loud, h));
        })
    where
      nothing : some_asks e (inbound e) ≡ false
      nothing = ap (λ ms. some_asks e ms) gone

  asked-Ready :
      (d : AdsClient) (q : List String)
      → (arrived st rest c).request_queue ≡ some q
      → Stays (arrived st rest c) d
      → IsKnown (profile (d.api_state m.type_url))
      → Ready (record d { request_queue = some (q ++ m.type_url ∷ []) })
  asked-Ready d q hq stays known =
      Ready-SameProfiles d _ stays.ready.stream.0 _ (λ u. refl) refl stays.ready.stream.1 refl
        (AllKnown-append d q (m.type_url ∷ [])
          (subst (λ ts. AllKnown d ts) (queued-eq d q (stays.queue ∙ hq)) stays.ready.known)
          (known, tt))
        stays.ready

  asked-backlog :
      (d : AdsClient) (q : List String)
      → c.request_queue ≡ some q
      → Stays (arrived st rest c) d
      → backlog (record d { request_queue = some (q ++ m.type_url ∷ []) }) + 1 ≡ backlog c
  asked-backlog d q hq stays = omega (
    arith,
    arrived-backlog,
    Stays-backlog (arrived st rest c) d stays,
    ap length (queued-eq d q (stays.queue ∙ hq)),
    length-append q (m.type_url ∷ []),
  )

  -- One round of the loop, in which a message is read.
  pub IsRead-round : Ends (Fails c) (IsRead c) (read_responses (suc f) c)
  IsRead-round = rw (read_busy f st m rest c hs hi) (elim (Bool-cases (asks c m)) [
    | inr silent ↦
        let (d, step, stays, w) =
          on_discovery_response-quiet (drain_requests f) m (arrived st rest c) ready silent in
        rw step (IsRead-quiet d stays w silent)
    | inl loud ↦
        let (d, step, stays, known) =
          on_discovery_response-asks (drain_requests f) m (arrived st rest c) ready loud in
        let d' = record d { request_queue = some (ready.queue.0 ++ m.type_url ∷ []) } in
        let b = asked-backlog d ready.queue.0 ready.queue.1 stays in
        rw step (
          Ends-bind (Fails d') (Fails c) (IsDrained d') (IsRead c) (drain_requests f d') _
            (ihd d' (asked-Ready d ready.queue.0 ready.queue.1 stays known) (stays.shut ∙ s)
              (omega (arith, b)))
            (λ x h. (h.0, cc (ap (λ ms. some_asks c ms) arriving, loud)))
            (λ e done.
              IsRead-asked d' e loud b done
                (IsDrained-gone ready.queue.0 m.type_url d' e refl done)))
  ])
    where
      ready : Ready (arrived st rest c)
      ready = arrived-Ready st rest c r
