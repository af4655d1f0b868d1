-- ===== src/Client/Loop/Answer.antt =====
-- One answer: `onDiscoveryResponse` and `queueDiscoveryRequest` of AdsClient.cpp.
use mathlib.Core.Path.{subst}
use xds_client.Base.{
  String, Bool, true, false, ◌||◌, ◌&&◌, none, some, List, [], ◌∷◌, ◌++◌, not, ◌≡◌, refl, sym, ◌∙◌,
  inl, inr, put_self, Outcome, ok, arith, Option-cases, Bool-cases, if◌then◌else◌,
}
use xds_client.Wire.{DiscoveryResponse, Stream}
use xds_client.Client.State.{AdsClient, ApiState, api_state_for, set_api, paused}
use xds_client.Client.Requests.{
  push_request, queue_discovery_request, accept_response, on_discovery_response,
}
use xds_client.Client.Loop.{
  written, queued, profile, SameProfiles, SameProfiles-put, Ready, Ready-SameProfiles, Stays,
  IsKnown, AllKnown, is_empty, asks,
}

-- The state of the answer's type with its nonce noted.
abbrev pub noted : DiscoveryResponse → ApiState → ApiState
noted m a = record a {
  request = record a.request { response_nonce = m.nonce };
  previously_fetched_data = a.previously_fetched_data || not (is_empty a.watches);
}

-- And with its version too.
abbrev pub settled : DiscoveryResponse → ApiState → ApiState
settled m a = record a {
  request = record a.request { response_nonce = m.nonce; version_info = m.version_info };
}

module _ (drain : AdsClient → Outcome AdsClient) (t : String) (c : AdsClient) (a : ApiState)
    (st : Stream) (hs : c.stream ≡ some st) (ha : c.api_state t ≡ some a) where
  -- A paused type only notes that a request is pending.
  pub queue-paused :
      paused a ≡ true
      → queue_discovery_request drain t c ≡ ok (set_api t (record a { pending = true }) c)
  unfolding queue_discovery_request api_state_for
  queue-paused h = ground arith

  -- Otherwise the request goes to the end of the queue, and the queue is drained.
  pub queue-unpaused :
      (q : List String)
      → paused a ≡ false
      → c.request_queue ≡ some q
      → queue_discovery_request drain t c ≡ drain (record c { request_queue = some (q ++ t ∷ []) })
  unfolding queue_discovery_request api_state_for push_request
  queue-unpaused q h hq = ground arith

-- An answer settles a type that nobody watches, if it has no resources; else it asks for a request.
pub accept_response_lem :
    (drain : AdsClient → Outcome AdsClient) (m : DiscoveryResponse) (a : ApiState) (c : AdsClient)
    → accept_response drain m a c ≡ (
        if is_empty a.watches && is_empty m.resources
        then ok (set_api m.type_url (settled m a) c)
        else queue_discovery_request drain m.type_url (set_api m.type_url (noted m a) c))
unfolding accept_response
accept_response_lem drain m a c = ground arith

-- A state put back with its profile keeps the client ready.
module _ (t : String) (a b : ApiState) (c : AdsClient) (hb : profile (some b) ≡ profile (some a))
    (ha : c.api_state t ≡ some a) (r : Ready c) where
  pub set_api-Stays : Stays c (set_api t b c)
  set_api-Stays = record {
    ready =
        Ready-SameProfiles c (set_api t b c) r.stream.0 r.queue.0 same refl r.stream.1 r.queue.1
          (subst (λ q. AllKnown c q) queue r.known) r;
    queue = refl;
    arriving = refl;
    shut = refl;
    same = same;
  }
    where
      queue : queued c ≡ r.queue.0
      queue = rw r.queue.1

      same : SameProfiles c (set_api t b c)
      same = SameProfiles-put c.api_state t a b ha hb

pub Stays-trans : (c d e : AdsClient) → Stays c d → Stays d e → Stays c e
Stays-trans c d e h k = record {
  ready = k.ready;
  queue = k.queue ∙ h.queue;
  arriving = k.arriving ∙ h.arriving;
  shut = k.shut ∙ h.shut;
  same = λ u. k.same u ∙ h.same u;
}

pub Stays-refl : (c : AdsClient) → Ready c → Stays c c
Stays-refl c r = record { ready = r; queue = refl; arriving = refl; shut = refl; same = λ u. refl }

pub on_discovery_response-known :
    (drain : AdsClient → Outcome AdsClient) (m : DiscoveryResponse) (a : ApiState) (c : AdsClient)
    → c.api_state m.type_url ≡ some a
    → on_discovery_response drain m c ≡ accept_response drain m a c
unfolding on_discovery_response
on_discovery_response-known drain m a c ha = ground arith

pub on_discovery_response-unknown :
    (drain : AdsClient → Outcome AdsClient) (m : DiscoveryResponse) (c : AdsClient)
    → c.api_state m.type_url ≡ none
    → on_discovery_response drain m c ≡ ok c
unfolding on_discovery_response
on_discovery_response-unknown drain m c ha = ground arith

set_api_found : (t : String) (a : ApiState) (c : AdsClient) → (set_api t a c).api_state t ≡ some a
set_api_found t a c = put_self c.api_state t a

-- The cases of `asks` at a type that has a state.
asks-known :
    (m : DiscoveryResponse) (a : ApiState) (c : AdsClient)
    → c.api_state m.type_url ≡ some a
    → asks c m ≡ (not (paused a) && not (is_empty a.watches && is_empty m.resources))
asks-known m a c ha = ground arith

asks-unknown :
    (m : DiscoveryResponse) (c : AdsClient) → c.api_state m.type_url ≡ none → asks c m ≡ false
asks-unknown m c e = ground arith

quiet_paused : (p e : Bool) → (not p && not e) ≡ false → e ≡ false → p ≡ true
quiet_paused p e h k = ground arith

asked_unpaused : (p e : Bool) → (not p && not e) ≡ true → (p ≡ false) × (e ≡ false)
asked_unpaused p e h = ground arith

noted-paused :
    (drain : AdsClient → Outcome AdsClient) (m : DiscoveryResponse) (a : ApiState) (c : AdsClient)
    (r : Ready c)
    → (is_empty a.watches && is_empty m.resources) ≡ false
    → paused a ≡ true
    → accept_response drain m a c
      ≡ ok (
          set_api m.type_url
            (record (noted m a) { pending = true })
            (set_api m.type_url (noted m a) c))
noted-paused drain m a c r e p =
    accept_response_lem drain m a c
    ∙ rw e (
        queue-paused drain m.type_url (set_api m.type_url (noted m a) c) (noted m a) r.stream.0
          r.stream.1 (set_api_found m.type_url (noted m a) c) p)

noted-unpaused :
    (drain : AdsClient → Outcome AdsClient) (m : DiscoveryResponse) (a : ApiState) (c : AdsClient)
    (r : Ready c)
    → (is_empty a.watches && is_empty m.resources) ≡ false
    → paused a ≡ false
    → accept_response drain m a c
      ≡ drain (record (set_api m.type_url (noted m a) c) {
        request_queue = some (r.queue.0 ++ m.type_url ∷ []);
      })
noted-unpaused drain m a c r e p =
    accept_response_lem drain m a c
    ∙ rw e (
        queue-unpaused drain m.type_url (set_api m.type_url (noted m a) c) (noted m a) r.stream.0
          r.stream.1 (set_api_found m.type_url (noted m a) c) r.queue.0 p r.queue.1)

module _ (drain : AdsClient → Outcome AdsClient) (m : DiscoveryResponse) (c : AdsClient)
    (r : Ready c) where
  noted-Stays :
      (a : ApiState) → c.api_state m.type_url ≡ some a → Stays c (set_api m.type_url (noted m a) c)
  noted-Stays a ha = set_api-Stays m.type_url a (noted m a) c refl ha r

  pending-Stays :
      (a : ApiState)
      → c.api_state m.type_url ≡ some a
      → Stays c (
          set_api m.type_url
            (record (noted m a) { pending = true })
            (set_api m.type_url (noted m a) c))
  pending-Stays a ha = Stays-trans c (set_api m.type_url (noted m a) c) _ (noted-Stays a ha) (
      set_api-Stays m.type_url (noted m a) (record (noted m a) { pending = true })
        (set_api m.type_url (noted m a) c) refl (set_api_found m.type_url (noted m a) c)
        (noted-Stays a ha).ready)

  quiet_known :
      (a : ApiState)
      → c.api_state m.type_url ≡ some a
      → asks c m ≡ false
      → (d : AdsClient) × (accept_response drain m a c ≡ ok d) × Stays c d × (written d ≡ written c)
  quiet_known a ha quiet = elim (Bool-cases (is_empty a.watches && is_empty m.resources)) [
    | inl e ↦ (
      set_api m.type_url (settled m a) c,
      accept_response_lem drain m a c ∙ rw e,
      set_api-Stays m.type_url a (settled m a) c refl ha r,
      refl,
    )
    | inr e ↦ (
      set_api m.type_url (record (noted m a) { pending = true }) (set_api m.type_url (noted m a) c),
      noted-paused drain m a c r e
          (quiet_paused (paused a) _ (sym (asks-known m a c ha) ∙ quiet) e),
      pending-Stays a ha,
      refl,
    )
  ]

  -- An answer that asks for nothing is handled without a request.
  pub on_discovery_response-quiet :
      asks c m ≡ false
      → (d : AdsClient) × (on_discovery_response drain m c ≡ ok d)
        × Stays c d
        × (written d ≡ written c)
  on_discovery_response-quiet quiet = elim (Option-cases (c.api_state m.type_url)) [
    | inl e ↦ (c, on_discovery_response-unknown drain m c e, Stays-refl c r, refl)
    | inr (a, e) ↦
        let (d, step, stays, w) = quiet_known a e quiet in
        (d, on_discovery_response-known drain m a c e ∙ step, stays, w)
  ]

  -- An answer that asks puts its type into the queue and drains it.
  pub on_discovery_response-asks :
      asks c m ≡ true
      → (d : AdsClient) × (on_discovery_response drain m c
          ≡ drain (record d { request_queue = some (r.queue.0 ++ m.type_url ∷ []) }))
        × Stays c d
        × IsKnown (profile (d.api_state m.type_url))
  on_discovery_response-asks asked = elim (Option-cases (c.api_state m.type_url)) [
    | inl e ↦ absurd (cc (asks-unknown m c e))
    | inr (a, e) ↦
        let (p, k) = asked_unpaused (paused a) _ (sym (asks-known m a c e) ∙ asked) in
        (
          set_api m.type_url (noted m a) c,
          on_discovery_response-known drain m a c e ∙ noted-unpaused drain m a c r k p,
          noted-Stays a e,
          rw (set_api_found m.type_url (noted m a) c) tt,
        )
  ]
