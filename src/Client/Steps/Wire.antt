-- ===== src/Client/Steps/Wire.antt =====
-- What the requests on the wire may carry.
use mathlib.Core.Path.{subst}
use mathlib.Core.Option.{some-injective}
use xds_client.Base.{
  String, true, some, Option, List, ◌∷◌, ◌≡◌, sym, ap, ◌∙◌, inl, inr, Bool-cases, ◌==◌, put, All,
  All-append,
}
use xds_client.Wire.{DiscoveryRequest, DiscoveryResponse, Stream}
use xds_client.Client.State.{AdsClient, ApiState, api_state_for, new_api_state, set_api}
use xds_client.Client.Requests.{fill_node}
use xds_client.Client.Loop.{written, inbound, stream_written, stream_inbound}
use xds_client.Client.Loop.Read.{arrived}
use xds_client.Client.Loop.Entry.{api_state_for-rest}
use xds_client.Client.Loop.Send.{named, sent}
use xds_client.Client.Loop.Answer.{noted, settled}
use xds_client.Client.Steps.{
  Step, allocate, pend, push, pop, send, ignore, note, settle, Reach, Reach-keeps,
}
use xds_client.Client.Steps.States.{after_write, put_hit, put_miss, api_state_for-cases}

-- A property of every state of a client.
abbrev pub AllStates : (ApiState → Type 0) → (String → Option ApiState) → Type 0
AllStates P api = (u : String) (a : ApiState) → api u ≡ some a → P a

pub AllStates-put :
    (P : ApiState → Type 0) (api : String → Option ApiState) (t : String) (b : ApiState)
    → AllStates P api
    → P b
    → AllStates P (put api t b)
AllStates-put P api t b h k u a e = elim (Bool-cases (t == u)) [
  | inl q ↦ subst P (some-injective _ _ (sym (put_hit api t u b q) ∙ e)) k
  | inr q ↦ h u a (sym (put_miss api t u b q) ∙ e)
]

pub AllStates-allocate :
    (P : ApiState → Type 0) (t : String) (c : AdsClient)
    → P new_api_state
    → AllStates P c.api_state
    → AllStates P (api_state_for t c).1.api_state
AllStates-allocate P t c k h = elim (api_state_for-cases t c) [
  | inl e ↦ rw e h
  | inr (missing, e) ↦ rw e (AllStates-put P c.api_state t new_api_state h k)
]

-- A property of the states, of the requests that are written and of the messages that are read, which
-- every operation on a state respects.
pub record Wires (P : ApiState → Type 0) (Q : DiscoveryRequest → Type 0)
    (G : DiscoveryResponse → Type 0) : Type 0 where
  pub fresh : P new_api_state
  pub pends : (a : ApiState) → P a → P (record a { pending = true })
  pub asks :
      (t : String) (a : ApiState) (names : List String) (c : AdsClient)
      → P a
      → Q (fill_node t (named a names) c).0.request
  pub writes :
      (t : String) (a : ApiState) (names : List String) (c : AdsClient)
      → P a
      → P (after_write t a names c)
  pub notes : (m : DiscoveryResponse) (a : ApiState) → G m → P a → P (noted m a)
  pub settles : (m : DiscoveryResponse) (a : ApiState) → G m → P a → P (settled m a)

-- The property, at a client.
pub record Holds (P : ApiState → Type 0) (Q : DiscoveryRequest → Type 0)
    (G : DiscoveryResponse → Type 0) (c : AdsClient) : Type 0 where
  pub states : AllStates P c.api_state
  pub requests : All Q (written c)
  pub answers : All G (inbound c)

module _ (P : ApiState → Type 0) (Q : DiscoveryRequest → Type 0) (G : DiscoveryResponse → Type 0)
    (wires : Wires P Q G) where
  allocate-Holds : (t : String) (c : AdsClient) → Holds P Q G c → Holds P Q G (api_state_for t c).1
  allocate-Holds t c h = rw api_state_for-rest (record {
    states = AllStates-allocate P t c wires.fresh h.states;
    requests = h.requests;
    answers = h.answers;
  })

  put-Holds :
      (t : String) (b : ApiState) (c : AdsClient)
      → Holds P Q G c
      → P b
      → Holds P Q G (set_api t b c)
  put-Holds t b c h k = record {
    states = AllStates-put P c.api_state t b h.states k;
    requests = h.requests;
    answers = h.answers;
  }

  sent-Holds :
      (t : String) (a : ApiState) (names : List String) (st : Stream) (c : AdsClient)
      → c.stream ≡ some st
      → P a
      → Holds P Q G c
      → Holds P Q G (sent t a names st c)
  sent-Holds t a names st c hs k h = record {
    states =
        AllStates-put P c.api_state t (after_write t a names c) h.states
          (wires.writes t a names c k);
    requests =
        All-append Q st.written _ (subst (All Q) (ap stream_written hs) h.requests)
          (wires.asks t a names c k, tt);
    answers = subst (All G) (ap stream_inbound hs) h.answers;
  }

  arrived-Holds :
      (st : Stream) (m : DiscoveryResponse) (rest : List DiscoveryResponse) (c : AdsClient)
      → c.stream ≡ some st
      → st.inbound ≡ m ∷ rest
      → Holds P Q G c
      → Holds P Q G (arrived st rest c) × G m
  arrived-Holds st m rest c hs hi h =
      let good = subst (All G) (ap stream_inbound hs ∙ hi) h.answers in
      (
        record {
          states = h.states;
          requests = subst (All Q) (ap stream_written hs) h.requests;
          answers = good.1;
        },
        good.0,
      )

  Step-Holds : (c d : AdsClient) → Step c d → Holds P Q G c → Holds P Q G d
  Step-Holds _ _ (allocate t c) h = allocate-Holds t c h
  Step-Holds _ _ (pend t a c ha p) h = put-Holds t _ c h (wires.pends a (h.states t a ha))
  Step-Holds _ _ (push t q c e) h = record {
    states = h.states;
    requests = h.requests;
    answers = h.answers;
  }
  Step-Holds _ _ (pop t q c e) h = record {
    states = h.states;
    requests = h.requests;
    answers = h.answers;
  }
  Step-Holds _ _ (send t a names st c s hs ha hn) h =
      sent-Holds t a names st c hs (h.states t a ha) h
  Step-Holds _ _ (ignore st m rest c hs hi) h = (arrived-Holds st m rest c hs hi h).0
  Step-Holds _ _ (note st m rest a c hs hi ha) h =
      let (k, good) = arrived-Holds st m rest c hs hi h in
      put-Holds m.type_url _ (arrived st rest c) k (wires.notes m a good (h.states m.type_url a ha))
  Step-Holds _ _ (settle st m rest a c hs hi ha w e) h =
      let (k, good) = arrived-Holds st m rest c hs hi h in
      put-Holds m.type_url _ (arrived st rest c) k
        (wires.settles m a good (h.states m.type_url a ha))

  pub Reach-Holds : (c d : AdsClient) → Reach c d → Holds P Q G c → Holds P Q G d
  Reach-Holds c d r h = Reach-keeps (Holds P Q G) Step-Holds c r h
