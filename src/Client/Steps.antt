-- ===== src/Client/Steps.antt =====
-- What the loop of requests and answers of AdsClient.cpp does to the client, as single steps. A
-- theorem that every step keeps holds of every run that returns.
pub mod Runs
pub mod Drains
pub mod States
pub mod Versions
pub mod Wire
pub mod Established
pub mod Nodes
pub mod Ended
use xds_client.Base.{String, false, true, some, List, [], ◌∷◌, ◌++◌, ◌≡◌, ok, put}
use xds_client.Wire.{DiscoveryResponse, Stream}
use xds_client.Client.State.{AdsClient, ApiState, api_state_for, set_api, paused}
use xds_client.Client.Requests.{watched}
use xds_client.Client.Loop.Send.{sent}
use xds_client.Client.Loop.Read.{arrived}
use xds_client.Client.Loop.Answer.{noted, settled}

pub data Step : AdsClient → AdsClient → Type 0 where
  -- The state of a type is looked up, and allocated if need be.
  allocate : (t : String) (c : AdsClient) → Step c (api_state_for t c).1
  -- A request for a paused type is only noted.
  pend :
      (t : String) (a : ApiState) (c : AdsClient)
      → c.api_state t ≡ some a
      → paused a ≡ true
      → Step c (set_api t (record a { pending = true }) c)
  push :
      (t : String) (q : List String) (c : AdsClient)
      → c.request_queue ≡ some q
      → Step c (record c { request_queue = some (q ++ t ∷ []) })
  pop :
      (t : String) (q : List String) (c : AdsClient)
      → c.request_queue ≡ some (t ∷ q)
      → Step c (record c { request_queue = some q })
  send :
      (t : String) (a : ApiState) (names : List String) (st : Stream) (c : AdsClient)
      → c.shut_down ≡ false
      → c.stream ≡ some st
      → c.api_state t ≡ some a
      → watched c.heap a.watches ≡ ok names
      → Step c (sent t a names st c)
  -- A message is read and dropped, as its type is not known.
  ignore :
      (st : Stream) (m : DiscoveryResponse) (rest : List DiscoveryResponse) (c : AdsClient)
      → c.stream ≡ some st
      → st.inbound ≡ m ∷ rest
      → Step c (arrived st rest c)
  -- A message is read and its nonce noted.
  note :
      (st : Stream) (m : DiscoveryResponse) (rest : List DiscoveryResponse) (a : ApiState)
      (c : AdsClient)
      → c.stream ≡ some st
      → st.inbound ≡ m ∷ rest
      → c.api_state m.type_url ≡ some a
      → Step c (set_api m.type_url (noted m a) (arrived st rest c))
  -- A message without resources is read, of a type that has no watch.
  settle :
      (st : Stream) (m : DiscoveryResponse) (rest : List DiscoveryResponse) (a : ApiState)
      (c : AdsClient)
      → c.stream ≡ some st
      → st.inbound ≡ m ∷ rest
      → c.api_state m.type_url ≡ some a
      → a.watches ≡ []
      → m.resources ≡ []
      → Step c (set_api m.type_url (settled m a) (arrived st rest c))

pub data Reach (c : AdsClient) : AdsClient → Type 0 where
  here : Reach c c
  next : {d e : AdsClient} → Reach c d → Step d e → Reach c e

pub Reach-trans : {c d e : AdsClient} → Reach c d → Reach d e → Reach c e
Reach-trans r here = r
Reach-trans r (next k s) = next (Reach-trans r k) s

-- What every step keeps, every run keeps.
pub Reach-keeps :
    (P : AdsClient → Type 0)
    → ((d e : AdsClient) → Step d e → P d → P e)
    → (c : AdsClient) {d : AdsClient} → Reach c d
    → P c
    → P d
Reach-keeps P keep c here h = h
Reach-keeps P keep c (next {d = d} {e = e} r s) h = keep d e s (Reach-keeps P keep c r h)
