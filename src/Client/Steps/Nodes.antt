-- ===== src/Client/Steps/Nodes.antt =====
-- The node of the requests that AdsClient.cpp writes on a new stream.
use mathlib.Core.Path.{subst}
use xds_client.Base.{
  ℕ, String, true, false, some, none, List, [], ◌∷◌, ◌++◌, ◌≡◌, ◌⊎◌, refl, sym, ap, ◌∙◌, ok, arith,
  inl, inr, Bool-cases, Option-cases, All, All-append,
}
use xds_client.Wire.{DiscoveryRequest, DiscoveryResponse, Stream}
use xds_client.Client.State.{AdsClient, ApiState, clear_nonce, set_api}
use xds_client.Client.Requests.{fill_node}
use xds_client.Client.Streams.{on_stream_established}
use xds_client.Client.Loop.{written, stream_written}
use xds_client.Client.Loop.Send.{named, sent}
use xds_client.Client.Loop.Read.{arrived}
use xds_client.Client.Loop.Entry.{api_state_for-rest}
use xds_client.Client.Steps.{
  Step, allocate, pend, push, pop, send, ignore, note, settle, Reach-keeps,
}
use xds_client.Client.Steps.States.{after_write}
use xds_client.Client.Steps.Wire.{AllStates, AllStates-put, AllStates-allocate}
use xds_client.Client.Steps.Established.{opened, opened_stream, on_stream_established-Reach}

-- Nodes: the requests behind the first one have none.
abbrev Nodeless : DiscoveryRequest → Type 0
Nodeless r = r.node ≡ none

abbrev pub TailNodeless : List DiscoveryRequest → Type 0
TailNodeless [] = Unit
TailNodeless (r ∷ rs) = All Nodeless rs

record Nodes (c : AdsClient) : Type 0 where
  plain : AllStates (λ a. a.must_send_node ≡ false) c.api_state
  untouched : c.first_stream_request ≡ true → written c ≡ []
  tail : TailNodeless (written c)

TailNodeless-append :
    (rs : List DiscoveryRequest) (r : DiscoveryRequest)
    → TailNodeless rs
    → (rs ≡ [] ⊎ Nodeless r)
    → TailNodeless (rs ++ r ∷ [])
TailNodeless-append [] r h k = tt
TailNodeless-append (q ∷ rs) r h (inl e) = absurd (cc)
TailNodeless-append (q ∷ rs) r h (inr e) = All-append Nodeless rs (r ∷ []) h (e, tt)

node_filled :
    (t : String) (a : ApiState) (names : List String) (c : AdsClient)
    → a.must_send_node ≡ false
    → c.first_stream_request ≡ false
    → Nodeless (fill_node t (named a names) c).0.request
unfolding fill_node
node_filled t a names c h k = ground arith

plain_written :
    (t : String) (a : ApiState) (names : List String) (c : AdsClient)
    → a.must_send_node ≡ false
    → (after_write t a names c).must_send_node ≡ false
unfolding fill_node
plain_written t a names c h = ground arith

sent-Nodes :
    (t : String) (a : ApiState) (names : List String) (st : Stream) (c : AdsClient)
    → c.stream ≡ some st
    → c.api_state t ≡ some a
    → Nodes c
    → Nodes (sent t a names st c)
sent-Nodes t a names st c hs ha h = record {
  plain =
      AllStates-put _ c.api_state t (after_write t a names c) h.plain
        (plain_written t a names c (h.plain t a ha));
  untouched = λ e. absurd (cc);
  tail =
      TailNodeless-append st.written _ (subst TailNodeless (ap stream_written hs) h.tail)
        (elim (Bool-cases c.first_stream_request) [
          | inl e ↦ inl (ap stream_written (sym hs) ∙ h.untouched e)
          | inr e ↦ inr (node_filled t a names c (h.plain t a ha) e)
        ]);
}

arrived-Nodes :
    (st : Stream) (rest : List DiscoveryResponse) (c : AdsClient)
    → c.stream ≡ some st
    → Nodes c
    → Nodes (arrived st rest c)
arrived-Nodes st rest c hs h = record {
  plain = h.plain;
  untouched = λ e. ap stream_written (sym hs) ∙ h.untouched e;
  tail = subst TailNodeless (ap stream_written hs) h.tail;
}

put-Nodes :
    (t : String) (b : ApiState) (c : AdsClient)
    → Nodes c
    → b.must_send_node ≡ false
    → Nodes (set_api t b c)
put-Nodes t b c h k = record {
  plain = AllStates-put _ c.api_state t b h.plain k;
  untouched = h.untouched;
  tail = h.tail;
}

Step-Nodes : (c d : AdsClient) → Step c d → Nodes c → Nodes d
Step-Nodes _ _ (allocate t c) h = rw api_state_for-rest (record {
  plain = AllStates-allocate _ t c refl h.plain;
  untouched = h.untouched;
  tail = h.tail;
})
Step-Nodes _ _ (pend t a c ha p) h = record {
  plain = AllStates-put _ c.api_state t _ h.plain (h.plain t a ha);
  untouched = h.untouched;
  tail = h.tail;
}
Step-Nodes _ _ (push t q c e) h = record { plain = h.plain; untouched = h.untouched; tail = h.tail }
Step-Nodes _ _ (pop t q c e) h = record { plain = h.plain; untouched = h.untouched; tail = h.tail }
Step-Nodes _ _ (send t a names st c s hs ha hn) h = sent-Nodes t a names st c hs ha h
Step-Nodes _ _ (ignore st m rest c hs hi) h = arrived-Nodes st rest c hs h
Step-Nodes _ _ (note st m rest a c hs hi ha) h =
    put-Nodes m.type_url _ (arrived st rest c) (arrived-Nodes st rest c hs h)
      (h.plain m.type_url a ha)
Step-Nodes _ _ (settle st m rest a c hs hi ha w e) h =
    put-Nodes m.type_url _ (arrived st rest c) (arrived-Nodes st rest c hs h)
      (h.plain m.type_url a ha)

opened_plain :
    (inbound : List DiscoveryResponse) (c : AdsClient)
    → AllStates (λ a. a.must_send_node ≡ false) c.api_state
    → AllStates (λ a. a.must_send_node ≡ false) (opened inbound c).api_state
unfolding clear_nonce
opened_plain inbound c h u a e = elim (Option-cases (c.api_state u)) [
  | inl k ↦ absurd (ground arith)
  | inr (b, k) ↦ ground (arith, h u b k)
]

-- If no type is marked to send the node again, then on a new stream, when onStreamEstablished
-- returns, no request but the first one carries a node.
pub on_stream_established_nodes :
    (f : ℕ) (inbound : List DiscoveryResponse) (c d : AdsClient)
    → on_stream_established f (some inbound) c ≡ ok d
    → AllStates (λ a. a.must_send_node ≡ false) c.api_state
    → TailNodeless (written d)
on_stream_established_nodes f inbound c d run plain =
    (Reach-keeps Nodes Step-Nodes (opened inbound c) (on_stream_established-Reach f inbound c d run)
      (record {
        plain = opened_plain inbound c plain;
        untouched = λ _. ap stream_written (opened_stream inbound c);
        tail = rw (opened_stream inbound c) tt;
      })).tail
