-- ===== src/Client/Sessions/Follows.antt =====
-- AdsClient.cpp: what the loop of requests and answers leaves of the stream and the subscriptions.

use mathlib.Core.List.{append-nil, append_assoc}
use xds_client.Base.{
  String, false, some, List, [], ◌∷◌, ◌++◌, ◌≡◌, ◌⊎◌, refl, sym, ap, ◌∙◌, inl, inr, arith,
}
use xds_client.Wire.{Stream}
use xds_client.Client.State.{AdsClient, ApiState}
use xds_client.Client.Requests.{fill_node}
use xds_client.Client.Loop.Send.{named}
use xds_client.Client.Loop.Entry.{api_state_for-rest}
use xds_client.Client.Steps.{Step, allocate, pend, push, pop, send, ignore, note, settle}

-- The stream stays, and is not shut down; subscriptions are only appended.
pub record Follows (c d : AdsClient) : Type 0 where
  pub stream : (st : Stream) × (d.stream ≡ some st)
  pub open_still : d.shut_down ≡ false
  pub more : (ts : List String) × (d.subscriptions ≡ c.subscriptions ++ ts)

fill_node-either :
    (t : String) (a : ApiState) (c : AdsClient)
    → ((fill_node t a c).1.subscriptions ≡ c.subscriptions)
      ⊎ ((fill_node t a c).1.subscriptions ≡ c.subscriptions ++ t ∷ [])
unfolding fill_node
fill_node-either t a c = ground arith

fill_node-appends :
    (t : String) (a : ApiState) (c : AdsClient)
    → (ts : List String) × ((fill_node t a c).1.subscriptions ≡ c.subscriptions ++ ts)
fill_node-appends t a c = elim (fill_node-either t a c) [
  | inl e ↦ ([], e ∙ sym (append-nil c.subscriptions))
  | inr e ↦ (t ∷ [], e)
]

pub Step-Follows : (c d e : AdsClient) → Step d e → Follows c d → Follows c e
Step-Follows c _ _ (allocate t d) h = record {
  stream = (h.stream.0, ap (λ (x : AdsClient). x.stream) (api_state_for-rest t d) ∙ h.stream.1);
  open_still = ap (λ (x : AdsClient). x.shut_down) (api_state_for-rest t d) ∙ h.open_still;
  more = (h.more.0, ap (λ (x : AdsClient). x.subscriptions) (api_state_for-rest t d) ∙ h.more.1);
}
Step-Follows c _ _ (pend t a d ha p) h = record {
  stream = h.stream;
  open_still = h.open_still;
  more = h.more;
}
Step-Follows c _ _ (push t q d e) h = record {
  stream = h.stream;
  open_still = h.open_still;
  more = h.more;
}
Step-Follows c _ _ (pop t q d e) h = record {
  stream = h.stream;
  open_still = h.open_still;
  more = h.more;
}
Step-Follows c _ _ (send t a names st d s hs ha hn) h =
    let (ts, e) = fill_node-appends t (named a names) d in
    record {
      stream = (_, refl);
      open_still = h.open_still;
      more = (
        h.more.0 ++ ts,
        e ∙ ap (λ l. l ++ ts) h.more.1 ∙ append_assoc c.subscriptions h.more.0 ts,
      );
    }
Step-Follows c _ _ (ignore st m rest d hs hi) h = record {
  stream = (_, refl);
  open_still = h.open_still;
  more = h.more;
}
Step-Follows c _ _ (note st m rest a d hs hi ha) h = record {
  stream = (_, refl);
  open_still = h.open_still;
  more = h.more;
}
Step-Follows c _ _ (settle st m rest a d hs hi ha w k) h = record {
  stream = (_, refl);
  open_still = h.open_still;
  more = h.more;
}
