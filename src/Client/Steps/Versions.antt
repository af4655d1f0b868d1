-- ===== src/Client/Steps/Versions.antt =====
-- What the loop of AdsClient.cpp never changes in the state of a type.

use xds_client.Base.{ℕ, String, true, some, List, [], ◌≡◌, ◌≢◌, refl, sym, ◌∙◌, ok, arith}
use xds_client.Client.State.{AdsClient, ApiState}
use xds_client.Client.Requests.{fill_node, queue_discovery_request, drain_requests}
use xds_client.Client.Steps.States.{IsStable, Changes-found, Reach-Changes, after_write}
use xds_client.Client.Steps.Drains.{queue_discovery_request-Reach}

-- The watches and the pauses are the same, a subscription lasts, and a watched type has the version
-- that it had.
abbrev pub Unacknowledged : ApiState → ApiState → Type 0
Unacknowledged a b =
    (b.watches ≡ a.watches)
    × (b.pauses ≡ a.pauses)
    × (a.subscribed ≡ true → b.subscribed ≡ true)
    × (a.watches ≢ [] → b.request.version_info ≡ a.request.version_info)

Unacknowledged-write :
    (t : String) (a : ApiState) (names : List String) (c : AdsClient)
    → Unacknowledged a (after_write t a names c)
unfolding fill_node
Unacknowledged-write t a names c = ground arith

pub Unacknowledged-IsStable : IsStable Unacknowledged
Unacknowledged-IsStable = record {
  same = λ a. (refl, refl, λ h. h, λ _. refl);
  then = λ a b c h k.
      (k.0 ∙ h.0, k.1 ∙ h.1, λ s. k.2 (h.2 s), λ w. k.3 (λ e. w (sym h.0 ∙ e)) ∙ h.3 w);
  pends = λ a. (refl, refl, λ h. h, λ _. refl);
  writes = Unacknowledged-write;
  notes = λ m a. (refl, refl, λ h. h, λ _. refl);
  settles = λ m a none_watch. (refl, refl, λ h. h, λ w. absurd (w none_watch));
}

-- When queueDiscoveryRequest returns, every type that had a state has one still, with the same
-- watches, the same pauses and its subscription; and if it is watched, the version that its
-- requests carry is what it was, whatever versions the server sent: no answer is acknowledged.
pub queue_discovery_request-Unacknowledged :
    (f : ℕ) (t u : String) (c d : AdsClient) (a : ApiState)
    → queue_discovery_request (drain_requests f) t c ≡ ok d
    → c.api_state u ≡ some a
    → (b : ApiState) × (d.api_state u ≡ some b) × Unacknowledged a b
queue_discovery_request-Unacknowledged f t u c d a run ha =
    Changes-found Unacknowledged (c.api_state u) (d.api_state u) a ha (
      Reach-Changes Unacknowledged Unacknowledged-IsStable c
        (queue_discovery_request-Reach f t c d run) u)
