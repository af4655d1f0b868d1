-- ===== src/Client/Content.antt =====
-- What one request of `sendDiscoveryRequest` of AdsClient.cpp says.

use xds_client.Base.{
  ℕ, String, true, false, not, ◌&&◌, ◌||◌, eq_iff, eq_refl, Bool, some, none, Option, List, [], ◌∷◌,
  ◌++◌, ◌≡◌, sym, ap, ◌∙◌, ok, after-returns, ok-injective, arith, inl, inr, Option-cases, contains,
  contains-append,
}
use xds_client.Wire.{DiscoveryRequest}
use xds_client.Client.State.{AdsClient, ApiState, Watcher, api_state_for}
use xds_client.Client.Requests.{watched, add_names, fill_node, send_request}
use xds_client.Client.Loop.{written, stream_written}
use xds_client.Client.Loop.Send.{named}
use xds_client.Client.Loop.Entry.{api_state_for-rest}
use xds_client.Client.Steps.Runs.{send_request-sent}

abbrev pub NoRepeats : List String → Type 0
NoRepeats [] = Unit
NoRepeats (x ∷ xs) = (contains xs x ≡ false) × NoRepeats xs

-- A watch of the list is set on the name.
abbrev pub is_watched : (ℕ → Option Watcher) → List ℕ → String → Bool
is_watched heap [] x = false
is_watched heap (p ∷ ps) x =
    elim (heap p) [ none ↦ false | some w ↦ contains w.resources x ] || is_watched heap ps x

pub contains-add_names :
    (seen names : List String) (x : String)
    → contains (add_names seen names) x ≡ (not (contains seen x) && contains names x)
unfolding add_names
contains-add_names seen [] x = ground arith
contains-add_names seen (r ∷ rs) x = ground (
  arith,
  eq_iff r x,
  ap (contains seen),
  contains-add_names seen rs x,
  contains-add_names (r ∷ seen) rs x,
)

pub add_names-NoRepeats : (seen names : List String) → NoRepeats (add_names seen names)
unfolding add_names
add_names-NoRepeats seen [] = tt
add_names-NoRepeats seen (r ∷ rs) = ground (
  arith,
  eq_refl r,
  add_names-NoRepeats seen rs,
  add_names-NoRepeats (r ∷ seen) rs,
  contains-add_names (r ∷ seen) rs r,
)

pub contains-watched :
    (heap : ℕ → Option Watcher) (ps : List ℕ) (names : List String) (x : String)
    → watched heap ps ≡ ok names
    → contains names x ≡ is_watched heap ps x
unfolding watched
contains-watched heap [] names x h = ground arith
contains-watched heap (p ∷ ps) names x h = elim (Option-cases (heap p)) [
  | inl e ↦ absurd (ground arith)
  | inr (w, e) ↦
      let (others, found, joined) =
        after-returns (λ (l : List String). ok (w.resources ++ l)) (watched heap ps)
          (ground arith) in
      ap (λ l. contains l x) (sym (ok-injective joined))
      ∙ contains-append w.resources others x
      ∙ ground (arith, contains-watched heap ps others x found)
]

pub filled_names :
    (t : String) (a : ApiState) (names : List String) (c : AdsClient)
    → ((fill_node t (named a names) c).0.request.resource_names ≡ add_names [] names)
      × ((fill_node t (named a names) c).0.request.version_info ≡ a.request.version_info)
      × ((fill_node t (named a names) c).0.request.response_nonce ≡ a.request.response_nonce)
unfolding fill_node
filled_names t a names c = ground arith

pub filled_type :
    (t : String) (a : ApiState) (c : AdsClient)
    → a.subscribed ≡ true
    → (fill_node t a c).0.request.type_url ≡ a.request.type_url
unfolding fill_node
filled_type t a c s = ground arith

-- A request that `sendDiscoveryRequest` writes lists each name once, and exactly the names that the
-- watches of its type are set on; it carries the version and the nonce noted for its type. It stands
-- behind what was written before.
pub send_request_content :
    (t : String) (c d : AdsClient)
    → send_request t c ≡ ok d
    → let a = (api_state_for t c).0 in
      (r : DiscoveryRequest) × (written d ≡ written c ++ r ∷ [])
      × NoRepeats r.resource_names
      × ((x : String) → contains r.resource_names x ≡ is_watched c.heap a.watches x)
      × (r.version_info ≡ a.request.version_info)
      × (r.response_nonce ≡ a.request.response_nonce)
send_request_content t c d h =
    let (names, st, found, connected, e) = send_request-sent t c d h in
    let (a, c1) = api_state_for t c in
    let heap = ap (λ (x : AdsClient). x.heap) (api_state_for-rest t c) in
    let (listed, version, nonce) = filled_names t a names c1 in
    (
      (fill_node t (named a names) c1).0.request,
      ap written (sym e)
          ∙ ap (λ l. l ++ (fill_node t (named a names) c1).0.request ∷ [])
              (ap stream_written
                (sym connected ∙ ap (λ (x : AdsClient). x.stream) (api_state_for-rest t c))),
      rw listed (add_names-NoRepeats [] names),
      λ x.
          ap (λ l. contains l x) listed
          ∙ contains-add_names [] names x
          ∙ contains-watched c1.heap a.watches names x found
          ∙ ap (λ h. is_watched h a.watches x) heap,
      version,
      nonce,
    )
