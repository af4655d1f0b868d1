-- ===== src/Client/Sessions/Names.antt =====
-- AdsClient.cpp: what the requests name that a client in order writes.

use mathlib.Core.Option.{some-injective}
use xds_client.Base.{
  ℕ, ◌<◌, String, true, false, Option, some, List, [], ◌∷◌, ◌≡◌, ◌⊎◌, ◌↔◌, sym, ap, ◌∙◌, inl, inr,
  ok, contains, eq_iff, beq, beq_iff, Bool-cases, Option-cases, List-cases, arith,
}
use xds_client.Wire.{DiscoveryRequest}
use xds_client.Client.State.{AdsClient, ApiState, Watcher}
use xds_client.Client.Requests.{watched, add_names, fill_node}
use xds_client.Client.Content.{
  NoRepeats, is_watched, contains-watched, contains-add_names, add_names-NoRepeats, filled_names,
  filled_type,
}
use xds_client.Client.Loop.Send.{named}
use xds_client.Client.Sessions.{count, Fits}
use xds_client.Client.Sessions.Requests.{Covers}

-- A watch of the list holds the name.
is_watched-found :
    (heap : ℕ → Option Watcher) (ps : List ℕ) (x : String)
    → is_watched heap ps x ≡ true
    → (p : ℕ) × (w : Watcher) × (0 < count p ps)
      × (heap p ≡ some w)
      × (contains w.resources x ≡ true)
is_watched-found heap [] x h = absurd (cc)
is_watched-found heap (p ∷ ps) x h = elim (Option-cases (heap p)) [
  | inl e ↦
      let (q, w, k, found, held) = is_watched-found heap ps x (ground (arith, h, e)) in
      (q, w, ground (arith, k), found, held)
  | inr (w, e) ↦ elim (Bool-cases (contains w.resources x)) [
    | inl k ↦ (p, w, ground (arith, beq_iff p p), e, k)
    | inr k ↦
        let (q, v, n, found, held) = is_watched-found heap ps x (ground (arith, h, e, k)) in
        (q, v, ground (arith, n), found, held)
  ]
]

found-is_watched :
    (heap : ℕ → Option Watcher) (ps : List ℕ) (x : String) (p : ℕ) (w : Watcher)
    → 0 < count p ps
    → heap p ≡ some w
    → contains w.resources x ≡ true
    → is_watched heap ps x ≡ true
found-is_watched heap [] x p w h e k = absurd (omega arith)
found-is_watched heap (q ∷ ps) x p w h e k = elim (Bool-cases (beq p q)) [
  | inl same ↦ ground (arith, ap heap (sym ((beq_iff p q).0 same)) ∙ e, k)
  | inr other ↦ ground (arith, found-is_watched heap ps x p w (ground (arith, h, other)) e k)
]

-- The watches of type `t` in the memory that hold the name.
abbrev pub Holder : (ℕ → Option Watcher) → String → String → Type 0
Holder view t x =
    (p : ℕ) × (w : Watcher) × (view p ≡ some w) × (w.type_url ≡ t) × (contains w.resources x ≡ true)

-- The request names what the watches of a type in the memory hold, each name once.
pub record Serves (view : ℕ → Option Watcher) (r : DiscoveryRequest) : Type 0 where
  pub served : String
  pub headed : (r.type_url ≡ served) ⊎ (r.resource_names ≡ [])
  pub distinct : NoRepeats r.resource_names
  pub names : (x : String) → (contains r.resource_names x ≡ true) ↔ Holder view served x

module _ (view heap : ℕ → Option Watcher) (t : String) (a : ApiState) (subscriptions : List String)
    (covers : Covers view heap) (fits : Fits view subscriptions t a) where
  watched-Holder : (x : String) → (is_watched heap a.watches x ≡ true) ↔ Holder view t x
  watched-Holder x = (
    λ h.
        let (p, w, k, found, held) = is_watched-found heap a.watches x h in
        elim (Option-cases (view p)) [
          | inl e ↦ absurd (ground (arith, fits.once p, k, e))
          | inr (v, e) ↦
              let same : v ≡ w = some-injective _ _ (sym (covers p v e) ∙ found) in
              (
                p,
                v,
                e,
                (eq_iff v.type_url t).0 (ground (arith, fits.once p, k, e)),
                ap (λ (y : Watcher). contains y.resources x) same ∙ held,
              )
        ],
    λ h.
        let (p, w, e, typed, held) = h in
        found-is_watched heap a.watches x p w
          (ground (arith, fits.once p, e, (eq_iff w.type_url t).1 typed)) (covers p w e) held,
  )

  unsubscribed :
      (names : List String)
      → a.subscribed ≡ false
      → watched heap a.watches ≡ ok names
      → add_names [] names ≡ []
  unfolding watched add_names
  unsubscribed names n h = elim (List-cases a.watches) [
    | inl e ↦ ground (arith, h, e)
    | inr (p, ps, e) ↦ absurd (ground (arith, fits.asked, n, e))
  ]

  pub filled-Holder :
      (names : List String) (c : AdsClient)
      → watched heap a.watches ≡ ok names
      → (x : String)
      → (contains (fill_node t (named a names) c).0.request.resource_names x ≡ true)
        ↔ Holder view t x
  filled-Holder names c h x =
      let (listed, _, _) = filled_names t a names c in
      let same : contains (fill_node t (named a names) c).0.request.resource_names x
          ≡ is_watched heap a.watches x =
        ap (λ l. contains l x) listed
        ∙ contains-add_names [] names x
        ∙ contains-watched heap a.watches names x h in
      (λ k. (watched-Holder x).0 (sym same ∙ k), λ k. same ∙ (watched-Holder x).1 k)

  pub filled-Serves :
      (names : List String) (c : AdsClient)
      → watched heap a.watches ≡ ok names
      → Serves view (fill_node t (named a names) c).0.request
  filled-Serves names c h =
      let (listed, _, _) = filled_names t a names c in
      record {
        served = t;
        headed = elim (Bool-cases a.subscribed) [
          | inl s ↦ inl (filled_type t (named a names) c s ∙ fits.named s)
          | inr n ↦ inr (listed ∙ unsubscribed names n h)
        ];
        distinct = rw listed (add_names-NoRepeats [] names);
        names = filled-Holder names c h;
      }
