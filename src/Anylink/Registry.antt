-- ===== src/Anylink/Registry.antt =====
-- grpc/manager/AdsManager.cpp (`addSubscription`) and interface/IstioLinkManager.cpp: which
-- subscription answers for which type.
use mathlib.Core.Option.{some-injective}
use mathlib.Core.Path.{subst}
use xds_client.Base.{
  String, false, Option, none, some, ◌≡◌, refl, sym, ap, ◌∙◌, ◌⊎◌, inl, inr, arith, ◌==◌, eq_iff,
  Option-cases, Bool-cases, put, put_self, if◌then◌else◌,
}
use xds_client.Wire.{DiscoveryResponse}
use xds_client.Anylink.Subscriptions.{Subscription, type_url}
use xds_client.Anylink.Manager.{AdsManager, new_manager, add_subscription}
use xds_client.Anylink.Link.{IstioLinkManager, new_link, add_all, ensure_link, init}
use xds_client.Anylink.Exchange.{all_four, Registered}

-- The subscription of a type.
abbrev of_url : String → Option Subscription
of_url u =
    if u == type_url Subscription.cluster
    then some Subscription.cluster
    else if u == type_url Subscription.listener
    then some Subscription.listener
    else if u == type_url Subscription.endpoint
    then some Subscription.endpoint
    else some Subscription.route

of_url_type_url : (s : Subscription) → of_url (type_url s) ≡ some s
of_url_type_url Subscription.cluster = refl
of_url_type_url Subscription.listener = refl
of_url_type_url Subscription.endpoint = refl
of_url_type_url Subscription.route = refl

type_url-injective : (s t : Subscription) → type_url s ≡ type_url t → s ≡ t
type_url-injective s t h =
    some-injective s t (sym (of_url_type_url s) ∙ ap of_url h ∙ of_url_type_url t)

-- Under the type of each subscription stands that one, or nothing.
abbrev pub IsOwn : AdsManager → Type 0
IsOwn m =
    (s : Subscription)
    → (m.subscribe_map (type_url s) ≡ none) ⊎ (m.subscribe_map (type_url s) ≡ some s)

put_other :
    (table : String → Option Subscription) (k j : String) (t : Subscription)
    → (k == j) ≡ false
    → put table k t j ≡ table j
put_other table k j t e = ground arith

add_absent :
    (t : Subscription) (m : AdsManager)
    → m.subscribe_map (type_url t) ≡ none
    → (add_subscription t m).subscribe_map ≡ put m.subscribe_map (type_url t) t
unfolding add_subscription
add_absent t m e = ground (arith, e)

add_present :
    (t x : Subscription) (m : AdsManager)
    → m.subscribe_map (type_url t) ≡ some x
    → add_subscription t m ≡ m
unfolding add_subscription
add_present t x m e = ground (arith, e)

put_own :
    (table : String → Option Subscription) (s t : Subscription)
    → (table (type_url s) ≡ none) ⊎ (table (type_url s) ≡ some s)
    → (put table (type_url t) t (type_url s) ≡ none)
      ⊎ (put table (type_url t) t (type_url s) ≡ some s)
put_own table s t h = elim (Bool-cases (type_url t == type_url s)) [
  | inl e ↦ inr (
      subst (λ x. put table (type_url t) t (type_url x) ≡ some x)
        (type_url-injective t s ((eq_iff (type_url t) (type_url s)).0 e))
        (put_self table (type_url t) t))
  | inr e ↦ rw (put_other table (type_url t) (type_url s) t e) h
]

IsOwn-add_subscription :
    (t : Subscription) (m : AdsManager) → IsOwn m → IsOwn (add_subscription t m)
IsOwn-add_subscription t m own s = elim (Option-cases (m.subscribe_map (type_url t))) [
  | inl e ↦ rw (add_absent t m e) (put_own m.subscribe_map s t (own s))
  | inr (x, e) ↦ rw (add_present t x m e) (own s)
]

-- The entry that is there stays.
add_subscription-keeps :
    (t : Subscription) (m : AdsManager) (u : String) (s : Subscription)
    → m.subscribe_map u ≡ some s
    → (add_subscription t m).subscribe_map u ≡ some s
add_subscription-keeps t m u s h = elim (Option-cases (m.subscribe_map (type_url t))) [
  | inl e ↦
      ap (λ (f : String → Option Subscription). f u) (add_absent t m e)
      ∙ (elim (Bool-cases (type_url t == u)) [
        | inl k ↦ absurd (ground (arith, eq_iff (type_url t) u))
        | inr k ↦ put_other m.subscribe_map (type_url t) u t k ∙ h
      ])
  | inr (x, e) ↦ rw (add_present t x m e) h
]

add_subscription-adds :
    (t : Subscription) (m : AdsManager)
    → IsOwn m
    → (add_subscription t m).subscribe_map (type_url t) ≡ some t
add_subscription-adds t m own = elim (own t) [
  | inl e ↦ rw (add_absent t m e) (put_self m.subscribe_map (type_url t) t)
  | inr e ↦ rw (add_present t t m e) e
]

-- The four are there after `add_all`.
add_all-Registered :
    (m : AdsManager) → IsOwn m → IsOwn (add_all m) × Registered (add_all m).subscribe_map all_four
unfolding add_all
add_all-Registered m own =
    let m1 = add_subscription Subscription.cluster m in
    let own1 = IsOwn-add_subscription Subscription.cluster m own in
    let m2 = add_subscription Subscription.listener m1 in
    let own2 = IsOwn-add_subscription Subscription.listener m1 own1 in
    let m3 = add_subscription Subscription.endpoint m2 in
    let own3 = IsOwn-add_subscription Subscription.endpoint m2 own2 in
    let kept1 = add_subscription-keeps Subscription.route m3 _ Subscription.cluster (
      add_subscription-keeps Subscription.endpoint m2 _ Subscription.cluster (
        add_subscription-keeps Subscription.listener m1 _ Subscription.cluster
          (add_subscription-adds Subscription.cluster m own))) in
    let kept2 = add_subscription-keeps Subscription.route m3 _ Subscription.listener (
      add_subscription-keeps Subscription.endpoint m2 _ Subscription.listener
        (add_subscription-adds Subscription.listener m1 own1)) in
    let kept3 =
      add_subscription-keeps Subscription.route m3 _ Subscription.endpoint
        (add_subscription-adds Subscription.endpoint m2 own2) in
    (
      IsOwn-add_subscription Subscription.route m3 own3,
      (kept1, (kept2, (kept3, (add_subscription-adds Subscription.route m3 own3, tt)))),
    )

-- A link that is there has own subscriptions only.
abbrev pub IsSound : Option IstioLinkManager → Type 0
IsSound none = Unit
IsSound (some l) = IsOwn l.ads_manager

IsOwn-ensure_link :
    (address pilot_addr node_id : String) (instance' : Option IstioLinkManager)
    → IsSound instance'
    → IsOwn (ensure_link address pilot_addr node_id instance').ads_manager
unfolding ensure_link new_link new_manager
IsOwn-ensure_link address pilot_addr node_id none h = λ s. inl refl
IsOwn-ensure_link address pilot_addr node_id (some l) h = h

-- On a link that is sound, or none, `init` gives a sound link, whose manager has each of the four
-- subscriptions under its own type.
pub init-IsSound :
    (address pilot_addr node_id : String) (instance' : Option IstioLinkManager)
    → IsSound instance'
    → let l = init address pilot_addr node_id instance' in
      IsSound (some l) × Registered l.ads_manager.subscribe_map all_four
unfolding init
init-IsSound address pilot_addr node_id instance' h =
    add_all-Registered (ensure_link address pilot_addr node_id instance').ads_manager
      (IsOwn-ensure_link address pilot_addr node_id instance' h)

-- The messages are of the types of subscriptions.
abbrev pub IsServed : DiscoveryResponse → Type 0
IsServed p = (s : Subscription) × (p.type_url ≡ type_url s)

pub add_all_again : (m : AdsManager) → Registered m.subscribe_map all_four → add_all m ≡ m
unfolding add_all
add_all_again m r =
    ap
      (λ x.
        add_subscription Subscription.route
          (add_subscription Subscription.endpoint (add_subscription Subscription.listener x)))
      (add_present Subscription.cluster _ m r.0)
    ∙ ap (λ x. add_subscription Subscription.route (add_subscription Subscription.endpoint x))
        (add_present Subscription.listener _ m r.1.0)
    ∙ ap (λ x. add_subscription Subscription.route x)
        (add_present Subscription.endpoint _ m r.1.1.0)
    ∙ add_present Subscription.route _ m r.1.1.1.0
