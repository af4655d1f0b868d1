-- ===== src/Anylink/Link.antt =====
-- interface/IstioLinkManager.h and IstioLinkManager.cpp: the one link of the process.
use xds_client.Base.{String, Option, none, some, List, Outcome, ok, fault, null_link, ◌>>=◌}
use xds_client.Wire.{DiscoveryResponse}
use xds_client.Anylink.Subscriptions.{Subscription}
use xds_client.Anylink.Manager.{AdsManager, new_manager, add_subscription, start_client}

pub record IstioLinkManager : Type 0 where
  pub pilot_addr : String
  pub node_id : String
  pub ads_manager : AdsManager

-- The constructor, for what `LocalUtil::getLocalAddress` returns.
unfoldable pub new_link : String → String → String → IstioLinkManager
unfolding new_manager
new_link address pilot_addr node_id = record {
  pilot_addr = pilot_addr;
  node_id = node_id;
  ads_manager = new_manager address node_id;
}

-- The four calls of `addSubscription`.
unfoldable pub add_all : AdsManager → AdsManager
unfolding add_subscription
add_all m = add_subscription Subscription.route (
    add_subscription Subscription.endpoint
      (add_subscription Subscription.listener (add_subscription Subscription.cluster m)))

-- `instance` after the test in `init`.
unfoldable pub ensure_link : String → String → String → Option IstioLinkManager → IstioLinkManager
unfolding new_link
ensure_link address pilot_addr node_id none = new_link address pilot_addr node_id
ensure_link address pilot_addr node_id (some l) = l

-- What `init` with an address does to `instance`: before, and after. (Anylink/Statics.antt adds what it
-- does to the loggers.)
unfoldable pub init : String → String → String → Option IstioLinkManager → IstioLinkManager
unfolding ensure_link add_all
init address pilot_addr node_id instance =
    let link = ensure_link address pilot_addr node_id instance in
    record link { ads_manager = add_all link.ads_manager }

-- The same for `init` without one, for what `getenv("ISTIO_ADDRESS")` returns.
unfoldable pub init_default :
    String → Option String → String → Option IstioLinkManager → IstioLinkManager
unfolding init
init_default address istio_address node_id instance =
    init address
      (elim istio_address [
        | none ↦ "istiod.istio-system.svc.cluster.local:15010"
        | some path ↦ path
      ])
      node_id instance

-- `startLink`, called on what `getIstioLinkManager` returns.
unfoldable pub start_link :
    List DiscoveryResponse → Option IstioLinkManager → Outcome IstioLinkManager
unfolding start_client
start_link inbound instance = elim instance [
  | none ↦ fault null_link
  | some l ↦ (start_client inbound l.ads_manager >>= λ m. ok (record l { ads_manager = m }))
]
