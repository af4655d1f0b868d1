-- ===== src/Anylink/Examples.antt =====
-- Runs of the link to Istio, and the theorems at those runs.
use xds_client.Base.{
  false, String, none, some, List, [], ◌∷◌, ◌++◌, ◌≡◌, refl, fault, null_subscription, out_of_fuel,
  true,
}
use xds_client.Wire.{DiscoveryResponse}
use xds_client.Anylink.Subscriptions.{Subscription, type_url}
use xds_client.Anylink.Manager.{AdsManager, new_manager, add_subscription, start_client}
use xds_client.Anylink.Link.{IstioLinkManager, add_all, init}
use xds_client.Anylink.Exchange.{all_four, Registered, start_client-strays}
use xds_client.Anylink.Identity.{new_local_info-injective}
use xds_client.Anylink.Worker.{IstioCallable, entry, call}
use xds_client.Anylink.Spinning.{call_endless}
use Prim.Native.String.{◌++◌ as ◌<>◌}
use xds_client.Anylink.Hosts.{host-append}
use xds_client.Anylink.Local.{host, full_node_id}
use xds_client.Anylink.Loggers.{
  manager_logger, no_loggers, init_all, subscribe_logger, init_loggers-last,
}
use xds_client.Anylink.Registry.{IsSound}
use xds_client.Anylink.Statics.{Statics, init_statics, init-init}

abbrev message : String → String → String → DiscoveryResponse
message t version nonce = record {
  version_info = version;
  resources = [];
  type_url = t;
  nonce = nonce;
}

-- Clusters and routes, and no more.
abbrev short_answers : List DiscoveryResponse
short_answers =
    message (type_url Subscription.cluster) "1" "a"
    ∷ message (type_url Subscription.route) "2" "b"
    ∷ []

-- An answer of a type that has no subscription.
abbrev stray_answers : List DiscoveryResponse
stray_answers = message (type_url Subscription.cluster) "1" "a" ∷ message "Secret" "2" "b" ∷ []

abbrev manager : AdsManager
manager = add_all (new_manager "0.0.0.0" "node")

start_client-strays_example : start_client stray_answers manager ≡ fault null_subscription
unfolding add_all add_subscription new_manager
start_client-strays_example =
    start_client-strays stray_answers manager (refl, (refl, (refl, (refl, tt)))) refl

-- The link that a first `init` made.
abbrev linked : IstioLinkManager
linked = init "0.0.0.0" "istiod:15010" "node" none

-- The process before the first `init`; a logger is a text.
abbrev untouched : Statics String
untouched = record { instance' = none; loggers = no_loggers String }

abbrev first_init : Statics String
first_init = init_statics "silent" "0.0.0.0" "istiod:15010" "node" (some "console") untouched

abbrev second_init : Statics String
second_init = init_statics "silent" "10.0.0.1" "other:15010" "other" none first_init

init-init_example :
    (l : IstioLinkManager) × (first_init.instance' ≡ some l)
    × IsSound (some l)
    × Registered l.ads_manager.subscribe_map all_four
    × (second_init.instance' ≡ some l)
    × (second_init.loggers ≡ record first_init.loggers {
      manager = manager_logger none first_init.loggers.manager;
      link = some "silent";
    })
init-init_example =
    init-init "silent" "0.0.0.0" "istiod:15010" "node" "10.0.0.1" "other:15010" "other"
      (some "console") none untouched tt

abbrev given_name : String
given_name = "node"

new_local_info-injective_example : given_name ≡ given_name
new_local_info-injective_example =
    new_local_info-injective "0.0.0.0:80" "c" given_name given_name refl

-- The worker of the program, and one whose map has the four subscriptions.
abbrev filled : IstioCallable
filled = record {
  subscribe_map = λ u. elim (manager.subscribe_map u) [ none ↦ none | some s ↦ some (some s) ];
}

call_endless_example : call 3 true filled ≡ out_of_fuel
unfolding add_all add_subscription new_manager entry
call_endless_example = call_endless 2 true filled

host-append_example :
    (host ("10.0.0.1" <> (":" <> "80")) ≡ "10.0.0.1")
    × (host "10.0.0.1" ≡ "10.0.0.1")
    × (full_node_id ("10.0.0.1" <> (":" <> "80")) "node" ≡ full_node_id "10.0.0.1" "node")
host-append_example = host-append "10.0.0.1" "80" "node" refl

-- A logger is its name: two are given, and then null.
init_loggers-last_example :
    let ls = init_all "" false (some "a" ∷ some "b" ∷ none ∷ []) (no_loggers String) in
    (ls.link ≡ some "")
    × (ls.manager ≡ some "b")
    × ((subscribe_logger "" ls).subscription ≡ ls.manager)
init_loggers-last_example = init_loggers-last "" (some "a") (some "b" ∷ none ∷ [])
