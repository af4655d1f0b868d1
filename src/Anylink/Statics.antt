-- ===== src/Anylink/Statics.antt =====
-- interface/IstioLinkManager.cpp: `init` on all that is static, the instance and the loggers.
use xds_client.Base.{String, Bool, true, false, Option, none, some, ◌≡◌, refl, ap}
use xds_client.Anylink.Link.{IstioLinkManager, ensure_link, init}
use xds_client.Anylink.Loggers.{
  Loggers, init_loggers, init_loggers-made, link_logger, manager_logger,
}
use xds_client.Anylink.Exchange.{all_four, Registered}
use xds_client.Anylink.Registry.{IsSound, init-IsSound, add_all_again}

-- `instance`, and the loggers of the classes.
pub record Statics (L : Type 0) : Type 0 where
  pub instance' : Option IstioLinkManager
  pub loggers : Loggers L

abbrev pub is_made : Option IstioLinkManager → Bool
is_made none = false
is_made (some l) = true

-- The whole of `init`, for what `LocalUtil::getLocalAddress` returns: what it does to the instance,
-- and what it does to the loggers, which do not depend on one another but for the test of `instance`.
unfoldable pub init_statics :
    {L : Type 0} → L → String → String → String → Option L → Statics L → Statics L
unfolding init init_loggers
init_statics silent address pilot_addr node_id given s = record {
  instance' = some (init address pilot_addr node_id s.instance');
  loggers = init_loggers silent (is_made s.instance') given s.loggers;
}

-- `init` on a link that is sound, or none, leaves a sound link whose four subscriptions are all
-- registered. A second `init`, whatever address, node and logger it is given, leaves the link as it
-- is, its addresses, its node and its subscriptions; of the loggers it sets that of the link, to the
-- one that is given or to a silent one if that is null, and that of the manager, if the one that is
-- given is not null.
pub init-init :
    {L : Type 0} (silent : L) (address pilot_addr node_id address' pilot_addr' node_id' : String)
    (given given' : Option L) (s : Statics L)
    → IsSound s.instance'
    → let s1 = init_statics silent address pilot_addr node_id given s in
      let s2 = init_statics silent address' pilot_addr' node_id' given' s1 in
      (l : IstioLinkManager) × (s1.instance' ≡ some l)
      × IsSound (some l)
      × Registered l.ads_manager.subscribe_map all_four
      × (s2.instance' ≡ some l)
      × (s2.loggers ≡ record s1.loggers {
        manager = manager_logger given' s1.loggers.manager;
        link = some (link_logger silent given');
      })
unfolding init_statics init ensure_link
init-init silent address pilot_addr node_id address' pilot_addr' node_id' given given' s h =
    let l = init address pilot_addr node_id s.instance' in
    let (sound, registered) = init-IsSound address pilot_addr node_id s.instance' h in
    (
      l,
      refl,
      sound,
      registered,
      ap (λ m. some (record l { ads_manager = m })) (add_all_again l.ads_manager registered),
      init_loggers-made silent given' (init_loggers silent (is_made s.instance') given s.loggers),
    )
