-- ===== src/Anylink/Loggers.antt =====
-- The loggers of src/ads_protocol_client/anylink, which are static: Subscription.h, AdsManager.cpp and
-- IstioLinkManager.cpp. A logger is of another library.
use xds_client.Base.{Bool, true, false, Option, none, some, List, [], ◌∷◌, ◌≡◌, refl, if◌then◌else◌}

-- `logger` of `Subscription`, `AdsManager` and `IstioLinkManager`; `none` is the null pointer.
pub record Loggers (L : Type 0) : Type 0 where
  pub subscription : Option L
  pub manager : Option L
  pub link : Option L

-- Before the first object is made.
abbrev pub no_loggers : (L : Type 0) → Loggers L
no_loggers L = record { subscription = none; manager = none; link = none }

-- The link logs to the logger that is given, or is silent.
abbrev pub link_logger : {L : Type 0} → L → Option L → L
link_logger silent none = silent
link_logger silent (some l) = l

-- The manager logs to the logger that is given, or as before.
abbrev pub manager_logger : {L : Type 0} → Option L → Option L → Option L
manager_logger none before = before
manager_logger (some l) before = some l

-- `silent` is what `make_shared<AbstractLogger>` makes.
module _ {L : Type 0} (silent : L) where
  -- `AdsManager::setLogger` and `Subscription::setLogger`.
  unfoldable set_manager_logger : Option L → Loggers L → Loggers L
  set_manager_logger none ls = record ls { manager = some silent }
  set_manager_logger (some l) ls = record ls { manager = some l }

  unfoldable set_subscription_logger : Option L → Loggers L → Loggers L
  set_subscription_logger none ls = record ls { subscription = some silent }
  set_subscription_logger (some l) ls = record ls { subscription = some l }

  -- What the constructor of `AdsManager` does.
  unfoldable construct_manager : Loggers L → Loggers L
  construct_manager ls = elim ls.manager [
    | none ↦ record ls { manager = some silent }
    | some l ↦ ls
  ]

  -- And that of `IstioLinkManager`.
  unfoldable construct_link : Loggers L → Loggers L
  unfolding construct_manager
  construct_link ls = record (construct_manager ls) { link = some silent }

  -- The choice in `init`.
  unfoldable choose_logger : Option L → Loggers L → Loggers L
  unfolding set_manager_logger
  choose_logger none ls = record ls { link = some silent }
  choose_logger (some l) ls = set_manager_logger (some l) (record ls { link = some l })

  -- `init`, where `made` tells if there is an instance.
  unfoldable pub init_loggers : Bool → Option L → Loggers L → Loggers L
  unfolding construct_link choose_logger
  init_loggers made given ls = choose_logger given (if made then ls else construct_link ls)

  pub init_loggers-made :
      (given : Option L) (ls : Loggers L)
      → init_loggers true given ls ≡ record ls {
        manager = manager_logger given ls.manager;
        link = some (link_logger silent given);
      }
  unfolding init_loggers
  init_loggers-made none ls = refl
  init_loggers-made (some l) ls = refl

  -- `initSubscribe`, for every subscription that it is called with.
  unfoldable pub subscribe_logger : Loggers L → Loggers L
  unfolding set_subscription_logger
  subscribe_logger ls = set_subscription_logger ls.manager ls

  -- One `init` after the other.
  abbrev pub init_all : Bool → List (Option L) → Loggers L → Loggers L
  init_all made [] ls = ls
  init_all made (given ∷ more) ls = init_all true more (init_loggers made given ls)

  -- The last logger that is given, and the last that is not null.
  abbrev pub last_given : L → List (Option L) → L
  last_given l [] = l
  last_given l (none ∷ more) = last_given silent more
  last_given l (some k ∷ more) = last_given k more

  abbrev pub last_some : L → List (Option L) → L
  last_some l [] = l
  last_some l (none ∷ more) = last_some l more
  last_some l (some k ∷ more) = last_some k more

  init_all-made :
      (more : List (Option L)) (m l : L) (s : Option L)
      → init_all true more (record { subscription = s; manager = some m; link = some l }) ≡ record {
        subscription = s;
        manager = some (last_some m more);
        link = some (last_given l more);
      }
  unfolding init_loggers
  init_all-made [] m l s = refl
  init_all-made (none ∷ more) m l s = init_all-made more m silent s
  init_all-made (some k ∷ more) m l s = init_all-made more k k s

  -- After any calls of `init`, at least one, in a process that had made no link: the link logs to the
  -- logger given last, or is silent if that is null. The manager logs to the last logger that was given
  -- and is not null, also when null was given after it, and is silent if all are null. A subscription
  -- then logs where the manager does, from its first request on.
  pub init_loggers-last :
      (given : Option L) (more : List (Option L))
      → let ls = init_all false (given ∷ more) (no_loggers L) in
        (ls.link ≡ some (last_given silent (given ∷ more)))
        × (ls.manager ≡ some (last_some silent (given ∷ more)))
        × ((subscribe_logger ls).subscription ≡ ls.manager)
  unfolding init_loggers subscribe_logger
  init_loggers-last none more = rw (init_all-made more silent silent none) (refl, refl, refl)
  init_loggers-last (some l) more = rw (init_all-made more l l none) (refl, refl, refl)
