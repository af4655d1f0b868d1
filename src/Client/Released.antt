-- ===== src/Client/Released.antt =====
-- Watcher.h: what the end of a watch asks for, where the server is silent.

use mathlib.Core.List.{append-nil}
use mathlib.Core.Path.{subst}
use xds_client.Base.{
  ℕ, ◌+◌, ◌*◌, ◌≤◌, String, false, some, List, [], ◌∷◌, ◌++◌, ◌≡◌, sym, ap, length, ok, arith, inl,
  inr, List-cases, if◌then◌else◌,
}
use xds_client.Client.State.{AdsClient, ApiState, Watcher, paused, api_state_for}
use xds_client.Client.Watches.{request_unless_empty}
use xds_client.Client.Loop.{
  Ready, queued, queued-eq, inbound, written, backlog, some_asks, is_empty,
}
use xds_client.Client.Loop.Entry.{queue_discovery_request-IsDrained}
use xds_client.Client.Steps.{here}
use xds_client.Client.Steps.Drains.{queue_discovery_request-Reach}
use xds_client.Client.Lasting.{Same, Reach-Same}
use xds_client.Client.Asking.{Asked, AskedAll, queue-Asked}

-- The types that the end of a watch asks for: if it has names, all that are queued, and its own.
abbrev pub wanted : Watcher → AdsClient → List String
wanted w c = if is_empty w.resources then [] else queued c ++ w.type_url ∷ []

-- What is queued after that.
abbrev pub waiting : Watcher → AdsClient → List String
waiting w c = if is_empty w.resources then queued c else []

pub request_unless_empty_returns :
    (f : ℕ) (w : Watcher) (a : ApiState) (c : AdsClient)
    → Ready c
    → c.shut_down ≡ false
    → inbound c ≡ []
    → c.api_state w.type_url ≡ some a
    → paused a ≡ false
    → 2 * backlog c + 4 ≤ f
    → (d : AdsClient) × (request_unless_empty f w c ≡ ok d)
      × Ready d
      × (d.shut_down ≡ false)
      × (inbound d ≡ [])
      × (backlog d ≤ backlog c)
      × (queued d ≡ waiting w c)
      × Same c d
      × Asked c.heap c.api_state (wanted w c) c d
unfolding request_unless_empty api_state_for
request_unless_empty_returns f w a c r s quiet ha n fuel = elim (List-cases w.resources) [
  | inl e ↦ (
    c,
    ground (arith, e),
    r,
    s,
    quiet,
    omega arith,
    ground (arith, e),
    Reach-Same c c here,
    (
      [],
      sym (append-nil (written c)),
      subst
          (λ l.
            AskedAll c.heap c.api_state (if is_empty l then [] else queued c ++ w.type_url ∷ []) [])
          (sym e) tt,
    ),
  )
  | inr (x, xs, e) ↦
      let unpaused : paused (api_state_for w.type_url c).0 ≡ false = ground (arith, ha, n) in
      let calm = ap (λ l. some_asks (api_state_for w.type_url c).1 l) quiet in
      let (d, run, done, gone, count) =
        queue_discovery_request-IsDrained w.type_url c f r s unpaused fuel calm in
      (
        d,
        ground (arith, e, run),
        done.ready,
        done.open_still,
        gone,
        omega (arith, ap length gone, ap length (queued-eq d [] done.empty)),
        ground (arith, e, queued-eq d [] done.empty),
        Reach-Same c d (queue_discovery_request-Reach f w.type_url c d run),
        subst
            (λ l.
              Asked c.heap c.api_state (if is_empty l then [] else queued c ++ w.type_url ∷ []) c d)
            (sym e) (queue-Asked w.type_url c f r s unpaused fuel calm d run),
      )
]
