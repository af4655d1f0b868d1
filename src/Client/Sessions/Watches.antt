-- ===== src/Client/Sessions/Watches.antt =====
-- Watcher.h and AdsClient.cpp: the operations on watches, for a client in order.
use mathlib.Core.Path.{subst}
use mathlib.Core.Option.{some-injective}
use xds_client.Base.{
  ℕ, ◌≤◌, String, true, Option, none, some, List, [], ◌≡◌, refl, sym, ap, ◌∙◌, inl, inr, ok,
  after-returns, ok-injective, beq, beq_iff, store, put_self, insert_all, Bool-cases, List-cases,
  arith,
}
use xds_client.Client.State.{AdsClient, ApiState, Watcher}
use xds_client.Client.Requests.{queue_discovery_request, drain_requests}
use xds_client.Client.Watches.{
  deref, erase_watch, update_resources, request_unless_empty, delete_watcher, update_watcher,
  add_watch,
}
use xds_client.Client.Watching.{new_watcher_lem}
use xds_client.Client.Unwatching.{
  erase_watch-found, update_resources-found, request_unless_empty-Keeps,
}
use xds_client.Client.Sessions.{IsSound}
use xds_client.Client.Sessions.Lists.{unlink-occupied}
use xds_client.Client.Sessions.Loops.{fit_at, Keeps, room}
use xds_client.Client.Sessions.Idle.{IsIdle, queue-Keeps, queue-IsIdle, queue-IsSound}
use xds_client.Client.Sessions.Memory.{Adds, Adds-erased, AllFit-unlinked, AllFit-listed}
use xds_client.Client.Sessions.Added.{added, added-IsSound}

pub request_unless_empty-stays :
    (view heap : ℕ → Option Watcher) (next bound : ℕ) (f : ℕ) (w : Watcher) (c d : AdsClient)
    → request_unless_empty f w c ≡ ok d
    → Keeps view heap next bound c
    → IsIdle c
    → Keeps view heap next bound d × IsIdle d
unfolding request_unless_empty
request_unless_empty-stays view heap next bound f w c d h k i = elim (List-cases w.resources) [
  | inl e ↦
      subst (λ x. Keeps view heap next bound x × IsIdle x) (ok-injective (ground arith)) (k, i)
  | inr (x, xs, e) ↦
      let run : queue_discovery_request (drain_requests f) w.type_url c ≡ ok d = ground arith in
      (queue-Keeps view heap next bound f w.type_url c d run k, queue-IsIdle f w.type_url c d run i)
]

-- A client whose watch at `p`, which is `w`, is in memory but in no list.
pub record Unlisted (p : ℕ) (w : Watcher) (heap : ℕ → Option Watcher) (next bound : ℕ)
    (c : AdsClient) : Type 0 where
  pub keeps : Keeps (store heap p none) heap next bound c
  pub idle : IsIdle c
  pub state : (b : ApiState) × (c.api_state w.type_url ≡ some b) × (b.subscribed ≡ true)

pub erased-Unlisted :
    (p : ℕ) (c d : AdsClient)
    → IsSound c
    → erase_watch p c ≡ ok d
    → (w : Watcher) × (c.heap p ≡ some w) × Unlisted p w c.heap c.next_watcher (room c) d
erased-Unlisted p c d s h =
    let (w, a, ps, hw, ha, found, e) = erase_watch-found p c d h in
    (
      w,
      hw,
      subst (Unlisted p w c.heap c.next_watcher (room c)) e (record {
        keeps = record {
          fit =
              AllFit-unlinked p w a ps (store c.heap p none) c.heap c (Adds-erased p w c.heap hw)
                found ha s.states;
          memory = refl;
          address = refl;
          bounded = omega arith;
        };
        idle = s.idle;
        state = (
          record a { watches = ps },
          put_self c.api_state w.type_url _,
          (fit_at c.heap w.type_url a c ha s.states).asked (unlink-occupied p a.watches ps found),
        );
      }),
    )

pub Unlisted-request :
    (p f : ℕ) (w v : Watcher) (heap : ℕ → Option Watcher) (next bound : ℕ) (c d : AdsClient)
    → request_unless_empty f v c ≡ ok d
    → Unlisted p w heap next bound c
    → Unlisted p w heap next bound d
Unlisted-request p f w v heap next bound c d h u =
    let (k, i) =
      request_unless_empty-stays (store heap p none) heap next bound f v c d h u.keeps u.idle in
    let (b, hb, sub) = u.state in
    let (g, hg, same) = (request_unless_empty-Keeps f v c d h).1 w.type_url b hb in
    record { keeps = k; idle = i; state = (g, hg, same.2 sub) }

Adds-again :
    (p : ℕ) (w : Watcher) (old heap : ℕ → Option Watcher)
    → heap ≡ old
    → Adds p w (store old p none) (store heap p (some w))
Adds-again p w old heap same = record {
  gone = ground (arith, beq_iff p p);
  there = ground (arith, beq_iff p p);
  others = λ q e. ground (arith, e, ap (λ (h : ℕ → Option Watcher). h q) same);
}

-- The memory of the watch is freed.
freed-IsSound :
    (p : ℕ) (w : Watcher) (c d : AdsClient)
    → IsSound c
    → Unlisted p w c.heap c.next_watcher (room c) d
    → IsSound (record d { heap = store d.heap p none })
freed-IsSound p w c d s u = record {
  states = λ t. rw u.keeps.memory (u.keeps.fit t);
  unused = λ q h. rw u.keeps.memory (ground (arith, s.unused q (rw u.keeps.address at h)));
  idle = u.idle;
}

-- The watch is put at the front of its list.
pub relisted-IsSound :
    (p : ℕ) (resources : List String) (w : Watcher) (c d e : AdsClient)
    → IsSound c
    → c.heap p ≡ some w
    → Unlisted p w c.heap c.next_watcher (room c) d
    → update_resources p resources d ≡ ok e
    → IsSound e
relisted-IsSound p resources w c d e s hw u h =
    let (v, a, hv, ha, eq) = update_resources-found p resources d e h in
    let same : v ≡ w =
      some-injective _ _ (sym hv ∙ ap (λ (x : ℕ → Option Watcher). x p) u.keeps.memory ∙ hw) in
    let (b, hb, sub) = u.state in
    let found : a ≡ b =
      some-injective _ _ (sym ha ∙ ap (λ (x : Watcher). d.api_state x.type_url) same ∙ hb) in
    let updated : Watcher = record v { resources = insert_all resources [] } in
    subst IsSound eq (record {
      states =
          AllFit-listed p updated a (store c.heap p none) (store d.heap p (some updated)) d
            (Adds-again p updated c.heap d.heap u.keeps.memory) ha
            (ap (λ (x : ApiState). x.subscribed) found ∙ sub) u.keeps.fit;
      unused = λ q k. updated_unused (some updated) q (rw u.keeps.address at k);
      idle = u.idle;
    })
  where
    updated_unused : (o : Option Watcher) (q : ℕ) → c.next_watcher ≤ q → store d.heap p o q ≡ none
    updated_unused o q k = elim (Bool-cases (beq p q)) [
      | inl e ↦ let never = ap c.heap ((beq_iff p q).0 e) ∙ s.unused q k in absurd (cc (never, hw))
      | inr e ↦ ground (arith, e, s.unused q k, ap (λ (h : ℕ → Option Watcher). h q) u.keeps.memory)
    ]

pub delete_watcher-IsSound :
    (f p : ℕ) (c d : AdsClient) → delete_watcher f p c ≡ ok d → IsSound c → IsSound d
unfolding delete_watcher
delete_watcher-IsSound f p c d h s =
    let (v, dv, h1) = after-returns _ (deref p c) h in
    let (c1, erased, h2) = after-returns _ (erase_watch p c) h1 in
    let (c2, asked, h3) = after-returns _ (request_unless_empty f v c1) h2 in
    let (w, hw, u) = erased-Unlisted p c c1 s erased in
    subst IsSound (ok-injective h3)
      (freed-IsSound p w c c2 s (Unlisted-request p f w v _ _ _ c1 c2 asked u))

pub update_watcher-IsSound :
    (f p : ℕ) (resources : List String) (c d : AdsClient)
    → update_watcher f p resources c ≡ ok d
    → IsSound c
    → IsSound d
unfolding update_watcher
update_watcher-IsSound f p resources c d h s =
    let (v, dv, h1) = after-returns _ (deref p c) h in
    let (c1, erased, h2) = after-returns _ (erase_watch p c) h1 in
    let (c2, asked, h3) = after-returns _ (request_unless_empty f v c1) h2 in
    let (c3, updated, h4) = after-returns _ (update_resources p resources c2) h3 in
    let (w, hw, u) = erased-Unlisted p c c1 s erased in
    queue-IsSound f v.type_url c3 d h4 (
      relisted-IsSound p resources w c c2 c3 s hw (Unlisted-request p f w v _ _ _ c1 c2 asked u)
        updated)

pub add_watch-IsSound :
    (f : ℕ) (t : String) (resources : List String) (c d : AdsClient) (p : ℕ)
    → add_watch f t resources c ≡ ok (p, d)
    → IsSound c
    → IsSound d
unfolding add_watch
add_watch-IsSound f t resources c d p h s =
    let (c2, run, e) =
      after-returns (λ (x : AdsClient). ok (c.next_watcher, x))
        (queue_discovery_request (drain_requests f) t (added t resources c s))
        (rw (new_watcher_lem resources t c) at h) in
    subst IsSound (ap (λ (x : ℕ × AdsClient). x.1) (ok-injective e))
      (queue-IsSound f t (added t resources c s) c2 run (added-IsSound t resources c s))
