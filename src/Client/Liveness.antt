-- ===== src/Client/Liveness.antt =====
-- Watcher.h: when the watches of a list stay readable, and a client ready, as watches come and go.

use xds_client.Base.{
  ℕ, String, some, none, Option, List, [], ◌∷◌, ◌++◌, ◌≡◌, refl, ok, after-returns, arith, inl, inr,
  Bool-cases, Option-cases, store, beq, beq_iff, ◌==◌,
}
use xds_client.Client.State.{AdsClient, ApiState, Watcher, set_api}
use xds_client.Client.Requests.{watched}
use xds_client.Client.Watches.{unlink}
use xds_client.Client.Loop.{Ready, IsLive, IsKnown, AllKnown, profile, Profile, queued}

-- A new watch in memory leaves the names of a list readable.
watched-store :
    (heap : ℕ → Option Watcher) (p : ℕ) (w : Watcher) (ps : List ℕ) (names : List String)
    → watched heap ps ≡ ok names
    → (more : List String) × (watched (store heap p (some w)) ps ≡ ok more)
unfolding watched
watched-store heap p w [] names h = ([], refl)
watched-store heap p w (q ∷ ps) names h = elim (Option-cases (heap q)) [
  | inl e ↦ absurd (ground (arith, h, e))
  | inr (v, e) ↦
      let (rest, found, k) =
        after-returns (λ (l : List String). ok (v.resources ++ l)) (watched heap ps) {a = names}
          (ground (arith, h, e)) in
      let (more, found') = watched-store heap p w ps rest found in
      elim (Bool-cases (beq p q)) [
        | inl same ↦ (w.resources ++ more, ground (arith, same, found'))
        | inr other ↦ (v.resources ++ more, ground (arith, other, e, found'))
      ]
]

pub watched_new :
    (heap : ℕ → Option Watcher) (p : ℕ) (w : Watcher) (ps : List ℕ) (names : List String)
    → watched (store heap p (some w)) ps ≡ ok names
    → watched (store heap p (some w)) (p ∷ ps) ≡ ok (w.resources ++ names)
unfolding watched
watched_new heap p w ps names h = ground (arith, h, beq_iff p p)

pub AllKnown-mono :
    (c d : AdsClient) (ts : List String)
    → ((u : String) → IsKnown (profile (c.api_state u)) → IsKnown (profile (d.api_state u)))
    → AllKnown c ts
    → AllKnown d ts
AllKnown-mono c d [] h k = tt
AllKnown-mono c d (t ∷ ts) h k = (h t k.0, AllKnown-mono c d ts h k.1)

pub IsLive-store :
    (heap : ℕ → Option Watcher) (p : ℕ) (w : Watcher) (o : Option Profile)
    → IsLive heap o
    → IsLive (store heap p (some w)) o
IsLive-store heap p w none h = tt
IsLive-store heap p w (some f) h = watched-store heap p w f.watches h.0 h.1

-- The rest of a list of live watches is live.
pub watched-unlink :
    (heap : ℕ → Option Watcher) (p : ℕ) (ws ps : List ℕ) (names : List String)
    → watched heap ws ≡ ok names
    → unlink p ws ≡ some ps
    → (less : List String) × (watched heap ps ≡ ok less)
unfolding watched unlink
watched-unlink heap p [] ps names h k = absurd (ground arith)
watched-unlink heap p (q ∷ ws) ps names h k = elim (Option-cases (heap q)) [
  | inl e ↦ absurd (ground (arith, h, e))
  | inr (v, e) ↦
      let (rest, found, _) =
        after-returns (λ (l : List String). ok (v.resources ++ l)) (watched heap ws) {a = names}
          (ground (arith, h, e)) in
      elim (Bool-cases (beq p q)) [
        | inl same ↦ (rest, ground (arith, k, same, found))
        | inr other ↦ elim (Option-cases (unlink p ws)) [
          | inl n ↦ absurd (ground (arith, k, other, n))
          | inr (r, n) ↦
              let (less, left) = watched-unlink heap p ws r rest found n in
              (v.resources ++ less, ground (arith, k, other, n, e, left))
        ]
      ]
]

-- A client stays ready when the state of a type and the memory change, if what was live stays live
-- and the new state is live.
pub changed-Ready :
    (t : String) (b : ApiState) (heap : ℕ → Option Watcher) (c : AdsClient)
    → Ready c
    → ((o : Option Profile) → IsLive c.heap o → IsLive heap o)
    → IsLive heap (profile (some b))
    → Ready (record (set_api t b c) { heap = heap })
changed-Ready t b heap c r stays live = record {
  stream = r.stream;
  queue = r.queue;
  known =
      AllKnown-mono c (record (set_api t b c) { heap = heap }) (queued c)
        (λ u k. elim (Bool-cases (t == u)) [ inl e ↦ rw e tt | inr e ↦ rw e k ]) r.known;
  live = λ u. elim (Bool-cases (t == u)) [ inl e ↦ rw e live | inr e ↦ rw e (stays _ (r.live u)) ];
}
