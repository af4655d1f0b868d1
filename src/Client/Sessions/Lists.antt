-- ===== src/Client/Sessions/Lists.antt =====
-- Watcher.h and AdsClient.cpp: the lists of watches as watches come, move and go.
use mathlib.Core.Path.{subst}
use xds_client.Base.{
  ℕ, ◌+◌, ◌<◌, String, true, false, Option, some, List, [], ◌∷◌, ◌++◌, ◌≡◌, refl, inl, inr, ◌==◌,
  eq_iff, eq_refl, contains-append, beq, beq_iff, put, contains, Bool-cases, Option-cases,
  if◌then◌else◌, arith,
}
use xds_client.Client.State.{AdsClient, ApiState, Watcher, api_state_for}
use xds_client.Client.Watches.{unlink}
use xds_client.Client.Steps.States.{put_hit, put_miss}
use xds_client.Client.Loop.{is_empty}
use xds_client.Client.Sessions.{count, state_of, Fits}

-- A watch is taken off once.
pub count-unlink :
    (p q : ℕ) (ps rest : List ℕ)
    → unlink p ps ≡ some rest
    → count q ps ≡ (if beq q p then 1 else 0) + count q rest
unfolding unlink
count-unlink p q [] rest h = absurd (ground arith)
count-unlink p q (x ∷ ps) rest h = elim (Bool-cases (beq p x)) [
  | inl e ↦ ground (arith, h, e, beq_iff p x, beq_iff q x, beq_iff q p)
  | inr e ↦ elim (Option-cases (unlink p ps)) [
    | inl k ↦ absurd (ground arith)
    | inr (r, k) ↦ ground (arith, h, e, k, count-unlink p q ps r k)
  ]
]

pub unlink-occupied : (p : ℕ) (ps rest : List ℕ) → unlink p ps ≡ some rest → is_empty ps ≡ false
unfolding unlink
unlink-occupied p [] rest h = absurd (ground arith)
unlink-occupied p (x ∷ ps) rest h = refl

-- A watch that stands in a list is found there.
pub unlink-found :
    (p : ℕ) (ps : List ℕ) → 0 < count p ps → (rest : List ℕ) × (unlink p ps ≡ some rest)
unfolding unlink
unlink-found p [] h = absurd (omega arith)
unlink-found p (x ∷ ps) h = elim (Bool-cases (beq p x)) [
  | inl e ↦ (ps, ground (arith, e))
  | inr e ↦
      let (rest, found) = unlink-found p ps (ground (arith, e, h)) in
      (x ∷ rest, ground (arith, e, found))
]

pub contains-last : (xs : List String) (t : String) → contains (xs ++ t ∷ []) t ≡ true
contains-last xs t = ground (arith, contains-append xs (t ∷ []) t, eq_refl t)

-- A lookup that allocates changes no state.
pub state_of-allocate :
    (t u : String) (c : AdsClient)
    → state_of ((api_state_for t c).1.api_state u) ≡ state_of (c.api_state u)
unfolding api_state_for
state_of-allocate t u c = elim (Option-cases (c.api_state t)) [
  | inl e ↦ elim (Bool-cases (t == u)) [
    | inl k ↦ ground (arith, e, k, eq_iff t u)
    | inr k ↦ ground (arith, e, k)
  ]
  | inr (a, e) ↦ ground (arith, e)
]

pub state_of-found : (t : String) (c : AdsClient) → (api_state_for t c).0 ≡ state_of (c.api_state t)
unfolding api_state_for
state_of-found t c = elim (Option-cases (c.api_state t)) [
  | inl e ↦ ground (arith, e)
  | inr (a, e) ↦ ground (arith, e)
]

-- A state is replaced, and the others fit still.
pub Fits-put :
    (heap : ℕ → Option Watcher) (subscriptions : List String) (api : String → Option ApiState)
    (t : String) (b : ApiState)
    → ((u : String) → (t == u) ≡ false → Fits heap subscriptions u (state_of (api u)))
    → Fits heap subscriptions t b
    → (u : String) → Fits heap subscriptions u (state_of (put api t b u))
Fits-put heap subs api t b h k u = elim (Bool-cases (t == u)) [
  | inl e ↦ rw (put_hit api t u b e) (subst (λ v. Fits heap subs v b) ((eq_iff t u).0 e) k)
  | inr e ↦ rw (put_miss api t u b e) (h u e)
]

-- More subscriptions do no harm.
pub Fits-append :
    (heap : ℕ → Option Watcher) (xs ys : List String) (t : String) (a : ApiState)
    → Fits heap xs t a
    → Fits heap (xs ++ ys) t a
Fits-append heap xs ys t a h = record {
  once = h.once;
  unpaused = h.unpaused;
  silent_node = h.silent_node;
  named = h.named;
  listed = λ s. rw (contains-append xs ys t, h.listed s) refl;
  asked = h.asked;
}
