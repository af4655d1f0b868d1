-- ===== src/Client/Steps/States.antt =====
-- Relations between the state of a type before and after a run.
use mathlib.Core.Path.{subst}
use xds_client.Base.{
  String, true, Option, none, some, List, [], ◌≡◌, refl, sym, ap, ◌∙◌, ◌⊎◌, inl, inr, false, ◌==◌,
  Bool-cases, Option-cases, put, arith, eq_iff,
}
use xds_client.Wire.{DiscoveryResponse}
use xds_client.Client.State.{AdsClient, ApiState, new_api_state, api_state_for}
use xds_client.Client.Requests.{fill_node}
use xds_client.Client.Loop.Send.{named}
use xds_client.Client.Loop.Answer.{noted, settled}
use xds_client.Client.Steps.{
  Step, allocate, pend, push, pop, send, ignore, note, settle, Reach, here, next,
}

-- The state after its request was written.
abbrev pub after_write : String → ApiState → List String → AdsClient → ApiState
after_write t a names c =
    let b = (fill_node t (named a names) c).0 in
    record b { request = record b.request { error_detail = none } }

-- A relation that every change of a state respects.
pub record IsStable (R : ApiState → ApiState → Type 0) : Type 0 where
  pub same : (a : ApiState) → R a a
  pub then : (a b c : ApiState) → R a b → R b c → R a c
  pub pends : (a : ApiState) → R a (record a { pending = true })
  pub writes :
      (t : String) (a : ApiState) (names : List String) (c : AdsClient)
      → R a (after_write t a names c)
  pub notes : (m : DiscoveryResponse) (a : ApiState) → R a (noted m a)
  pub settles : (m : DiscoveryResponse) (a : ApiState) → a.watches ≡ [] → R a (settled m a)

-- A state that is there stays, and changes by the relation.
abbrev pub Changes : (ApiState → ApiState → Type 0) → Option ApiState → Option ApiState → Type 0
Changes R none o = Unit
Changes R (some a) none = ⊥
Changes R (some a) (some b) = R a b

pub put_hit :
    (api : String → Option ApiState) (t u : String) (b : ApiState)
    → (t == u) ≡ true
    → put api t b u ≡ some b
put_hit api t u b e = ground arith

pub put_miss :
    (api : String → Option ApiState) (t u : String) (b : ApiState)
    → (t == u) ≡ false
    → put api t b u ≡ api u
put_miss api t u b e = ground arith

-- A lookup either finds what was there, or allocates.
pub api_state_for-cases :
    (t : String) (c : AdsClient)
    → ((api_state_for t c).1.api_state ≡ c.api_state)
      ⊎ ((c.api_state t ≡ none)
          × ((api_state_for t c).1.api_state ≡ put c.api_state t new_api_state))
unfolding api_state_for
api_state_for-cases t c = elim (Option-cases (c.api_state t)) [
  | inl e ↦ inr (e, ground arith)
  | inr (a, e) ↦ inl (ground arith)
]

module _ (R : ApiState → ApiState → Type 0) (stable : IsStable R) where
  Changes-refl : (o : Option ApiState) → Changes R o o
  Changes-refl none = tt
  Changes-refl (some a) = stable.same a

  Changes-trans : (o p q : Option ApiState) → Changes R o p → Changes R p q → Changes R o q
  Changes-trans none p q h k = tt
  Changes-trans (some a) (some b) (some c) h k = stable.then a b c h k
  Changes-trans (some a) (some b) none h k = k
  Changes-trans (some a) none q h k = absurd h

  Changes-put :
      (api : String → Option ApiState) (t : String) (a b : ApiState)
      → api t ≡ some a
      → R a b
      → (u : String) → Changes R (api u) (put api t b u)
  Changes-put api t a b ha h u = elim (Bool-cases (t == u)) [
    | inl e ↦
        let found : api u ≡ some a = ap api (sym ((eq_iff t u).0 e)) ∙ ha in
        rw (put_hit api t u b e) (rw found h)
    | inr e ↦ rw (put_miss api t u b e) (Changes-refl (api u))
  ]

  Changes-allocate :
      (t : String) (c : AdsClient) (u : String)
      → Changes R (c.api_state u) ((api_state_for t c).1.api_state u)
  Changes-allocate t c u = elim (api_state_for-cases t c) [
    | inl e ↦ rw e (Changes-refl (c.api_state u))
    | inr (missing, e) ↦ rw e (elim (Bool-cases (t == u)) [
      | inl k ↦ rw (ap c.api_state (sym ((eq_iff t u).0 k)) ∙ missing) tt
      | inr k ↦ rw (put_miss c.api_state t u new_api_state k) (Changes-refl (c.api_state u))
    ])
  ]

  Step-Changes :
      {c d : AdsClient} → Step c d → (u : String) → Changes R (c.api_state u) (d.api_state u)
  Step-Changes (allocate t c) u = Changes-allocate t c u
  Step-Changes (pend t a c ha p) u = Changes-put c.api_state t a _ ha (stable.pends a) u
  Step-Changes (push t q c e) u = Changes-refl (c.api_state u)
  Step-Changes (pop t q c e) u = Changes-refl (c.api_state u)
  Step-Changes (send t a names st c s hs ha hn) u =
      Changes-put c.api_state t a _ ha (stable.writes t a names c) u
  Step-Changes (ignore st m rest c hs hi) u = Changes-refl (c.api_state u)
  Step-Changes (note st m rest a c hs hi ha) u =
      Changes-put c.api_state m.type_url a _ ha (stable.notes m a) u
  Step-Changes (settle st m rest a c hs hi ha w e) u =
      Changes-put c.api_state m.type_url a _ ha (stable.settles m a w) u

  pub Reach-Changes :
      (c : AdsClient) {d : AdsClient}
      → Reach c d
      → (u : String) → Changes R (c.api_state u) (d.api_state u)
  Reach-Changes c here u = Changes-refl (c.api_state u)
  Reach-Changes c (next {d = d} {e = e} r s) u =
      Changes-trans (c.api_state u) (d.api_state u) (e.api_state u) (Reach-Changes c r u)
        (Step-Changes s u)

-- The state that a changed state has become.
pub Changes-found :
    (R : ApiState → ApiState → Type 0) (o p : Option ApiState) (a : ApiState)
    → o ≡ some a
    → Changes R o p
    → (b : ApiState) × (p ≡ some b) × R a b
Changes-found R o p a e h = found p (subst (λ x. Changes R x p) e h)
  where
    found : (q : Option ApiState) → Changes R (some a) q → (b : ApiState) × (q ≡ some b) × R a b
    found none k = absurd k
    found (some b) k = (b, refl, k)
