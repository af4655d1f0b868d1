-- ===== src/Client/Lasting.antt =====
-- AdsClient.cpp: what a run of the loop leaves of the memory and of the states of the types.
use mathlib.Core.Path.{subst}
use xds_client.Base.{
  String, Option, some, ◌≡◌, sym, ap, ◌∙◌, Bool-cases, inl, inr, put, ◌==◌, eq_iff,
}
use xds_client.Client.State.{AdsClient, ApiState}
use xds_client.Client.Answers.{Lasts, Lasts-IsStable}
use xds_client.Client.Steps.{
  Step, allocate, pend, push, pop, send, ignore, note, settle, Reach, Reach-keeps,
}
use xds_client.Client.Steps.States.{put_hit, put_miss}
use xds_client.Client.Watching.{Reach-heap}
use xds_client.Client.Sessions.{state_of}
use xds_client.Client.Sessions.Lists.{state_of-allocate}

state-put :
    (api : String → Option ApiState) (t : String) (a b : ApiState)
    → api t ≡ some a
    → Lasts a b
    → (u : String) → Lasts (state_of (api u)) (state_of (put api t b u))
state-put api t a b ha h u = elim (Bool-cases (t == u)) [
  | inl e ↦ rw (put_hit api t u b e, ap api (sym ((eq_iff t u).0 e)) ∙ ha) h
  | inr e ↦ rw (put_miss api t u b e) (Lasts-IsStable.same (state_of (api u)))
]

pub Step-Lasts :
    {c d : AdsClient}
    → Step c d
    → (u : String) → Lasts (state_of (c.api_state u)) (state_of (d.api_state u))
Step-Lasts (allocate t c) u =
    rw (state_of-allocate t u c) (Lasts-IsStable.same (state_of (c.api_state u)))
Step-Lasts (pend t a c ha p) u = state-put c.api_state t a _ ha (Lasts-IsStable.pends a) u
Step-Lasts (push t q c e) u = Lasts-IsStable.same (state_of (c.api_state u))
Step-Lasts (pop t q c e) u = Lasts-IsStable.same (state_of (c.api_state u))
Step-Lasts (send t a names st c s hs ha hn) u =
    state-put c.api_state t a _ ha (Lasts-IsStable.writes t a names c) u
Step-Lasts (ignore st m rest c hs hi) u = Lasts-IsStable.same (state_of (c.api_state u))
Step-Lasts (note st m rest a c hs hi ha) u =
    state-put c.api_state m.type_url a _ ha (Lasts-IsStable.notes m a) u
Step-Lasts (settle st m rest a c hs hi ha w e) u =
    state-put c.api_state m.type_url a _ ha (Lasts-IsStable.settles m a w) u

-- A run leaves the memory, and of each state what a request for it says.
pub record Same (c d : AdsClient) : Type 0 where
  pub heap : d.heap ≡ c.heap
  pub lasts : (u : String) → Lasts (state_of (c.api_state u)) (state_of (d.api_state u))

pub Reach-Same : (c d : AdsClient) → Reach c d → Same c d
Reach-Same c d reached = record {
  heap = Reach-heap c d reached;
  lasts = λ u.
      Reach-keeps (λ x. Lasts (state_of (c.api_state u)) (state_of (x.api_state u)))
        (λ x y step h.
          Lasts-IsStable.then (state_of (c.api_state u)) (state_of (x.api_state u))
            (state_of (y.api_state u)) h (Step-Lasts step u))
        c reached (Lasts-IsStable.same (state_of (c.api_state u)));
}

-- States that last still do when the state of one type is set anew on both sides.
pub Lasts-reput :
    (before api : String → Option ApiState) (t : String) (old a b : ApiState)
    → ((u : String) → Lasts (state_of (put before t old u)) (state_of (api u)))
    → Lasts a b
    → (u : String) → Lasts (state_of (put before t a u)) (state_of (put api t b u))
Lasts-reput before api t old a b h k u = elim (Bool-cases (t == u)) [
  | inl e ↦ rw (put_hit before t u a e, put_hit api t u b e) k
  | inr e ↦
      rw (put_miss before t u a e, put_miss api t u b e)
        (subst (λ x. Lasts (state_of x) (state_of (api u))) (put_miss before t u old e) (h u))
]
