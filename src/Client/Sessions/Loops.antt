-- ===== src/Client/Sessions/Loops.antt =====
-- AdsClient.cpp: the states of a client in the loop of requests and answers.
use mathlib.Core.Path.{subst}
use xds_client.Base.{
  ℕ, ◌+◌, ◌≤◌, String, true, false, ◌⊎◌, Option, some, List, [], ◌∷◌, ◌++◌, ◌≡◌, refl, ap, ◌∙◌, inl,
  inr, arith, length, length-append, if◌then◌else◌,
}
use xds_client.Wire.{Stream}
use xds_client.Client.State.{AdsClient, ApiState, Watcher, api_state_for, set_api}
use xds_client.Client.Requests.{fill_node}
use xds_client.Client.Loop.Send.{named, sent}
use xds_client.Client.Loop.Answer.{noted, settled}
use xds_client.Client.Loop.Read.{arrived}
use xds_client.Client.Loop.Entry.{api_state_for-rest}
use xds_client.Client.Steps.{
  Step, allocate, pend, push, pop, send, ignore, note, settle, Reach, Reach-keeps,
}
use xds_client.Client.Steps.States.{after_write}
use xds_client.Client.Sessions.{state_of, Fits}
use xds_client.Client.Sessions.Lists.{contains-last, state_of-allocate, Fits-put, Fits-append}

-- Every state is in order, for the memory `view`: between the steps of an operation that is not the
-- client's own.
abbrev pub AllFit : (ℕ → Option Watcher) → AdsClient → Type 0
AllFit view c = (t : String) → Fits view c.subscriptions t (state_of (c.api_state t))

-- How long the list of subscriptions can still become on the stream.
abbrev pub room : AdsClient → ℕ
room c = length c.subscriptions + (if c.first_stream_request then 1 else 0)

-- What every step keeps, for two memories, the next address and a bound on the subscriptions.
pub record Keeps (view heap : ℕ → Option Watcher) (next bound : ℕ) (c : AdsClient) : Type 0 where
  pub fit : AllFit view c
  pub memory : c.heap ≡ heap
  pub address : c.next_watcher ≡ next
  pub bounded : room c ≤ bound

-- The subscriptions after a request.
fill_node-subscriptions :
    (t : String) (a : ApiState) (c : AdsClient)
    → a.must_send_node ≡ false
    → ((fill_node t a c).1.subscriptions ≡ c.subscriptions)
      ⊎ ((c.first_stream_request ≡ true)
          × ((fill_node t a c).1.subscriptions ≡ c.subscriptions ++ t ∷ []))
unfolding fill_node
fill_node-subscriptions t a c n = ground arith

-- The state of the type after a request.
Fits-write :
    (heap : ℕ → Option Watcher) (t : String) (a : ApiState) (names : List String) (c : AdsClient)
    → Fits heap c.subscriptions t a
    → Fits heap (fill_node t (named a names) c).1.subscriptions t (after_write t a names c)
unfolding fill_node
Fits-write heap t a names c h = record {
  once = λ p. ground (arith, h.once p);
  unpaused = ground (arith, h.unpaused);
  silent_node = ground (arith, h.silent_node);
  named = λ s. ground (arith, h.named, h.silent_node);
  listed = λ s. ground (arith, h.listed, h.silent_node, contains-last c.subscriptions t);
  asked = λ s. ground (arith, h.asked, h.silent_node);
}

-- Any other change of a state leaves what `Fits` reads.
pub Fits-same :
    (heap : ℕ → Option Watcher) (subscriptions : List String) (t : String) (a b : ApiState)
    → b.watches ≡ a.watches
    → b.pauses ≡ a.pauses
    → b.must_send_node ≡ a.must_send_node
    → b.subscribed ≡ a.subscribed
    → b.request.type_url ≡ a.request.type_url
    → Fits heap subscriptions t a
    → Fits heap subscriptions t b
Fits-same heap subs t a b w p n s u h = record {
  once = λ q. rw w (h.once q);
  unpaused = rw p h.unpaused;
  silent_node = rw n h.silent_node;
  named = λ k. rw u (h.named (rw s at k));
  listed = λ k. h.listed (rw s at k);
  asked = λ k. rw s (h.asked (rw w at k));
}

pub fit_at :
    (view : ℕ → Option Watcher) (t : String) (a : ApiState) (c : AdsClient)
    → c.api_state t ≡ some a
    → AllFit view c
    → Fits view c.subscriptions t a
fit_at view t a c e h = subst (λ o. Fits view c.subscriptions t (state_of o)) e (h t)

module _ (view heap : ℕ → Option Watcher) (next bound : ℕ) where
  Keeps-allocate :
      (t : String) (c : AdsClient)
      → Keeps view heap next bound c
      → Keeps view heap next bound (api_state_for t c).1
  Keeps-allocate t c k = record {
    fit = λ u. rw (api_state_for-rest t c) (rw (state_of-allocate t u c) (k.fit u));
    memory = ap (λ (d : AdsClient). d.heap) (api_state_for-rest t c) ∙ k.memory;
    address = ap (λ (d : AdsClient). d.next_watcher) (api_state_for-rest t c) ∙ k.address;
    bounded = rw (ap room (api_state_for-rest t c)) k.bounded;
  }

  -- A state is replaced by one that fits.
  Keeps-put :
      (t : String) (b : ApiState) (c : AdsClient)
      → Fits view c.subscriptions t b
      → Keeps view heap next bound c
      → Keeps view heap next bound (set_api t b c)
  Keeps-put t b c h k = record {
    fit = Fits-put view c.subscriptions c.api_state t b (λ u _. k.fit u) h;
    memory = k.memory;
    address = k.address;
    bounded = k.bounded;
  }

  Keeps-send :
      (t : String) (a : ApiState) (names : List String) (st : Stream) (c : AdsClient)
      → c.api_state t ≡ some a
      → Keeps view heap next bound c
      → Keeps view heap next bound (sent t a names st c)
  Keeps-send t a names st c ha k = record {
    fit =
        Fits-put view (sent t a names st c).subscriptions c.api_state t (after_write t a names c)
          (λ u _. elim more [
            | inl e ↦ rw e (k.fit u)
            | inr e ↦ rw e.1 (Fits-append view c.subscriptions (t ∷ []) u _ (k.fit u))
          ])
          (Fits-write view t a names c here_fits);
    memory = k.memory;
    address = k.address;
    bounded = elim more [
      | inl e ↦ omega (arith, k.bounded, ap length e)
      | inr e ↦
          ground (arith, k.bounded, e.0, ap length e.1, length-append c.subscriptions (t ∷ []))
    ];
  }
    where
      here_fits : Fits view c.subscriptions t a
      here_fits = fit_at view t a c ha k.fit

      more :
          ((sent t a names st c).subscriptions ≡ c.subscriptions)
          ⊎ ((c.first_stream_request ≡ true)
              × ((sent t a names st c).subscriptions ≡ c.subscriptions ++ t ∷ []))
      more = fill_node-subscriptions t (named a names) c here_fits.silent_node

  pub Step-Keeps :
      (c d : AdsClient) → Step c d → Keeps view heap next bound c → Keeps view heap next bound d
  Step-Keeps _ _ (allocate t c) k = Keeps-allocate t c k
  Step-Keeps _ _ (pend t a c ha p) k =
      Keeps-put t (record a { pending = true }) c
        (Fits-same view c.subscriptions t a _ refl refl refl refl refl (fit_at view t a c ha k.fit))
        k
  Step-Keeps _ _ (push t q c e) k = record {
    fit = k.fit;
    memory = k.memory;
    address = k.address;
    bounded = k.bounded;
  }
  Step-Keeps _ _ (pop t q c e) k = record {
    fit = k.fit;
    memory = k.memory;
    address = k.address;
    bounded = k.bounded;
  }
  Step-Keeps _ _ (send t a names st c s hs ha hn) k = Keeps-send t a names st c ha k
  Step-Keeps _ _ (ignore st m rest c hs hi) k = record {
    fit = k.fit;
    memory = k.memory;
    address = k.address;
    bounded = k.bounded;
  }
  Step-Keeps _ _ (note st m rest a c hs hi ha) k =
      Keeps-put m.type_url (noted m a) (arrived st rest c)
        (Fits-same view c.subscriptions m.type_url a _ refl refl refl refl refl
          (fit_at view m.type_url a c ha k.fit))
        (record { fit = k.fit; memory = k.memory; address = k.address; bounded = k.bounded })
  Step-Keeps _ _ (settle st m rest a c hs hi ha w k') k =
      Keeps-put m.type_url (settled m a) (arrived st rest c)
        (Fits-same view c.subscriptions m.type_url a _ refl refl refl refl refl
          (fit_at view m.type_url a c ha k.fit))
        (record { fit = k.fit; memory = k.memory; address = k.address; bounded = k.bounded })

  pub Reach-Keeps :
      (c d : AdsClient) → Reach c d → Keeps view heap next bound c → Keeps view heap next bound d
  Reach-Keeps c d r = Reach-keeps (Keeps view heap next bound) Step-Keeps c r
