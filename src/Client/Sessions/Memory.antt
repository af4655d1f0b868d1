-- ===== src/Client/Sessions/Memory.antt =====
-- Watcher.h and AdsClient.cpp: the states of a client and the memory, as a watch is put at the front
-- of its list and as it is taken off.
use mathlib.Core.Path.{subst}
use xds_client.Base.{
  ℕ, ◌+◌, String, true, false, Option, none, some, List, [], ◌∷◌, ◌++◌, ◌≡◌, sym, ap, ◌∙◌, inl, inr,
  ◌==◌, eq_refl, beq, beq_iff, store, Bool-cases, if◌then◌else◌, arith,
}
use xds_client.Client.State.{AdsClient, ApiState, Watcher, set_api, api_state_for}
use xds_client.Client.Watches.{unlink, subscribe}
use xds_client.Client.Sessions.{places, Fits}
use xds_client.Client.Sessions.Lists.{count-unlink, unlink-occupied, Fits-put}
use xds_client.Client.Sessions.Loops.{AllFit, fit_at}

-- The memory `after` is `before` with the watch `w` at `p`.
pub record Adds (p : ℕ) (w : Watcher) (before after : ℕ → Option Watcher) : Type 0 where
  pub gone : before p ≡ none
  pub there : after p ≡ some w
  pub others : (q : ℕ) → beq p q ≡ false → after q ≡ before q

pub Adds-erased :
    (p : ℕ) (w : Watcher) (heap : ℕ → Option Watcher)
    → heap p ≡ some w
    → Adds p w (store heap p none) heap
Adds-erased p w heap h = record {
  gone = ground (arith, beq_iff p p);
  there = h;
  others = λ q e. ground (arith, e);
}

module _ (p : ℕ) (w : Watcher) (before after : ℕ → Option Watcher)
    (adds : Adds p w before after) where
  places-other :
      (u : String) → (w.type_url == u) ≡ false → (q : ℕ) → places (after q) u ≡ places (before q) u
  places-other u e q = elim (Bool-cases (beq p q)) [
    | inl k ↦
        let same = (beq_iff p q).0 k in
        ap (λ x. places (after x) u) (sym same)
        ∙ rw (adds.there, e)
            (ap (λ o. places o u) (sym adds.gone) ∙ ap (λ x. places (before x) u) same)
    | inr k ↦ ap (λ o. places o u) (adds.others q k)
  ]

  places_self :
      (q : ℕ)
      → places (after q) w.type_url ≡ (if beq q p then 1 else 0) + places (before q) w.type_url
  places_self q = elim (Bool-cases (beq p q)) [
    | inl k ↦
        subst
          (λ x.
            places (after x) w.type_url ≡ (if beq x p then 1 else 0) + places (before x) w.type_url)
          ((beq_iff p q).0 k)
          (rw (adds.there, adds.gone) (ground (arith, eq_refl w.type_url, beq_iff p p)))
    | inr k ↦ ground (arith, k, adds.others q k, beq_iff p q, beq_iff q p)
  ]

  -- Of another type nothing changes.
  pub Fits-beside :
      (subscriptions : List String) (u : String) (a : ApiState)
      → (w.type_url == u) ≡ false
      → (Fits before subscriptions u a → Fits after subscriptions u a)
        × (Fits after subscriptions u a → Fits before subscriptions u a)
  Fits-beside subs u a e = (
    λ h. record {
      once = λ q. h.once q ∙ sym (places-other u e q);
      unpaused = h.unpaused;
      silent_node = h.silent_node;
      named = h.named;
      listed = h.listed;
      asked = h.asked;
    },
    λ h. record {
      once = λ q. h.once q ∙ places-other u e q;
      unpaused = h.unpaused;
      silent_node = h.silent_node;
      named = h.named;
      listed = h.listed;
      asked = h.asked;
    },
  )

  -- The watch is put at the front of its list.
  pub Fits-listed :
      (subscriptions : List String) (a : ApiState)
      → a.subscribed ≡ true
      → Fits before subscriptions w.type_url a
      → Fits after subscriptions w.type_url (record a { watches = p ∷ a.watches })
  Fits-listed subs a s h = record {
    once = λ q. ground (arith, h.once q, places_self q);
    unpaused = h.unpaused;
    silent_node = h.silent_node;
    named = h.named;
    listed = h.listed;
    asked = λ _. s;
  }

  -- It is taken off its list.
  pub Fits-unlinked :
      (subscriptions : List String) (a : ApiState) (ps : List ℕ)
      → unlink p a.watches ≡ some ps
      → Fits after subscriptions w.type_url a
      → Fits before subscriptions w.type_url (record a { watches = ps })
  Fits-unlinked subs a ps e h = record {
    once = λ q. omega (arith, h.once q, places_self q, count-unlink p q a.watches ps e);
    unpaused = h.unpaused;
    silent_node = h.silent_node;
    named = h.named;
    listed = h.listed;
    asked = λ k. h.asked (unlink-occupied p a.watches ps e);
  }

-- The states with the watch taken off the list of its type.
pub AllFit-unlinked :
    (p : ℕ) (w : Watcher) (a : ApiState) (ps : List ℕ) (before after : ℕ → Option Watcher)
    (c : AdsClient)
    → Adds p w before after
    → unlink p a.watches ≡ some ps
    → c.api_state w.type_url ≡ some a
    → AllFit after c
    → AllFit before (set_api w.type_url (record a { watches = ps }) c)
AllFit-unlinked p w a ps before after c adds e found h =
    Fits-put before c.subscriptions c.api_state w.type_url (record a { watches = ps })
      (λ u n. (Fits-beside p w before after adds c.subscriptions u _ n).1 (h u))
      (Fits-unlinked p w before after adds c.subscriptions a ps e
        (fit_at after w.type_url a c found h))

-- And with the watch put back.
pub AllFit-listed :
    (p : ℕ) (w : Watcher) (a : ApiState) (before after : ℕ → Option Watcher) (c : AdsClient)
    → Adds p w before after
    → c.api_state w.type_url ≡ some a
    → a.subscribed ≡ true
    → AllFit before c
    → AllFit after (set_api w.type_url (record a { watches = p ∷ a.watches }) c)
AllFit-listed p w a before after c adds found s h =
    Fits-put after c.subscriptions c.api_state w.type_url (record a { watches = p ∷ a.watches })
      (λ u n. (Fits-beside p w before after adds c.subscriptions u _ n).0 (h u))
      (Fits-listed p w before after adds c.subscriptions a s (fit_at before w.type_url a c found h))

pub subscribe-subscribed :
    (t : String) (a : ApiState) (c : AdsClient)
    → c.api_state t ≡ some a
    → a.subscribed ≡ true
    → subscribe t c ≡ c
unfolding subscribe api_state_for
subscribe-subscribed t a c e s = ground arith

pub subscribe-fresh :
    (t : String) (a : ApiState) (c : AdsClient)
    → c.api_state t ≡ some a
    → a.subscribed ≡ false
    → subscribe t c
      ≡ record (set_api t
          (record a { request = record a.request { type_url = t }; subscribed = true })
          c) { subscriptions = c.subscriptions ++ t ∷ [] }
unfolding subscribe api_state_for
subscribe-fresh t a c e s = ground arith
