-- ===== src/Anylink/Spinning.antt =====
-- grpc/manager/AdsConnection.cpp: the worker thread faults at once or spins.
use xds_client.Base.{
  ℕ, zero, suc, ◌+◌, ◌≤◌, String, Bool, true, false, ◌&&◌, ◌||◌, none, some, List, [], ◌∷◌, ◌≡◌,
  refl, length, All, All-mono, arith, ok, fault, out_of_fuel, null_subscription, put, Option-cases,
  Bool-cases, inl, inr, ltb, if◌then◌else◌, sym, ◌∙◌, ap,
}
use xds_client.Anylink.Subscriptions.{Subscription}
use xds_client.Anylink.Manager.{url_list}
use xds_client.Anylink.Worker.{IstioCallable, entry, is_null, attend, attend_all, call}

-- The log line, if it is evaluated, finds a subscription for the type.
abbrev pub Served : Bool → IstioCallable → String → Type 0
Served true w url = (s : Subscription) × (w.subscribe_map url ≡ some (some s))
Served false w url = Unit

attend-Served :
    (logs : Bool) (url : String) (i : ℕ) (w : IstioCallable)
    → Served logs w url
    → suc i ≤ 4
    → (w1 : IstioCallable) × (attend logs url i w ≡ ok (i + 1, w1))
      × ((u : String) → Served logs w u → Served logs w1 u)
unfolding attend
attend-Served true url i w h k = (w, ground (arith, h.1), λ u s. s)
attend-Served false url i w h k = elim (Option-cases (w.subscribe_map url)) [
  | inl e ↦
      (record w { subscribe_map = put w.subscribe_map url none }, ground (arith, e), λ u s. tt)
  | inr (o, e) ↦ (w, ground (arith, e), λ u s. tt)
]

attend_all-Served :
    (logs : Bool) (us : List String) (i : ℕ) (w : IstioCallable)
    → All (Served logs w) us
    → length us + i ≤ 4
    → (w1 : IstioCallable) × (attend_all logs us i w ≡ ok w1)
      × ((u : String) → Served logs w u → Served logs w1 u)
unfolding attend_all
attend_all-Served logs [] i w h k = (w, refl, λ u s. s)
attend_all-Served logs (url ∷ us) i w h k =
    let (w1, one, kept) = attend-Served logs url i w h.0 (omega arith) in
    let (w2, rest, kept') =
      attend_all-Served logs us (i + 1) w1 (All-mono (Served logs w) (Served logs w1) us kept h.1)
        (omega arith) in
    (w2, rw one rest, λ u s. kept' u (kept u s))

call_spins :
    (f : ℕ) (logs : Bool) (w : IstioCallable)
    → All (Served logs w) url_list
    → call f logs w ≡ out_of_fuel
unfolding call
call_spins zero logs w h = refl
call_spins (suc f) logs w h =
    let (w1, round, kept) = attend_all-Served logs url_list 0 w h (omega arith) in
    rw round (call_spins f logs w1 (All-mono (Served logs w) (Served logs w1) url_list kept h))

-- The map has a null pointer, or nothing, for one of the types.
abbrev pub lacks : IstioCallable → List String → Bool
lacks w [] = false
lacks w (url ∷ urls) = is_null (entry url w).0 || lacks w urls

lacks-Served : (w : IstioCallable) (us : List String) → lacks w us ≡ false → All (Served true w) us
unfolding entry
lacks-Served w [] h = tt
lacks-Served w (url ∷ us) h = elim (Option-cases (w.subscribe_map url)) [
  | inl e ↦ absurd (ground (arith, e))
  | inr (none, e) ↦ absurd (ground (arith, e))
  | inr (some s, e) ↦ ((s, e), lacks-Served w us (ground (arith, e)))
]

Served-all : (w : IstioCallable) (us : List String) → All (Served false w) us
Served-all w [] = tt
Served-all w (url ∷ us) = (tt, Served-all w us)

attend_all-lacks :
    (us : List String) (i : ℕ) (w : IstioCallable)
    → lacks w us ≡ true
    → length us + i ≤ 4
    → attend_all true us i w ≡ fault null_subscription
unfolding attend_all entry
attend_all-lacks [] i w h k = cc
attend_all-lacks (url ∷ us) i w h k = elim (Option-cases (w.subscribe_map url)) [
  | inl e ↦ ground (arith, e)
  | inr (none, e) ↦ ground (arith, e)
  | inr (some s, e) ↦
      let bound : ltb i 4 ≡ true = ground (arith, k) in
      ground (arith, e, bound, attend_all-lacks us (i + 1) w (ground (arith, e)) (omega (arith, k)))
]

call_null :
    (f : ℕ) (w : IstioCallable)
    → lacks w url_list ≡ true
    → call (suc f) true w ≡ fault null_subscription
unfolding call
call_null f w h = rw (attend_all-lacks url_list 0 w h (omega arith)) refl

-- `call` never returns, however many rounds it is given: if the log line is evaluated and the map
-- lacks a subscription for one of the four types, it reads through a null pointer in its first round,
-- and else it goes on without a fault, with its index into the arrays below four.
pub call_endless :
    (f : ℕ) (logs : Bool) (w : IstioCallable)
    → call (suc f) logs w
      ≡ (if logs && lacks w url_list then fault null_subscription else out_of_fuel)
call_endless f false w = call_spins (suc f) false w (Served-all w url_list)
call_endless f true w = elim (Bool-cases (lacks w url_list)) [
  | inl e ↦ call_null f w e ∙ sym (ap (λ b. if b then fault null_subscription else out_of_fuel) e)
  | inr e ↦
      call_spins (suc f) true w (lacks-Served w url_list e)
      ∙ sym (ap (λ b. if b then fault null_subscription else out_of_fuel) e)
]
