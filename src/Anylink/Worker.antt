-- ===== src/Anylink/Worker.antt =====
-- grpc/manager/AdsConnection.h and AdsConnection.cpp: `IstioCallable`, the body of a thread that
-- never ends. Its own `receiveADS`, `sendACK` and `sendNACK` return at once and change nothing.
use xds_client.Base.{
  ℕ, zero, suc, ◌+◌, String, Bool, true, false, ◌&&◌, Option, none, some, List, [], ◌∷◌, put, ltb,
  if◌then◌else◌, Outcome, ok, fault, out_of_fuel, null_subscription, out_of_bounds, ◌>>=◌,
}
use xds_client.Anylink.Subscriptions.{Subscription}
use xds_client.Anylink.Manager.{url_list}

-- A value `none` in the map is a null pointer.
pub record IstioCallable : Type 0 where
  pub subscribe_map : String → Option (Option Subscription)

-- Nothing in the program fills the map.
unfoldable pub new_callable : IstioCallable
new_callable = record { subscribe_map = λ _. none }

-- `subscribe_map[url]`: a missing key gets a null pointer.
unfoldable pub entry : String → IstioCallable → Option Subscription × IstioCallable
entry url w = elim (w.subscribe_map url) [
  | none ↦ (none, record w { subscribe_map = put w.subscribe_map url none })
  | some o ↦ (o, w)
]

abbrev pub is_null : Option Subscription → Bool
is_null none = true
is_null (some _) = false

-- The body of the inner loop: the log line reads through the pointer, if it is evaluated (`logs`),
-- and the arrays have four places.
unfoldable pub attend : Bool → String → ℕ → IstioCallable → Outcome (ℕ × IstioCallable)
unfolding entry
attend logs url i w =
    let (sub, w1) = entry url w in
    if logs && is_null sub
    then fault null_subscription
    else if ltb i 4
    then ok (i + 1, w1)
    else fault out_of_bounds

unfoldable pub attend_all : Bool → List String → ℕ → IstioCallable → Outcome IstioCallable
unfolding attend
attend_all logs [] i w = ok w
attend_all logs (url ∷ urls) i w = attend logs url i w >>= λ r. attend_all logs urls r.0 r.1

-- `call`, for a number of rounds of its outer loop.
unfoldable pub call : ℕ → Bool → IstioCallable → Outcome IstioCallable
unfolding attend_all
call zero logs w = out_of_fuel
call (suc f) logs w = attend_all logs url_list 0 w >>= call f logs
