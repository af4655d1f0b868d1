-- ===== src/Base/Tables.antt =====
-- Maps as functions: `std::unordered_map` by its names, and the heap of watchers by its addresses.
use Prim.Native.Nat.{ℕ}
use Prim.Native.String.{String}
use mathlib.Core.Path.{◌≡◌}
use mathlib.Core.Logic.{◌≢◌}
use mathlib.Core.Option.{Option, some}
use native.Mathlib.Omega.{arith}
use text.Mathlib.Text.{◌==◌}
use text.Mathlib.TextEquality.{eq_iff}
use xds_client.Base.Tests.{beq, if◌then◌else◌}

module _ {ℓ} {V : Type ℓ} where
  abbrev pub put : (String → Option V) → String → V → String → Option V
  put m k v j = if k == j then some v else m j

  abbrev pub store : (ℕ → Option V) → ℕ → Option V → ℕ → Option V
  store m p v q = if beq p q then v else m q

  pub put_self : (m : String → Option V) (k : String) (v : V) → put m k v k ≡ some v
  put_self m k v = ground (arith, eq_iff k k)

  pub put_ne : (m : String → Option V) (k j : String) (v : V) → k ≢ j → put m k v j ≡ m j
  put_ne m k j v h = ground (arith, eq_iff k j)
