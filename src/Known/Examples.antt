-- ===== src/Known/Examples.antt =====
-- A resource that is made known, with the theorem at that state.
use xds_client.Base.{String, ◌&&◌, ◌||◌, ◌≡◌, ◌==◌, contains}
use xds_client.Known.{State, new_state, known, add_resource}
use xds_client.Known.Laws.{IsOrdered, add_resource-IsOrdered}

-- The routes "b" and "a" are known.
abbrev two_routes : State
two_routes = add_resource "Route" "a" (add_resource "Route" "b" new_state)

new_state-IsOrdered : IsOrdered new_state
unfolding new_state
new_state-IsOrdered t = tt

two_routes-IsOrdered : IsOrdered two_routes
two_routes-IsOrdered =
    (add_resource-IsOrdered "Route" "a" (add_resource "Route" "b" new_state)
      (add_resource-IsOrdered "Route" "b" new_state new_state-IsOrdered).0).0

add_resource-IsOrdered_example :
    IsOrdered (add_resource "Cluster" "c" two_routes)
    × ((u m : String)
        → contains (known (add_resource "Cluster" "c" two_routes) u) m
          ≡ (("Cluster" == u && "c" == m) || contains (known two_routes u) m))
add_resource-IsOrdered_example =
    add_resource-IsOrdered "Cluster" "c" two_routes two_routes-IsOrdered
