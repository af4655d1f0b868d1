-- ===== src/Reactor/Examples.antt =====
-- A run of the reactor of src/asnyc_ads/AsyncAdsClient.cpp, and the theorems at that run.
use xds_client.Base.{true, List, [], ◌∷◌, ◌++◌, ◌≡◌, refl, ◌⊎◌}
use xds_client.Wire.{DiscoveryRequest}
use xds_client.Reactor.{
  Chatter, first_request, next_write, new_chatter, on_write_done, write_done, Run, stop, step,
}
use xds_client.Reactor.Ends.{Run-orderly, Run-finishes}

abbrev requests : List DiscoveryRequest
requests = first_request ∷ []

-- The reactor when its write has been done.
abbrev after_write : Chatter
after_write = on_write_done true (new_chatter requests)

first_write : Run (new_chatter requests) after_write
unfolding new_chatter next_write
first_write = step stop (write_done true (new_chatter requests) refl)

Run-orderly_example :
    (after_write.written ++ after_write.remaining ≡ requests)
    × ((after_write.closed ≡ 0) ⊎ ((after_write.closed ≡ 1) × (after_write.remaining ≡ [])))
    × (after_write.done ≡ true → (after_write.written ≡ requests) × (after_write.closed ≡ 1))
Run-orderly_example = Run-orderly requests after_write first_write

Run-finishes_example : (d : Chatter) × Run after_write d × (d.done ≡ true) × (d.written ≡ requests)
Run-finishes_example = Run-finishes requests after_write first_write
