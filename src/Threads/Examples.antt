-- ===== src/Threads/Examples.antt =====
-- A run of the threads of src/ads/AdsClient.h, in which an answer comes before the request is
-- written.
use xds_client.Base.{true, List, [], ◌∷◌, ◌≡◌, refl}
use xds_client.Wire.{DiscoveryResponse}
use xds_client.Client.State.{cluster_url}
use xds_client.Threads.{
  Threads, discovery_request, start_threads, write_step, close_step, read_step, end_step, join_step,
  writes, closes, reads, ends, joins, Turns, none_yet, and_then,
}
use xds_client.Threads.Ends.{Turns-returned}

abbrev early_answer : DiscoveryResponse
early_answer = record { version_info = "1"; resources = []; type_url = cluster_url; nonce = "a" }

abbrev answers_sent : List DiscoveryResponse
answers_sent = early_answer ∷ []

abbrev heard_early : Threads
heard_early = read_step early_answer [] (start_threads answers_sent)

abbrev all_done : Threads
all_done = join_step (end_step (close_step (write_step heard_early)))

early_run : Turns (start_threads answers_sent) all_done
unfolding start_threads read_step write_step close_step end_step
early_run =
    and_then
      (and_then
        (and_then
          (and_then
            (and_then none_yet (reads early_answer [] (start_threads answers_sent) refl refl))
            (writes heard_early refl))
          (closes (write_step heard_early) refl))
        (ends (close_step (write_step heard_early)) refl refl))
      (joins (end_step (close_step (write_step heard_early))) refl refl)

Turns-returned_example :
    (all_done.stream.written ≡ discovery_request ∷ [])
    × (all_done.stream.writes_done ≡ true)
    × (all_done.heard ≡ answers_sent)
unfolding join_step
Turns-returned_example = Turns-returned answers_sent all_done early_run refl
