-- ===== src/Client/Sessions/Examples.antt =====
-- AdsClient.h, AdsClient.cpp and Watcher.h: a session of the client, call by call.
use xds_client.Base.{
  ◌<◌, false, some, List, [], ◌∷◌, ◌++◌, ◌≡◌, ◌⊎◌, refl, ok, fault, out_of_fuel, Outcome,
  insert_all, set_insert, Ends, All, empty_pop, length, arith, none,
}
use xds_client.Wire.{DiscoveryRequest}
use xds_client.Client.State.{
  AdsClient, new_client, set_channel, clear_nonce, api_state_for, cluster_url,
}
use xds_client.Client.Requests.{
  watched, add_names, fill_node, write, send_request, send_discovery_request, push_request,
  pop_request, queue_discovery_request, accept_response, on_discovery_response, read_response,
  front_request, drain_requests, read_responses,
}
use xds_client.Client.Streams.{request_subscriptions, on_stream_established}
use xds_client.Client.Watches.{
  deref, watch_list, unlink, erase_watch, update_resources, new_watcher, request_unless_empty,
  delete_watcher, update_watcher, subscribe, add_watch,
}
use xds_client.Client.Loop.{written}
use xds_client.Client.Sessions.{
  IsSound, Call, connect, establish, watch, update, destroy, perform, perform_all,
}
use xds_client.Client.Sessions.Calls.{session-IsSound}
use xds_client.Client.Sessions.Names.{Serves}
use xds_client.Client.Sessions.Requested.{session_requests, written_before, updating}
use xds_client.Client.Sessions.Effects.{effects}
use xds_client.Client.Sessions.Refined.{session-effects}
use xds_client.Client.Sessions.Told.{Told}
use xds_client.Client.Sessions.Telling.{session-Told}
use xds_client.Client.Sessions.Safety.{incoming, session-Ends}

abbrev given : Outcome AdsClient → AdsClient
given r = elim r [ ok d ↦ d | fault e ↦ new_client false | out_of_fuel ↦ new_client false ]

-- Two watches come before the stream, and a third on it; the first is destroyed.
abbrev calls : List Call
calls =
    connect
    ∷ watch cluster_url ("b" ∷ "a" ∷ [])
    ∷ watch "listener" ("l" ∷ [])
    ∷ establish (some [])
    ∷ watch "listener" []
    ∷ destroy 0
    ∷ []

abbrev session : Outcome AdsClient
session = perform_all 20 calls (new_client false)

session-IsSound_example : IsSound (given session)
unfolding new_client set_channel clear_nonce on_stream_established request_subscriptions add_watch
    subscribe new_watcher update_resources delete_watcher erase_watch unlink request_unless_empty
    deref watch_list insert_all set_insert queue_discovery_request api_state_for push_request
    drain_requests front_request send_discovery_request send_request watched add_names fill_node
    write read_responses read_response on_discovery_response accept_response pop_request
session-IsSound_example = session-IsSound 20 false calls (given session) refl

session-effects_example :
    ((given session).heap, (given session).next_watcher) ≡ effects calls ((λ _. none), 0)
unfolding new_client set_channel clear_nonce on_stream_established request_subscriptions add_watch
    subscribe new_watcher update_resources delete_watcher erase_watch unlink request_unless_empty
    deref watch_list insert_all set_insert queue_discovery_request api_state_for push_request
    drain_requests front_request send_discovery_request send_request watched add_names fill_node
    write read_responses read_response on_discovery_response accept_response pop_request
session-effects_example = session-effects 20 false calls (given session) refl

-- The watch at 1 gets other names.
abbrev call : Call
call = update 1 ("n" ∷ "m" ∷ "n" ∷ [])

session-Ends_example :
    Ends
      (λ e. (e ≡ empty_pop) × (0 < length (incoming call (given session))))
      IsSound
      (perform 20 call (given session))
unfolding new_client set_channel clear_nonce on_stream_established request_subscriptions add_watch
    subscribe new_watcher update_resources delete_watcher erase_watch unlink request_unless_empty
    deref watch_list insert_all set_insert queue_discovery_request api_state_for push_request
    drain_requests front_request send_discovery_request send_request watched add_names fill_node
    write read_responses read_response on_discovery_response accept_response pop_request
session-Ends_example =
    session-Ends 20 20 false calls call (given session) refl (_, refl) (omega arith)

-- A stream with one watch on it, which gets another name.
abbrev short_calls : List Call
short_calls = watch cluster_url ("a" ∷ []) ∷ connect ∷ establish (some []) ∷ []

abbrev short : Outcome AdsClient
short = perform_all 9 short_calls (new_client false)

abbrev called : Outcome AdsClient
called = perform 9 (update 0 ("b" ∷ [])) (given short)

session_requests_example :
    (rs : List DiscoveryRequest) × (written (given called)
      ≡ written_before (update 0 ("b" ∷ [])) (given short) ++ rs)
    × All
        (λ r.
          Serves (given called).heap r
          ⊎ Serves (updating (update 0 ("b" ∷ [])) (given called).heap) r)
        rs
unfolding update_watcher new_client set_channel clear_nonce on_stream_established
    request_subscriptions add_watch subscribe new_watcher update_resources delete_watcher
    erase_watch unlink request_unless_empty deref watch_list insert_all set_insert
    queue_discovery_request api_state_for push_request drain_requests front_request
    send_discovery_request send_request watched add_names fill_node write read_responses
    read_response on_discovery_response accept_response pop_request
session_requests_example =
    session_requests 9 9 false short_calls (update 0 ("b" ∷ [])) (given short) (given called) refl
      refl

session-Told_example : Told (given called).heap cluster_url (given called)
unfolding update_watcher new_client set_channel clear_nonce on_stream_established
    request_subscriptions add_watch subscribe new_watcher update_resources delete_watcher
    erase_watch unlink request_unless_empty deref watch_list insert_all set_insert
    queue_discovery_request api_state_for push_request drain_requests front_request
    send_discovery_request send_request watched add_names fill_node write read_responses
    read_response on_discovery_response accept_response pop_request
session-Told_example =
    session-Told 9 9 false short_calls (update 0 ("b" ∷ [])) (given short) (given called) 0
      (record { resources = "b" ∷ []; type_url = cluster_url }) refl
      (record { resources = "a" ∷ []; type_url = cluster_url }, refl, refl, ((_, refl), refl)) refl
      refl
