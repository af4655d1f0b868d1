-- ===== src/Client/Resumed.antt =====
-- A client that has watches when its stream is made, and a program whose server has no clusters, with
-- the theorems there.
use xds_client.Base.{◌≡◌, refl, true, some, none, String, [], ◌∷◌, ok, arith, put, store, ℕ, All}
use xds_client.Wire.{DiscoveryResponse, Stream, default_request}
use xds_client.Client.State.{AdsClient, ApiState, new_client, new_api_state, cluster_url}
use xds_client.Client.Requests.{watched, add_names}
use xds_client.Client.Streams.{on_stream_established, main}
use xds_client.Client.Loop.{inbound}
use xds_client.Client.Silent.{Summary, IsResumed, types, summaries}
use xds_client.Client.Resuming.{on_stream_established_resumes}
use xds_client.Client.Serving.{main_returns}

abbrev listener_url : String
listener_url = "type.googleapis.com/envoy.config.listener.v3.Listener"

-- The state of a type to which a watch has subscribed.
abbrev awaited : String → ℕ → ApiState
awaited t p = record new_api_state {
  watches = p ∷ [];
  request = record default_request { type_url = t };
  subscribed = true;
}

-- A client that has watched a cluster and a listener before its stream is made.
abbrev early : AdsClient
early = record (new_client true) {
  subscriptions = cluster_url ∷ cluster_url ∷ listener_url ∷ [];
  api_state =
      put (put (λ _. none) cluster_url (awaited cluster_url 0)) listener_url
        (awaited listener_url 1);
  heap =
      store (store (λ _. none) 0 (some (record { resources = "c" ∷ []; type_url = cluster_url }))) 1
        (some (record { resources = "l" ∷ []; type_url = listener_url }));
  next_watcher = 2;
}

early-IsResumed : All (IsResumed early) (cluster_url ∷ cluster_url ∷ listener_url ∷ [])
unfolding watched
early-IsResumed = (clusters, (clusters, (listeners, tt)))
  where
    clusters : IsResumed early cluster_url
    clusters = record {
      state = awaited cluster_url 0;
      names = "c" ∷ [];
      found = refl;
      subscribed = refl;
      unpaused = refl;
      own_type = refl;
      live = refl;
    }

    listeners : IsResumed early listener_url
    listeners = record {
      state = awaited listener_url 1;
      names = "l" ∷ [];
      found = refl;
      subscribed = refl;
      unpaused = refl;
      own_type = refl;
      live = refl;
    }

abbrev asked : String → String → Summary
asked t name = record {
  type_url = t;
  version_info = "";
  response_nonce = "";
  resource_names = name ∷ [];
}

on_stream_established_resumes_example :
    (d : AdsClient) × (on_stream_established 5 (some []) early ≡ ok d)
    × (summaries d ≡ asked cluster_url "c" ∷ asked cluster_url "c" ∷ asked listener_url "l" ∷ [])
    × (d.subscriptions ≡ cluster_url ∷ cluster_url ∷ listener_url ∷ [])
unfolding new_client watched add_names
on_stream_established_resumes_example =
    on_stream_established_resumes 5 early refl refl refl early-IsResumed (omega arith)

abbrev nothing_new : DiscoveryResponse
nothing_new = record { version_info = "1"; resources = []; type_url = cluster_url; nonce = "n1" }

main_returns_example :
    (d : AdsClient) × (main 10 (some (nothing_new ∷ [])) ≡ ok d)
    × (types d ≡ cluster_url ∷ cluster_url ∷ [])
    × (inbound d ≡ [])
    × (d.shut_down ≡ true)
    × ((st : Stream) × (d.stream ≡ some st) × (st.writes_done ≡ true))
main_returns_example = main_returns 10 (nothing_new ∷ []) refl (omega arith)
