-- ===== src/Client/Serving.antt =====
-- main.cpp: the program returns when the server has no clusters.
use xds_client.Base.{
  ℕ, zero, suc, ◌+◌, ◌*◌, ◌≤◌, true, false, some, Option, List, [], ◌∷◌, ◌++◌, ◌≡◌, refl, sym, ap,
  ◌∙◌, length, map, ok, arith, ◌>>=◌, get_elem?, ltb,
}
use xds_client.Wire.{DiscoveryRequest, DiscoveryResponse, Stream}
use xds_client.Client.State.{
  AdsClient, ApiState, new_api_state, new_client, set_channel, api_state_for, clear_nonce,
  cluster_url,
}
use xds_client.Client.Requests.{
  watched, fill_node, send_request, queue_discovery_request, drain_requests,
}
use xds_client.Client.Streams.{
  on_stream_established, new_stream, request_subscriptions, end_stream, shutdown, main,
}
use xds_client.Client.Loop.{
  inbound, stream_written, some_asks, some_asks-SameProfiles, Stays, Stays-asks,
}
use xds_client.Client.Loop.Send.{sent, send_request-eq-ok, sent-Stays}
use xds_client.Client.Loop.Drain.{drain_single}
use xds_client.Client.Loop.Read.{inbound-eq}
use xds_client.Client.Loop.Entry.{entered, entered-Ready, entered-queue}
use xds_client.Client.Answers.{read_responses_quiet}
use xds_client.Client.Silent.{IsSilent, IsResumed, types}
use xds_client.Client.Resuming.{request_more, request_resumes}
use xds_client.Client.Steps.Ended.{stream_ended, Reach-ended}
use xds_client.Client.Steps.Established.{opened_stream, request_subscriptions-Reach}
use xds_client.Client.Program.{has_clusters, start, start-Ready, start_asks}

module _ (messages : List DiscoveryResponse) (none_come : has_clusters messages ≡ false) where
  -- The client of `main` with its first request in the queue, and when that is written.
  abbrev waiting : AdsClient
  waiting = entered cluster_url (start messages)

  abbrev wrote : AdsClient
  wrote = sent cluster_url new_api_state [] (new_stream messages) waiting

  wrote-Stays : Stays waiting wrote
  unfolding set_channel new_client clear_nonce api_state_for
  wrote-Stays =
      sent-Stays cluster_url new_api_state [] (new_stream messages) waiting refl refl
        (entered-Ready cluster_url (start messages) (start-Ready messages))

  sending : send_request cluster_url waiting ≡ ok wrote
  unfolding set_channel new_client clear_nonce api_state_for watched
  sending =
      send_request-eq-ok cluster_url new_api_state [] (new_stream messages) waiting refl refl refl

  wrote_quiet : some_asks wrote (inbound wrote) ≡ false
  unfolding set_channel new_client clear_nonce api_state_for
  wrote_quiet =
      Stays-asks waiting wrote wrote-Stays
      ∙ some_asks-SameProfiles (api_state_for cluster_url (start messages)).1 waiting messages
          (λ u. refl)
      ∙ start_asks messages messages
      ∙ none_come

  -- The state of clusters in it.
  wrote_state :
      (a : ApiState) × (wrote.api_state cluster_url ≡ some a)
      × (a.watches ≡ [])
      × (a.pauses ≡ 0)
      × (a.subscribed ≡ true)
      × (a.request.type_url ≡ cluster_url)
  unfolding set_channel new_client clear_nonce api_state_for fill_node
  wrote_state = (_, refl, refl, refl, refl, refl)

  wrote_lists :
      (types wrote ≡ cluster_url ∷ [])
      × (wrote.subscriptions ≡ cluster_url ∷ cluster_url ∷ [])
      × (wrote.request_queue ≡ some (cluster_url ∷ []))
      × (wrote.shut_down ≡ false)
  unfolding set_channel new_client clear_nonce api_state_for fill_node
  wrote_lists = (refl, refl, refl, refl)

  first_served :
      (g : ℕ)
      → 4 * length messages + 4 ≤ suc (suc g)
      → (d : AdsClient) × (queue_discovery_request
            (drain_requests (suc (suc g)))
            cluster_url
            (start messages)
          ≡ ok d)
        × IsSilent d
        × IsResumed d cluster_url
        × (types d ≡ cluster_url ∷ [])
        × (d.subscriptions ≡ cluster_url ∷ cluster_url ∷ [])
  unfolding set_channel new_client clear_nonce api_state_for watched
  first_served g fuel =
      let (e, run, done, subs, states) =
        read_responses_quiet (suc g) wrote wrote-Stays.ready wrote_lists.3 wrote_quiet
          (omega (arith, fuel)) in
      let (a, ha, w, p, s, o) = wrote_state in
      let (b, hb, lasts) = states cluster_url a ha in
      let queue = (done.quiet wrote_quiet).0 ∙ wrote_lists.2 in
      (
        record e { request_queue = some [] },
        entered-queue cluster_url (start messages) (suc (suc g)) (start-Ready messages) refl
            ∙ drain_single g cluster_url waiting wrote e refl refl sending run queue,
        record {
          stream = done.ready.stream.0;
          found = done.ready.stream.1;
          nothing = sym (inbound-eq done.ready.stream.0 e done.ready.stream.1) ∙ done.none_left;
          queue = refl;
          open_still = done.open_still;
        },
        record {
          state = b;
          names = [];
          found = hb;
          subscribed = (lasts.2 s).0;
          unpaused = ap (λ k. ltb 0 k) (lasts.1 ∙ p);
          own_type = (lasts.2 s).1 ∙ o;
          live = ap (watched e.heap) (lasts.0 ∙ w);
        },
        ap (λ (rs : List DiscoveryRequest). map (λ (x : DiscoveryRequest). x.type_url) rs)
              (done.quiet wrote_quiet).1
            ∙ wrote_lists.0,
        subs ∙ wrote_lists.1,
      )

  -- The rest of `main` after the first request.
  shutdown_silent :
      (c : AdsClient) (s : IsSilent c)
      → s.stream.writes_done ≡ false
      → shutdown c
        ≡ ok (record c { stream = some (record s.stream { writes_done = true }); shut_down = true })
  unfolding shutdown end_stream
  shutdown_silent c s e = ground (arith, s.found, e)

  second_served :
      (g : ℕ)
      → 4 * length messages + 4 ≤ suc (suc g)
      → (d : AdsClient) × (request_subscriptions (suc (suc (suc g))) 0 (start messages) ≡ ok d)
        × IsSilent d
        × (types d ≡ cluster_url ∷ cluster_url ∷ [])
  unfolding set_channel new_client clear_nonce
  second_served g fuel =
      let (c, run, silent, resumed, wrote_one, subs) = first_served g fuel in
      let (d, ran, wrote_two, asked, same, quiet) =
        request_resumes (cluster_url ∷ []) (suc (suc g)) 1 c silent (resumed, tt)
          (λ k.
            ap (λ l. get_elem? l (k + 1)) subs
            ∙ ap (get_elem? (cluster_url ∷ cluster_url ∷ [])) {y = suc k} (omega arith))
          (omega (arith, fuel)) in
      (
        d,
        request_more (suc (suc g)) 0 cluster_url (start messages) refl
            ∙ ap (λ x. x >>= λ c1. request_subscriptions (suc (suc g)) 1 c1) run
            ∙ ran,
        quiet,
        wrote_two ∙ ap (λ l. l ++ cluster_url ∷ []) wrote_one,
      )

-- When no message that the server sends has a cluster, and for fuel of at least four times the
-- number of messages plus six, `main` returns: it has asked for clusters twice and for nothing else,
-- has read every message, and the client is shut down with its stream half-closed.
pub main_returns :
    (f : ℕ) (messages : List DiscoveryResponse)
    → has_clusters messages ≡ false
    → 4 * length messages + 6 ≤ f
    → (d : AdsClient) × (main f (some messages) ≡ ok d)
      × (types d ≡ cluster_url ∷ cluster_url ∷ [])
      × (inbound d ≡ [])
      × (d.shut_down ≡ true)
      × ((st : Stream) × (d.stream ≡ some st) × (st.writes_done ≡ true))
unfolding main on_stream_established
main_returns zero messages h fuel = absurd (omega arith)
main_returns (suc zero) messages h fuel = absurd (omega arith)
main_returns (suc (suc zero)) messages h fuel = absurd (omega arith)
main_returns (suc (suc (suc g))) messages h fuel =
    let (d, run, silent, wrote) = second_served messages h g (omega (arith, fuel)) in
    let unended =
      ap stream_ended (sym silent.found)
      ∙ Reach-ended (start messages) d
          (request_subscriptions-Reach (suc (suc (suc g))) 0 (start messages) d run)
      ∙ ap stream_ended (opened_stream messages (set_channel (new_client false))) in
    (
      _,
      ap (λ x. x >>= shutdown) run ∙ shutdown_silent messages h d silent unended,
      ap (λ (o : Option Stream). map (λ (x : DiscoveryRequest). x.type_url) (stream_written o))
            (sym silent.found)
          ∙ wrote,
      silent.nothing,
      refl,
      (_, refl, refl),
    )
