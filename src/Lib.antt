-- ===== src/Lib.antt =====
-- The xDS client of this repository: four clients that subscribe to the resources of a control
-- plane over a stream of the aggregated discovery service, and the state that they keep.
--
-- The client, src/ads_protocol_client/AdsClient.h, AdsClient.cpp, Watcher.h and main.cpp.
-- Client/State.antt has `AdsClient`, `ApiState` and `Watcher` as records, `apiStateFor`
-- (api_state_for) and `clearNonce` (clear_nonce). Client/Requests.antt has
-- `queueDiscoveryRequest`, `drainRequests`, `sendDiscoveryRequest` and `onDiscoveryResponse`,
-- which call one another: the drain sends a request, the send reads and handles answers, and an
-- answer can queue a request and drain again. Client/Streams.antt has `onStreamEstablished`,
-- `endStream`, `shutdown` and `main`. Client/Watches.antt has the constructor, the destructor
-- and `update` of `Watcher`, and `addWatch`. Proofs about the loop of requests and answers are
-- under Client/Loop. Client/Steps.antt describes a run as a sequence of steps on the client (a
-- state allocated, a type queued, a request sent, an answer noted), and the files under
-- Client/Steps show that the code takes only such steps and draw invariants from that.
-- Client/Content.antt is about the content of a request, Client/Watching.antt,
-- Client/Added.antt, Client/Unwatching.antt and Client/Returning.antt about watches that are
-- made, changed and destroyed (Client/Liveness.antt has what these share), Client/Answers.antt
-- about answers that ask for nothing, Client/Lasting.antt and Client/Asking.antt about what then
-- lasts and which requests go out, Client/Released.antt about the end of a watch,
-- Client/Silent.antt and Client/Resuming.antt about a client that has subscriptions when its
-- stream is made, Client/Shutdown.antt, Client/Program.antt and Client/Serving.antt about the
-- ends of a client and of main. Concrete runs are in Client/Examples.antt, Client/Watched.antt
-- and Client/Resumed.antt.
--
-- Client/Sessions.antt takes the client as its users see it: `Call` is a call of one of its
-- public operations (all but apiStateFor, AggregatedDiscoveryService and continueChat),
-- `perform` runs one, `perform_all` a sequence of them, and `IsSound` is what is to hold between
-- two calls. Under Client/Sessions, Lists.antt, Memory.antt, Added.antt and Watches.antt are
-- about the lists of watches and the memory, Loops.antt and Idle.antt about the loop of requests
-- and answers, Calls.antt about a session as a whole, Requests.antt, Erasing.antt and
-- Safety.antt about how a call ends, Names.antt, Wire.antt, Written.antt and Requested.antt
-- about what it writes, Told.antt, Follows.antt, Resent.antt and Telling.antt about what a
-- stream has been told when a call returns, and Effects.antt and Refined.antt about the client
-- as a table of watches; Examples.antt is a session. The calls of a session have one fuel, and a
-- call that is asked to end has at least four times the number of messages that may come during
-- the call, plus the number of subscriptions, plus six: the loop over the subscriptions appends
-- at most one.
--
-- The link to Istio, src/ads_protocol_client/anylink. Anylink/Local.antt has `LocalInfo`,
-- Anylink/Address.antt `getLocalAddress`, Anylink/Subscriptions.antt the four classes of
-- `Subscription`, Anylink/Manager.antt `AdsManager` (`addSubscription`, `initSubscribe`,
-- `receiveADS`, `sendACK`, `sendNACK`, `startClient`), Anylink/Link.antt `IstioLinkManager`, and
-- Anylink/Loggers.antt the static loggers of these classes; Anylink/Statics.antt puts the two
-- sides of `init` together, the instance and the loggers. Proofs are in Anylink/Exchange.antt
-- (one call), Anylink/Registry.antt (which subscription answers for which type),
-- Anylink/Statics.antt and Anylink/Identity.antt and Anylink/Hosts.antt (the id of a node);
-- concrete runs in Anylink/Examples.antt.
--
-- Wire.antt has the protocol's messages with the fields that the code touches, and the stream.
-- Base.antt has what the parts share: tests, maps as functions, lists of names, and `Outcome`,
-- the result of a call: a value, undefined behaviour of the C++ code (a null pointer, a dangling
-- pointer, the pop of an empty queue, a second use of a gRPC context, a second end of a stream),
-- or a bound on the recursion chosen too small.
--
-- The stream of gRPC is not code of the repository. It is given as the list of the messages that
-- the server will still send, which is arbitrary: a read takes the next one and fails when there
-- are none. A write is recorded, and always succeeds; the code only logs whether it did. gRPC
-- documents that a context serves one call and that a stream is ended once: the client's
-- `context_used` and the stream's `writes_done` tell when that is over. Pointers to watches are
-- numbers, and the client's `heap` tells what they point to. `std::set` is the list of its
-- elements in their order. In the client, the fuel bounds how deep the calls nest; twice the
-- backlog plus four is enough, where the backlog is the number of requests that wait plus twice
-- that of the messages still to come, as every answer is read once and queues at most one
-- request.
--
-- Client/Chat.antt has `AggregatedDiscoveryService` and `continueChat` of the same client, which
-- talk on the stream by themselves, and Client/Chatting.antt the proofs.
--
-- The reactor client, src/asnyc_ads/AsyncAdsClient.cpp, is in Reactor.antt: the handlers of
-- `Chatter` are functions, and the gRPC runtime is a step relation, in which a handler runs when
-- its operation is under way and `OnDone` when none is. Proofs are in Reactor/Ends.antt, a run
-- in Reactor/Examples.antt. The threaded client, src/ads/AdsClient.h, is in Threads.antt: the
-- steps of its two threads, in every order. Proofs are in Threads/Ends.antt, a run in
-- Threads/Examples.antt.
--
-- Config.antt has `build_struct`, `node` and `construct_initial_request` of
-- src/ads_protocol_client/Config.h, with the proofs in Config/Fields.antt and a run in
-- Config/Examples.antt.
--
-- The decoding of resources, DecodedResource.h, OpaqueResourceDecoder.h and ResourceName.h of
-- src/ads_protocol_client, is in Decoding.antt (`fromResource` is from_resource, the
-- constructors of `DecodedResource` are new_decoded, of_resource, of_inline_entry and
-- of_message), with the proofs in Decoding/Laws.antt. What the code calls of protobuf there, the
-- test and the parse of a wrapper and the parse of a message class, are parameters.
--
-- The loading of descriptors, src/ads_protocol_client/protofile, is in Protofile.antt
-- (`loadFileDescriptors`) and Protofile/Transcoder.antt (`TextFormatTranscoder` and
-- `createDynamicMessage`). The descriptor pool of protobuf is a parameter, with what protobuf
-- documents of it as hypotheses; a program's descriptors are finite trees, so the code's
-- recursion ends. Proofs are in Protofile/Loading.antt and Protofile/Unloaded.antt.
--
-- Known.antt has `State` of src/ads_protocol_client/State.h, Anylink/Worker.antt the thread of
-- AdsConnection.cpp, with as many rounds of its endless loop as the fuel says, and
-- Greetings.antt the example of schema/greetings_client.h and greetings_server.h; their proofs
-- are in Known/Laws.antt, Anylink/Spinning.antt and Greetings/Exchange.antt. Base/Sets.antt is
-- about the order of the sets of names that watches and `State` keep.
--
-- Not modelled: the logging and printing, but for what the greetings print; unpackToOrThrow of
-- AdsClient.h, which only prints; proto_descriptors.cc, whose tests are commented out;
-- `AdsConnection`, whose methods have no body; ResourceDecoder.h, which nothing includes; the
-- set-up of channels, servers and threads, which is gRPC; and the third-party protocol
-- definitions that the code does not touch.
pub mod Base
pub mod Wire
pub mod Client
pub mod Anylink
pub mod Reactor
pub mod Threads
pub mod Config
pub mod Known
pub mod Decoding
pub mod Protofile
pub mod Greetings
