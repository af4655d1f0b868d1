-- ===== src/Client/Chatting.antt =====
-- AdsClient.h: what `AggregatedDiscoveryService` writes and returns.
use xds_client.Base.{
  Bool, true, false, ◌||◌, not, some, List, [], ◌∷◌, ◌++◌, ◌≡◌, refl, sym, ap, ◌∙◌, ok, arith,
}
use xds_client.Wire.{DiscoveryRequest, DiscoveryResponse, Stream}
use xds_client.Client.Chat.{
  Chat, write_chat, opening, continue_chat, take_message, read_chat, aggregated_discovery_service,
}
use xds_client.Client.Loop.{is_empty}

-- The request that names what a message brought.
abbrev pub answered : DiscoveryRequest → DiscoveryResponse → DiscoveryRequest
answered r p = record r { version_info = p.version_info; response_nonce = p.nonce }

abbrev pub answers : DiscoveryRequest → List DiscoveryResponse → List DiscoveryRequest
answers r [] = []
answers r (p ∷ ps) = answered r p ∷ answers r ps

-- One turn of the loop.
step-eq-ok :
    (c : Chat) (st : Stream) (p : DiscoveryResponse) (ps : List DiscoveryResponse)
    → c.stream ≡ some st
    → continue_chat (take_message p ps c)
      ≡ ok (record c {
        version_info = p.version_info;
        nonce = p.nonce;
        request = answered c.request p;
        is_ok = true;
        stream =
            some (record st { inbound = ps; written = st.written ++ answered c.request p ∷ [] });
      })
unfolding continue_chat write_chat
step-eq-ok c st p ps e = ground (arith, e)

snoc_answers :
    (out : List DiscoveryRequest) (r : DiscoveryRequest) (rs : List DiscoveryRequest)
    → (out ++ r ∷ []) ++ rs ≡ out ++ r ∷ rs
snoc_answers [] r rs = refl
snoc_answers (q ∷ out) r rs = ap (λ l. q ∷ l) (snoc_answers out r rs)

no_answers : (out : List DiscoveryRequest) → out ≡ out ++ []
no_answers [] = refl
no_answers (q ∷ out) = ap (λ l. q ∷ l) (no_answers out)

answers_again :
    (r : DiscoveryRequest) (p : DiscoveryResponse) (ps : List DiscoveryResponse)
    → answers (answered r p) ps ≡ answers r ps
answers_again r p [] = refl
answers_again r p (q ∷ ps) = ap (λ l. answered r q ∷ l) (answers_again r p ps)

stream_end :
    (st : Stream)
    → st.inbound ≡ []
    → some st ≡ some (record st { inbound = []; written = st.written ++ [] })
stream_end st i =
    ap (λ l. some (record st { inbound = l })) i
    ∙ ap (λ l. some (record st { inbound = []; written = l })) (no_answers st.written)

or_false : (b : Bool) → b || false ≡ b
or_false true = refl
or_false false = refl

or_true : (b : Bool) → b || true ≡ true
or_true true = refl
or_true false = refl

-- The loop ends, with each message answered.
read_chat-ok :
    (ps : List DiscoveryResponse) (c : Chat) (st : Stream)
    → c.stream ≡ some st
    → st.inbound ≡ ps
    → (d : Chat) × (read_chat ps c ≡ ok d)
      × (d.stream ≡ some (record st { inbound = []; written = st.written ++ answers c.request ps }))
      × (d.is_ok ≡ c.is_ok || not (is_empty ps))
unfolding read_chat
read_chat-ok [] c st e i = (c, refl, e ∙ stream_end st i, sym (or_false c.is_ok))
read_chat-ok (p ∷ ps) c st e i =
    let st' : Stream = record st {
      inbound = ps;
      written = st.written ++ answered c.request p ∷ [];
    } in
    let c' : Chat = record c {
      version_info = p.version_info;
      nonce = p.nonce;
      request = answered c.request p;
      is_ok = true;
      stream = some st';
    } in
    let (d, run, wrote, good) = read_chat-ok ps c' st' refl refl in
    (
      d,
      rw (step-eq-ok c st p ps e) run,
      wrote
          ∙ ap (λ l. some (record st { inbound = []; written = l }))
              (snoc_answers st.written _ _
                ∙ ap (λ l. st.written ++ answered c.request p ∷ l) (answers_again c.request p ps)),
      good ∙ sym (or_true c.is_ok),
    )

-- On a stream, `AggregatedDiscoveryService` returns once the server has ended it; it has written its
-- first request, and for each message the same request with the version and the nonce of that
-- message; it returns true just when a message came, or an earlier call had returned true.
pub aggregated_discovery_service-answers :
    (c : Chat) (st : Stream)
    → c.stream ≡ some st
    → (d : Chat) × (aggregated_discovery_service c ≡ ok (c.is_ok || not (is_empty st.inbound), d))
      × (d.stream
          ≡ some (record st {
            inbound = [];
            written = st.written ++ opening c.request ∷ answers (opening c.request) st.inbound;
          }))
unfolding aggregated_discovery_service write_chat
aggregated_discovery_service-answers c st e =
    let r = opening c.request in
    let st' : Stream = record st { written = st.written ++ r ∷ [] } in
    let (d, run, wrote, good) =
      read_chat-ok st.inbound (record c { request = r; stream = some st' }) st' refl refl in
    (
      d,
      ground (arith, e, run, good),
      wrote
          ∙ ap (λ l. some (record st { inbound = []; written = l })) (snoc_answers st.written _ _),
    )
