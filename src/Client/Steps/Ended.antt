-- ===== src/Client/Steps/Ended.antt =====
-- AdsClient.cpp: the loop of requests and answers ends no stream.
use xds_client.Base.{Bool, false, Option, none, some, ◌≡◌, refl, sym, ap, ◌∙◌}
use xds_client.Wire.{Stream}
use xds_client.Client.State.{AdsClient}
use xds_client.Client.Loop.Entry.{api_state_for-rest}
use xds_client.Client.Steps.{
  Step, allocate, pend, push, pop, send, ignore, note, settle, Reach, Reach-keeps,
}

abbrev pub stream_ended : Option Stream → Bool
stream_ended none = false
stream_ended (some st) = st.writes_done

Step-ended : {c d : AdsClient} → Step c d → stream_ended d.stream ≡ stream_ended c.stream
Step-ended (allocate t c) = ap (λ (x : AdsClient). stream_ended x.stream) (api_state_for-rest t c)
Step-ended (pend t a c ha p) = refl
Step-ended (push t q c e) = refl
Step-ended (pop t q c e) = refl
Step-ended (send t a names st c s hs ha hn) = ap stream_ended (sym hs)
Step-ended (ignore st m rest c hs hi) = ap stream_ended (sym hs)
Step-ended (note st m rest a c hs hi ha) = ap stream_ended (sym hs)
Step-ended (settle st m rest a c hs hi ha w e) = ap stream_ended (sym hs)

pub Reach-ended : (c d : AdsClient) → Reach c d → stream_ended d.stream ≡ stream_ended c.stream
Reach-ended c d reached =
    Reach-keeps (λ x. stream_ended x.stream ≡ stream_ended c.stream) (λ x y s k. Step-ended s ∙ k) c
      reached refl
