-- ===== src/Client/Answers.antt =====
-- The loop of `sendDiscoveryRequest` of AdsClient.cpp when no answer makes the client write again.

use xds_client.Base.{
  ℕ, ◌+◌, ◌*◌, ◌≤◌, String, true, false, some, List, ◌≡◌, refl, ap, ◌∙◌, length, Outcome, ok, fault,
  out_of_fuel, Ends, arith,
}
use xds_client.Wire.{DiscoveryResponse, Stream}
use xds_client.Client.State.{AdsClient, ApiState}
use xds_client.Client.Requests.{fill_node, read_responses}
use xds_client.Client.Loop.{Ready, inbound, written, backlog, some_asks, stream_written}
use xds_client.Client.Loop.Send.{wrote_one}
use xds_client.Client.Loop.Drain.{Fails, IsRead}
use xds_client.Client.Loop.Read.{arrived}
use xds_client.Client.Loop.Ends.{loop_ends}
use xds_client.Client.Loop.Entry.{api_state_for-rest}
use xds_client.Client.Steps.{
  Step, Reach, Reach-keeps, allocate, pend, push, pop, send, ignore, note, settle,
}
use xds_client.Client.Steps.Drains.{read_responses-Reach}
use xds_client.Client.Steps.States.{IsStable, Changes-found, Reach-Changes, after_write}

-- The watches and the pauses are the same, and a subscription lasts, with the type of its request.
abbrev pub Lasts : ApiState → ApiState → Type 0
Lasts a b =
    (b.watches ≡ a.watches)
    × (b.pauses ≡ a.pauses)
    × (a.subscribed ≡ true → (b.subscribed ≡ true) × (b.request.type_url ≡ a.request.type_url))

Lasts-write :
    (t : String) (a : ApiState) (names : List String) (c : AdsClient)
    → Lasts a (after_write t a names c)
unfolding fill_node
Lasts-write t a names c = (ground arith, ground arith, λ h. (ground (arith, h), ground (arith, h)))

pub Lasts-IsStable : IsStable Lasts
Lasts-IsStable = record {
  same = λ a. (refl, refl, λ h. (h, refl));
  then =
      λ a b c h k. (k.0 ∙ h.0, k.1 ∙ h.1, λ s. ((k.2 (h.2 s).0).0, (k.2 (h.2 s).0).1 ∙ (h.2 s).1));
  pends = λ a. (refl, refl, λ h. (h, refl));
  writes = Lasts-write;
  notes = λ m a. (refl, refl, λ h. (h, refl));
  settles = λ m a w. (refl, refl, λ h. (h, refl));
}

-- While no more requests are written than `n`, the subscriptions are `ts`.
record Bounded (n : ℕ) (ts : List String) (c : AdsClient) : Type 0 where
  least : n ≤ length (written c)
  fixed : length (written c) ≡ n → c.subscriptions ≡ ts

arrived-Bounded :
    (n : ℕ) (ts : List String) (st : Stream) (rest : List DiscoveryResponse) (c : AdsClient)
    → c.stream ≡ some st
    → Bounded n ts c
    → Bounded n ts (arrived st rest c)
arrived-Bounded n ts st rest c hs h =
    let same = ap length (ap stream_written hs) in
    record { least = omega (arith, h.least, same); fixed = λ e. h.fixed (same ∙ e) }

Step-Bounded :
    (n : ℕ) (ts : List String) (c d : AdsClient) → Step c d → Bounded n ts c → Bounded n ts d
Step-Bounded n ts _ _ (allocate t c) h =
    rw api_state_for-rest (record { least = h.least; fixed = h.fixed })
Step-Bounded n ts _ _ (pend t a c ha p) h = record { least = h.least; fixed = h.fixed }
Step-Bounded n ts _ _ (push t q c e) h = record { least = h.least; fixed = h.fixed }
Step-Bounded n ts _ _ (pop t q c e) h = record { least = h.least; fixed = h.fixed }
Step-Bounded n ts _ _ (send t a names st c s hs ha hn) h =
    let more = wrote_one t a names st c hs in
    record {
      least = omega (arith, h.least, more);
      fixed = λ e. absurd (omega (arith, h.least, more, e));
    }
Step-Bounded n ts _ _ (ignore st m rest c hs hi) h = arrived-Bounded n ts st rest c hs h
Step-Bounded n ts _ _ (note st m rest a c hs hi ha) h =
    let k = arrived-Bounded n ts st rest c hs h in record { least = k.least; fixed = k.fixed }
Step-Bounded n ts _ _ (settle st m rest a c hs hi ha w e) h =
    let k = arrived-Bounded n ts st rest c hs h in record { least = k.least; fixed = k.fixed }

-- The reading returns, with the subscriptions as they were and every state lasting.
pub read_responses_quiet :
    (f : ℕ) (c : AdsClient)
    → Ready c
    → c.shut_down ≡ false
    → some_asks c (inbound c) ≡ false
    → 2 * backlog c + 1 ≤ f
    → (d : AdsClient) × (read_responses f c ≡ ok d)
      × IsRead c d
      × (d.subscriptions ≡ c.subscriptions)
      × ((u : String) (a : ApiState)
          → c.api_state u ≡ some a
          → (b : ApiState) × (d.api_state u ≡ some b) × Lasts a b)
read_responses_quiet f c r s quiet fuel =
    returned (read_responses f c) ((loop_ends f).1 c r s fuel) (read_responses-Reach f c)
  where
    returned :
        (m : Outcome AdsClient)
        → Ends (Fails c) (IsRead c) m
        → ((d : AdsClient) → m ≡ ok d → Reach c d)
        → (d : AdsClient) × (m ≡ ok d)
          × IsRead c d
          × (d.subscriptions ≡ c.subscriptions)
          × ((u : String) (a : ApiState)
              → c.api_state u ≡ some a
              → (b : ApiState) × (d.api_state u ≡ some b) × Lasts a b)
    returned (ok d) done reach =
        let bound =
          Reach-keeps (Bounded (length (written c)) c.subscriptions)
            (Step-Bounded (length (written c)) c.subscriptions) c (reach d refl)
            (record { least = omega arith; fixed = λ _. refl }) in
        (
          d,
          refl,
          done,
          bound.fixed (ap length (done.quiet quiet).1),
          λ u a ha.
              Changes-found Lasts (c.api_state u) (d.api_state u) a ha
                (Reach-Changes Lasts Lasts-IsStable c (reach d refl) u),
        )
    returned (fault e) done reach = absurd (cc (done.1, quiet))
    returned out_of_fuel done reach = absurd done
