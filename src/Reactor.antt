-- ===== src/Reactor.antt =====
-- src/asnyc_ads/AsyncAdsClient.cpp: the reactor `Chatter`. Its handlers are functions; what calls
-- them, the gRPC runtime, is a step relation: a handler runs when its operation is under way.
pub mod Ends
pub mod Examples
use xds_client.Base.{Bool, true, false, List, [], ◌∷◌, ◌++◌, ℕ, suc, ◌≡◌, if◌then◌else◌, some}
use xds_client.Wire.{DiscoveryRequest, DiscoveryResponse, Node, default_request, default_node}
use xds_client.Client.State.{cluster_url}

-- `remaining` is what `requests_iterator_` has before it. `written` lists what `StartWrite` was
-- called with, `closed` counts the calls of `StartWritesDone`, `heard` lists what was read; `writing`
-- and `reading` tell if an operation is under way. `status` is only set with `done`.
pub record Chatter : Type 0 where
  pub remaining : List DiscoveryRequest
  pub written : List DiscoveryRequest
  pub closed : ℕ
  pub heard : List DiscoveryResponse
  pub writing : Bool
  pub reading : Bool
  pub done : Bool
  pub status : Bool

abbrev pub first_request : DiscoveryRequest
first_request = record default_request {
  node = some (record default_node { cluster = "test-cluster"; id = "test-id" });
  type_url = cluster_url;
}

-- `NextWrite`.
unfoldable pub next_write : Chatter → Chatter
next_write c = elim c.remaining [
  | [] ↦ record c { closed = suc c.closed }
  | r ∷ rest ↦ record c { remaining = rest; written = c.written ++ r ∷ []; writing = true }
]

-- The constructor, for the list `requests`.
unfoldable pub new_chatter : List DiscoveryRequest → Chatter
unfolding next_write
new_chatter requests =
    let c = next_write (record {
      remaining = requests;
      written = [];
      closed = 0;
      heard = [];
      writing = false;
      reading = false;
      done = false;
      status = true;
    }) in
    record c { reading = true }

-- `OnWriteDone` does not look at the success of the write.
unfoldable pub on_write_done : Bool → Chatter → Chatter
unfolding next_write
on_write_done success c = next_write (record c { writing = false })

-- `OnReadDone`, with the message that is in `response_` if the read succeeded.
unfoldable pub on_read_done : Bool → DiscoveryResponse → Chatter → Chatter
on_read_done success p c =
    if success then record c { heard = c.heard ++ p ∷ [] } else (record c { reading = false })

unfoldable pub on_done : Bool → Chatter → Chatter
on_done s c = record c { status = s; done = true }

-- What the runtime calls: `OnDone` last, when no operation is under way.
pub data Step : Chatter → Chatter → Type 0 where
  write_done : (success : Bool) (c : Chatter) → c.writing ≡ true → Step c (on_write_done success c)
  read_done :
      (success : Bool) (p : DiscoveryResponse) (c : Chatter)
      → c.reading ≡ true
      → Step c (on_read_done success p c)
  finished :
      (s : Bool) (c : Chatter)
      → c.writing ≡ false
      → c.reading ≡ false
      → c.done ≡ false
      → Step c (on_done s c)

pub data Run : Chatter → Chatter → Type 0 where
  stop : {c : Chatter} → Run c c
  step : {b c d : Chatter} → Run b c → Step c d → Run b d
