-- ===== src/Threads.antt =====
-- src/ads/AdsClient.h: one thread writes, the other reads, on the same stream.
pub mod Ends
pub mod Examples
use xds_client.Base.{Bool, true, false, List, [], ◌∷◌, ◌++◌, ◌≡◌, some}
use xds_client.Wire.{DiscoveryRequest, DiscoveryResponse, Stream, default_request, default_node}
use xds_client.Client.State.{cluster_url}

-- Where the thread `writer` stands: before `Write`, before `WritesDone`, and at its end.
pub data Writer : Type 0 where
  to_write to_close ended : Writer

-- Where the caller stands: in the loop over `Read`, before `writer.join()`, and behind `Finish`.
pub data Reader : Type 0 where
  to_read to_join returned : Reader

-- `heard` lists what was read, and printed.
pub record Threads : Type 0 where
  pub writer : Writer
  pub reader : Reader
  pub stream : Stream
  pub heard : List DiscoveryResponse

abbrev pub discovery_request : DiscoveryRequest
discovery_request = record default_request {
  node = some (record default_node { cluster = "test-cluster"; id = "test-id" });
  type_url = cluster_url;
}

-- When the thread has been made, on a stream that will bring `inbound`.
unfoldable pub start_threads : List DiscoveryResponse → Threads
start_threads inbound = record {
  writer = Writer.to_write;
  reader = Reader.to_read;
  stream = record { inbound = inbound; written = []; writes_done = false };
  heard = [];
}

unfoldable pub write_step : Threads → Threads
write_step c = record c {
  writer = Writer.to_close;
  stream = record c.stream { written = c.stream.written ++ discovery_request ∷ [] };
}

unfoldable pub close_step : Threads → Threads
close_step c = record c { writer = Writer.ended; stream = record c.stream { writes_done = true } }

-- `Read` with a message, and without.
unfoldable pub read_step : DiscoveryResponse → List DiscoveryResponse → Threads → Threads
read_step p rest c = record c {
  stream = record c.stream { inbound = rest };
  heard = c.heard ++ p ∷ [];
}

unfoldable pub end_step : Threads → Threads
end_step c = record c { reader = Reader.to_join }

unfoldable pub join_step : Threads → Threads
join_step c = record c { reader = Reader.returned }

-- What either thread can do next. A message may come before anything was written, and `join` waits
-- for the writer's end.
pub data Turn : Threads → Threads → Type 0 where
  writes : (c : Threads) → c.writer ≡ Writer.to_write → Turn c (write_step c)
  closes : (c : Threads) → c.writer ≡ Writer.to_close → Turn c (close_step c)
  reads :
      (p : DiscoveryResponse) (rest : List DiscoveryResponse) (c : Threads)
      → c.reader ≡ Reader.to_read
      → c.stream.inbound ≡ p ∷ rest
      → Turn c (read_step p rest c)
  ends : (c : Threads) → c.reader ≡ Reader.to_read → c.stream.inbound ≡ [] → Turn c (end_step c)
  joins : (c : Threads) → c.reader ≡ Reader.to_join → c.writer ≡ Writer.ended → Turn c (join_step c)

pub data Turns : Threads → Threads → Type 0 where
  none_yet : {c : Threads} → Turns c c
  and_then : {b c d : Threads} → Turns b c → Turn c d → Turns b d
