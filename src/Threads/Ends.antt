-- ===== src/Threads/Ends.antt =====
-- src/ads/AdsClient.h: every interleaving of the two threads ends alike.
use mathlib.Core.Path.{subst}
use xds_client.Base.{Bool, true, false, List, [], ◌∷◌, ◌++◌, ◌≡◌, refl, sym, ap, ◌∙◌, arith}
use xds_client.Wire.{DiscoveryRequest, DiscoveryResponse}
use xds_client.Threads.{
  Writer, Reader, Threads, discovery_request, start_threads, write_step, close_step, read_step,
  end_step, join_step, Turn, writes, closes, reads, ends, joins, Turns, none_yet, and_then,
}

-- What the stream carries, by where the writer stands.
abbrev Carries : Writer → List DiscoveryRequest → Bool → Type 0
Carries Writer.to_write out b = (out ≡ []) × (b ≡ false)
Carries Writer.to_close out b = (out ≡ discovery_request ∷ []) × (b ≡ false)
Carries Writer.ended out b = (out ≡ discovery_request ∷ []) × (b ≡ true)

-- What is left to come and to wait for, by where the reader stands.
abbrev Leaves : Reader → List DiscoveryResponse → Writer → Type 0
Leaves Reader.to_read ps w = Unit
Leaves Reader.to_join ps w = ps ≡ []
Leaves Reader.returned ps w = (ps ≡ []) × (w ≡ Writer.ended)

record Shared (ps : List DiscoveryResponse) (c : Threads) : Type 0 where
  carries : Carries c.writer c.stream.written c.stream.writes_done
  leaves : Leaves c.reader c.stream.inbound c.writer
  hears : c.heard ++ c.stream.inbound ≡ ps

snoc-append :
    (xs : List DiscoveryResponse) (x : DiscoveryResponse) (ys : List DiscoveryResponse)
    → (xs ++ x ∷ []) ++ ys ≡ xs ++ x ∷ ys
snoc-append [] x ys = refl
snoc-append (z ∷ xs) x ys = ap (λ l. z ∷ l) (snoc-append xs x ys)

append_end : (xs : List DiscoveryResponse) → xs ≡ xs ++ []
append_end [] = refl
append_end (x ∷ xs) = ap (λ l. x ∷ l) (append_end xs)

-- The writer's steps leave the reader's view as it is, since it has not returned.
unended :
    (r : Reader) (ps : List DiscoveryResponse) (w v : Writer)
    → (w ≡ Writer.ended → ⊥)
    → Leaves r ps w
    → Leaves r ps v
unended Reader.to_read ps w v n h = tt
unended Reader.to_join ps w v n h = h
unended Reader.returned ps w v n h = absurd (n h.1)

Turn-Shared : (ps : List DiscoveryResponse) (c d : Threads) → Turn c d → Shared ps c → Shared ps d
unfolding write_step close_step read_step end_step join_step
Turn-Shared ps _ _ (writes c e) h =
    let now = subst (λ w. Carries w c.stream.written c.stream.writes_done) e h.carries in
    record {
      carries = (ap (λ l. l ++ discovery_request ∷ []) now.0, now.1);
      leaves = unended c.reader _ c.writer Writer.to_close (λ k. ground (arith, e, k)) h.leaves;
      hears = h.hears;
    }
Turn-Shared ps _ _ (closes c e) h =
    let now = subst (λ w. Carries w c.stream.written c.stream.writes_done) e h.carries in
    record {
      carries = (now.0, refl);
      leaves = unended c.reader _ c.writer Writer.ended (λ k. ground (arith, e, k)) h.leaves;
      hears = h.hears;
    }
Turn-Shared ps _ _ (reads p rest c e i) h = record {
  carries = h.carries;
  leaves = subst (λ r. Leaves r rest c.writer) (sym e) tt;
  hears = snoc-append c.heard p rest ∙ ap (λ l. c.heard ++ l) (sym i) ∙ h.hears;
}
Turn-Shared ps _ _ (ends c e i) h = record { carries = h.carries; leaves = i; hears = h.hears }
Turn-Shared ps _ _ (joins c e w) h = record {
  carries = h.carries;
  leaves = (subst (λ r. Leaves r c.stream.inbound c.writer) e h.leaves, w);
  hears = h.hears;
}

Turns-Shared :
    (ps : List DiscoveryResponse) (b : Threads) {c : Threads}
    → Turns b c
    → Shared ps b
    → Shared ps c
Turns-Shared ps b none_yet h = h
Turns-Shared ps b (and_then r t) h = Turn-Shared ps _ _ t (Turns-Shared ps b r h)

-- Whatever the order of the two threads' steps, when `AggregatedDiscoveryService` has returned, its
-- one request was written, the stream was half-closed, and every message that the server sent was
-- read, in order.
pub Turns-returned :
    (ps : List DiscoveryResponse) (c : Threads)
    → Turns (start_threads ps) c
    → c.reader ≡ Reader.returned
    → (c.stream.written ≡ discovery_request ∷ []) × (c.stream.writes_done ≡ true) × (c.heard ≡ ps)
unfolding start_threads
Turns-returned ps c run e =
    let h =
      Turns-Shared ps (start_threads ps) run
        (record { carries = (refl, refl); leaves = tt; hears = refl }) in
    let left = subst (λ r. Leaves r c.stream.inbound c.writer) e h.leaves in
    let done = subst (λ w. Carries w c.stream.written c.stream.writes_done) left.1 h.carries in
    (done.0, done.1, append_end c.heard ∙ ap (λ l. c.heard ++ l) (sym left.0) ∙ h.hears)
