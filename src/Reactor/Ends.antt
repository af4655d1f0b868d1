-- ===== src/Reactor/Ends.antt =====
-- src/asnyc_ads/AsyncAdsClient.cpp: in which order the reactor writes, and that it can always end.
use xds_client.Base.{
  true, false, List, [], ◌∷◌, ◌++◌, suc, ◌≡◌, refl, sym, ap, ◌∙◌, ◌⊎◌, inl, inr, arith, List-cases,
  Bool-cases,
}
use xds_client.Wire.{DiscoveryRequest, DiscoveryResponse}
use xds_client.Reactor.{
  Chatter, next_write, new_chatter, on_write_done, on_read_done, on_done, Step, write_done,
  read_done, finished, Run, stop, step,
}

-- A write is under way and the stream is not half-closed, or no write is and the stream has been
-- half-closed once, after all requests.
abbrev Writes : Chatter → Type 0
Writes c =
    ((c.writing ≡ true) × (c.closed ≡ 0))
    ⊎ ((c.writing ≡ false) × (c.closed ≡ 1) × (c.remaining ≡ []))

-- A reactor for the list `rs`: what was written and what remains are the list.
pub record Orderly (rs : List DiscoveryRequest) (c : Chatter) : Type 0 where
  pub order : c.written ++ c.remaining ≡ rs
  pub writes : Writes c
  pub quiet : c.done ≡ true → c.writing ≡ false

snoc-append :
    (xs ys : List DiscoveryRequest) (r : DiscoveryRequest) → (xs ++ r ∷ []) ++ ys ≡ xs ++ r ∷ ys
snoc-append [] ys r = refl
snoc-append (x ∷ xs) ys r = ap (λ l. x ∷ l) (snoc-append xs ys r)

next_write-nil :
    (c : Chatter) → c.remaining ≡ [] → next_write c ≡ record c { closed = suc c.closed }
unfolding next_write
next_write-nil c e = ground (arith, e)

next_write-cons :
    (c : Chatter) (r : DiscoveryRequest) (rest : List DiscoveryRequest)
    → c.remaining ≡ r ∷ rest
    → next_write c ≡ record c { remaining = rest; written = c.written ++ r ∷ []; writing = true }
unfolding next_write
next_write-cons c r rest e = ground (arith, e)

Orderly-next_write :
    (rs : List DiscoveryRequest) (c : Chatter)
    → c.written ++ c.remaining ≡ rs
    → c.writing ≡ false
    → c.closed ≡ 0
    → c.done ≡ false
    → Orderly rs (next_write c)
Orderly-next_write rs c h w k n = elim (List-cases c.remaining) [
  | inl e ↦ rw (next_write-nil c e) (record {
    order = h;
    writes = inr (w, ap suc k, e);
    quiet = λ d. absurd (ground (arith, n, d));
  })
  | inr (r, rest, e) ↦ rw (next_write-cons c r rest e) (record {
    order = snoc-append c.written rest r ∙ ap (λ l. c.written ++ l) (sym e) ∙ h;
    writes = inl (refl, k);
    quiet = λ d. absurd (ground (arith, n, d));
  })
]

new_chatter-Orderly : (rs : List DiscoveryRequest) → Orderly rs (new_chatter rs)
unfolding new_chatter
new_chatter-Orderly rs =
    let o = Orderly-next_write rs _ refl refl refl refl in
    record { order = o.order; writes = o.writes; quiet = o.quiet }

not_done :
    (rs : List DiscoveryRequest) (c : Chatter) → Orderly rs c → c.writing ≡ true → c.done ≡ false
not_done rs c o w = elim (Bool-cases c.done) [
  | inl d ↦ absurd (ground (arith, w, o.quiet d))
  | inr n ↦ n
]

Step-Orderly : (rs : List DiscoveryRequest) (c d : Chatter) → Step c d → Orderly rs c → Orderly rs d
unfolding on_write_done on_read_done on_done
Step-Orderly rs _ _ (write_done s c w) o = elim o.writes [
  | inl h ↦
      Orderly-next_write rs (record c { writing = false }) o.order refl h.1 (not_done rs c o w)
  | inr h ↦ absurd (ground (arith, w, h.0))
]
Step-Orderly rs _ _ (read_done true p c r) o = record {
  order = o.order;
  writes = o.writes;
  quiet = o.quiet;
}
Step-Orderly rs _ _ (read_done false p c r) o = record {
  order = o.order;
  writes = o.writes;
  quiet = o.quiet;
}
Step-Orderly rs _ _ (finished s c w r n) o = record {
  order = o.order;
  writes = o.writes;
  quiet = λ d. w;
}

Run-Orderly :
    (rs : List DiscoveryRequest) (b : Chatter) {c : Chatter} → Run b c → Orderly rs b → Orderly rs c
Run-Orderly rs b stop o = o
Run-Orderly rs b (step r s) o = Step-Orderly rs _ _ s (Run-Orderly rs b r o)

append_end : (xs : List DiscoveryRequest) → xs ≡ xs ++ []
append_end [] = refl
append_end (x ∷ xs) = ap (λ l. x ∷ l) (append_end xs)

closed_after :
    (rs : List DiscoveryRequest) (c : Chatter)
    → Orderly rs c
    → c.writing ≡ false
    → (c.written ≡ rs) × (c.closed ≡ 1)
closed_after rs c o w = elim o.writes [
  | inl h ↦ absurd (ground (arith, w, h.0))
  | inr h ↦ (append_end c.written ∙ ap (λ l. c.written ++ l) (sym h.2) ∙ o.order, h.1)
]

-- At every point of a run of the reactor, the requests that were written are the first of its list,
-- in order, and the stream is half-closed at most once, and only when none remains; and once `OnDone`
-- was called, all of them were written and the stream was half-closed once.
pub Run-orderly :
    (rs : List DiscoveryRequest) (c : Chatter)
    → Run (new_chatter rs) c
    → (c.written ++ c.remaining ≡ rs)
      × ((c.closed ≡ 0) ⊎ ((c.closed ≡ 1) × (c.remaining ≡ [])))
      × (c.done ≡ true → (c.written ≡ rs) × (c.closed ≡ 1))
Run-orderly rs c run =
    let o = Run-Orderly rs (new_chatter rs) run (new_chatter-Orderly rs) in
    (
      o.order,
      elim o.writes [ inl h ↦ inl h.1 | inr h ↦ inr (h.1, h.2) ],
      λ d. closed_after rs c o (o.quiet d),
    )

Run-trans : {b c d : Chatter} → Run b c → Run c d → Run b d
Run-trans r stop = r
Run-trans r (step s t) = step (Run-trans r s) t

-- The writes that are left come to their end.
drained :
    (rs rest : List DiscoveryRequest) (c : Chatter)
    → Orderly rs c
    → c.remaining ≡ rest
    → (d : Chatter) × Run c d × Orderly rs d × (d.writing ≡ false)
unfolding on_write_done
drained rs [] c o e = elim o.writes [
  | inr h ↦ (c, stop, o, h.0)
  | inl h ↦
      let s = write_done true c h.0 in
      (
        on_write_done true c,
        step stop s,
        Step-Orderly rs _ _ s o,
        ap (λ (x : Chatter). x.writing) (next_write-nil (record c { writing = false }) e),
      )
]
drained rs (r ∷ rest) c o e = elim o.writes [
  | inr h ↦ (c, stop, o, h.0)
  | inl h ↦
      let s = write_done true c h.0 in
      let (d, run, o', w) = drained rs rest (on_write_done true c) (Step-Orderly rs _ _ s o) (
        ap (λ (x : Chatter). x.remaining)
          (next_write-cons (record c { writing = false }) r rest e)) in
      (d, Run-trans (step stop s) run, o', w)
]

no_message : DiscoveryResponse
no_message = record { version_info = ""; resources = []; type_url = ""; nonce = "" }

-- With no write under way, a failing read, if one is under way, and `OnDone` end the run.
finishes : (c : Chatter) → c.writing ≡ false → (d : Chatter) × Run c d × (d.done ≡ true)
unfolding on_read_done on_done
finishes c w = elim (Bool-cases c.done) [
  | inl n ↦ (c, stop, n)
  | inr n ↦ elim (Bool-cases c.reading) [
    | inl r ↦ (
      on_done true (record c { reading = false }),
      step (step stop (read_done false no_message c r))
          (finished true (record c { reading = false }) w refl n),
      refl,
    )
    | inr r ↦ (on_done true c, step stop (finished true c w r n), refl)
  ]
]

-- From every point of a run of the reactor, some continuation calls `OnDone`, which is what `Await`
-- waits for; there all requests were written.
pub Run-finishes :
    (rs : List DiscoveryRequest) (c : Chatter)
    → Run (new_chatter rs) c
    → (d : Chatter) × Run c d × (d.done ≡ true) × (d.written ≡ rs)
Run-finishes rs c run =
    let o = Run-Orderly rs (new_chatter rs) run (new_chatter-Orderly rs) in
    let (b, left, o', w) = drained rs c.remaining c o refl in
    let (d, last, n) = finishes b w in
    let whole = Run-trans left last in
    let o'' = Run-Orderly rs c whole o in (d, whole, n, (closed_after rs d o'' (o''.quiet n)).0)
