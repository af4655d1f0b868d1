-- ===== src/Client/Loop/Ends.antt =====
-- The loop of requests and answers ends, and how. (`drainRequests`, `sendDiscoveryRequest` and
-- `queueDiscoveryRequest` of AdsClient.cpp.)
use xds_client.Base.{ℕ, zero, suc, some, ap, ◌∙◌, inl, inr, arith, List-cases}
use xds_client.Client.Loop.Drain.{DrainEnds, ReadEnds, drain_idle, idle-IsDrained, drain_round}
use xds_client.Client.Loop.Read.{IsRead-idle, inbound-eq, IsRead-round}

drain_suc : (f : ℕ) → DrainEnds f → ReadEnds f → DrainEnds (suc f)
drain_suc f ihd ihr c r s fuel = elim (List-cases r.queue.0) [
  | inl e ↦ let q = r.queue.1 ∙ ap some e in rw (drain_idle f c q) (idle-IsDrained c r s q)
  | inr (t, q, e) ↦ drain_round f t q c ihd ihr r s (r.queue.1 ∙ ap some e) fuel
]

read_suc : (f : ℕ) → DrainEnds f → ReadEnds f → ReadEnds (suc f)
read_suc f ihd ihr c r s fuel = elim (List-cases r.stream.0.inbound) [
  | inl e ↦ IsRead-idle f c r s (inbound-eq r.stream.0 c r.stream.1 ∙ e)
  | inr (m, rest, e) ↦ IsRead-round f r.stream.0 m rest c ihd ihr r s r.stream.1 e fuel
]

pub loop_ends : (f : ℕ) → DrainEnds f × ReadEnds f
loop_ends zero = (λ c r s h. absurd (omega arith), λ c r s h. absurd (omega arith))
loop_ends (suc f) = let (ihd, ihr) = loop_ends f in (drain_suc f ihd ihr, read_suc f ihd ihr)
