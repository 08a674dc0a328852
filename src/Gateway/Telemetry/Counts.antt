-- ===== src/Gateway/Telemetry/Counts.antt =====
-- crates/ancre-gateway/src/telemetry.rs: what recording drops does to the counts.
use ancre.Prelude.{ℕ, suc, ◌+◌, ◌<◌, ◌≡◌, List, [], ◌∷◌, length, u64_mod, arith}
use ancre.Prelude.Int.{ℤ}
use ancre.Types.Event.{EmittedEvent}
use ancre.Ingester.Sink.{chain_of}
use ancre.Gateway.Telemetry.{record_all}
use ancre.Gateway.Telemetry.Drops.{DropCounter, record_drop, drop_key}
use ancre.Gateway.Telemetry.Spans.{IsMap, spans_sum, touch-sum}

-- The drops that a counter has, in its total and in its windows.
pub record Counts (drops : DropCounter) (total windows : ℕ) : Type 0 where
  pub keys : IsMap drops.windows
  pub total_is : drops.total ≡ total
  pub windows_are : spans_sum drops.windows ≡ windows

pub record_drop-Counts :
    (now : ℤ) (e : EmittedEvent) (drops : DropCounter) (t w : ℕ)
    → t + 1 < u64_mod
    → w + 1 < u64_mod
    → Counts drops t w
    → Counts (record_drop now (chain_of e) drops) (t + 1) (w + 1)
unfolding record_drop
record_drop-Counts now e drops t w lt lw h =
    let (map_too, sums) =
      touch-sum now (drop_key (chain_of e) drops.windows) drops.windows h.keys
        (omega (arith, lw, h.windows_are)) in
    record {
      keys = map_too;
      total_is = omega (arith, h.total_is);
      windows_are = omega (arith, sums, h.windows_are);
    }

pub record_all-Counts :
    (clock : ℕ → ℤ) (es : List EmittedEvent) (drops : DropCounter) (t w : ℕ)
    → t + length es < u64_mod
    → w + length es < u64_mod
    → Counts drops t w
    → Counts (record_all clock es drops) (t + length es) (w + length es)
unfolding record_all
record_all-Counts clock [] drops t w lt lw h = record {
  keys = h.keys;
  total_is = omega (arith, h.total_is);
  windows_are = omega (arith, h.windows_are);
}
record_all-Counts clock (e ∷ es) drops t w lt lw h =
    let once = record_drop-Counts (clock 0) e drops t w (omega arith) (omega arith) h in
    let all =
      record_all-Counts (λ n. clock (suc n)) es _ (t + 1) (w + 1) (omega arith) (omega arith)
        once in
    record {
      keys = all.keys;
      total_is = omega (arith, all.total_is);
      windows_are = omega (arith, all.windows_are);
    }
