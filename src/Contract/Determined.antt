-- ===== src/Contract/Determined.antt =====
-- The calls on the abstract book have one outcome.
use mathlib.Core.Path.{ap₂}
use hft_orderbook_benchmark.Common.{◌≡◌, refl, ap, List, ◌++◌}
use hft_orderbook_benchmark.Core.{Trade}
use hft_orderbook_benchmark.Contract
use hft_orderbook_benchmark.Contract.{Book, Match}
use hft_orderbook_benchmark.Contract.Matches.{Match-deterministic}
use hft_orderbook_benchmark.Contract.Runs.{Op, Run, stop, adds, cancels, modifies, matches}

same-Match :
    (b b' c c' : Book) {ts us : List Trade}
    → b ≡ b'
    → Match b.bids b.asks ts c.bids c.asks
    → Match b'.bids b'.asks us c'.bids c'.asks
    → (ts ≡ us) × (c ≡ c')
same-Match b b' c c' e m n =
    let r = Match-deterministic (rw e at m) n in (r.0, λ i. record { bids = r.1 i; asks = r.2 i })

same-Run :
    {b b' c c' : Book} {ops : List Op} {ts us : List Trade}
    → b ≡ b'
    → Run b ops ts c
    → Run b' ops us c'
    → (ts ≡ us) × (c ≡ c')
same-Run e stop stop = (refl, e)
same-Run e (adds {o = o} m) (adds n) = same-Run (ap (Contract.add o) e) m n
same-Run e (cancels {id = id} m) (cancels n) = same-Run (ap (Contract.cancel id) e) m n
same-Run e (modifies {id = id} {q = q} m) (modifies n) = same-Run (ap (Contract.modify id q) e) m n
same-Run {b} {b'} e (matches {c = c} m p) (matches {c = c'} n q) =
    let s = same-Match b b' c c' e m n in let r = same-Run s.1 p q in (ap₂ ◌++◌ s.0 r.0, r.1)

-- The same calls on the same book make the same trades and leave the same orders.
pub Run-deterministic :
    {b c c' : Book} {ops : List Op} {ts us : List Trade}
    → Run b ops ts c
    → Run b ops us c'
    → (ts ≡ us) × (c ≡ c')
Run-deterministic m n = same-Run refl m n
