-- ===== src/Contract/Runs.antt =====
-- A client's calls of an order book in order, on the abstract book.
use hft_orderbook_benchmark.Common.{ℕ, List, [], ◌∷◌, ◌++◌}
use hft_orderbook_benchmark.Core.{Order, Trade}
use hft_orderbook_benchmark.Contract
use hft_orderbook_benchmark.Contract.{Book, Match}

pub data Op : Type 0 where
  add : Order → Op
  cancel : ℕ → Op
  modify : ℕ → ℕ → Op
  match : Op

-- `Run b ops ts c`: the calls `ops` take the book `b` to `c`, and their matches trade `ts`.
pub data Run : Book → List Op → List Trade → Book → Type 0 where
  stop : {b : Book} → Run b [] [] b
  adds :
      {b c : Book} {o : Order} {ops : List Op} {ts : List Trade}
      → Run (Contract.add o b) ops ts c
      → Run b (add o ∷ ops) ts c
  cancels :
      {b c : Book} {id : ℕ} {ops : List Op} {ts : List Trade}
      → Run (Contract.cancel id b) ops ts c
      → Run b (cancel id ∷ ops) ts c
  modifies :
      {b c : Book} {id q : ℕ} {ops : List Op} {ts : List Trade}
      → Run (Contract.modify id q b) ops ts c
      → Run b (modify id q ∷ ops) ts c
  matches :
      {b c d : Book} {ops : List Op} {ts us : List Trade}
      → Match b.bids b.asks ts c.bids c.asks
      → Run c ops us d
      → Run b (match ∷ ops) (ts ++ us) d
