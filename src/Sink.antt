-- ===== src/Sink.antt =====
-- The calls of a `TradeSink` of include/tt/matching/matching_engine.hpp.
use trader_two.Prelude.{List, [], ◌∷◌, ◌++◌, map}
use trader_two.Order.{Trade}
use trader_two.Engine.{SubmitResult, Outcome}

pub data SinkCall : Type 0 where
  told_trade : Trade → SinkCall
  told_result : SubmitResult → SinkCall

-- What a submission tells its sink, in order.
unfoldable pub calls_of : Outcome → List SinkCall
calls_of x = map told_trade x.trades ++ (told_result x.result ∷ [])
