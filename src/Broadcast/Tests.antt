-- ===== src/Broadcast/Tests.antt =====
-- Runs of the broadcaster, and the theorems about it at these runs.
use crypto_trading_system.Base.{List, [], refl, ◌∷◌}
use crypto_trading_system.Base.Text.{codes}
use crypto_trading_system.Broadcast.{Broadcaster}
use crypto_trading_system.Broadcast.Depth.{
  IsAgreed, Visit, disconnect_visit, subscribe_visit, unsubscribe_visit, visit_each,
  visit_each-IsAgreed,
}

abbrev quiet : Broadcaster
quiet = record {
  clients = [];
  pending = [];
  pending_candles = [];
  pending_books = [];
  pending_indicators = [];
  pending_signals = [];
  depth_clients = [];
  client_depth_symbols = [];
}

quiet-IsAgreed : IsAgreed quiet
quiet-IsAgreed client symbol = refl

abbrev visits : List Visit
visits =
    subscribe_visit 1 (codes "BTC")
    ∷ subscribe_visit 2 (codes "BTC")
    ∷ unsubscribe_visit 1 (codes "BTC")
    ∷ disconnect_visit 2
    ∷ []

visit_each-IsAgreed_example : IsAgreed (visit_each quiet visits)
visit_each-IsAgreed_example = visit_each-IsAgreed quiet visits quiet-IsAgreed
