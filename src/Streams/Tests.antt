-- ===== src/Streams/Tests.antt =====
-- Runs of the stream client, and the theorems about it at these runs.
use crypto_trading_system.Base.{[], arith, false, true, ◌∷◌}
use crypto_trading_system.Base.Text.{codes}
use crypto_trading_system.Streams.{StreamClient, stream_count}
use crypto_trading_system.Streams.Subscriptions.{
  IsWithin, add_depth_request, add_request, remove_request, serve_each, serve_each-IsWithin,
}

abbrev empty_client : StreamClient
empty_client = record { symbols = []; depth_symbols = []; ticks = []; books = [] }

empty-IsWithin : IsWithin 2 empty_client
unfolding stream_count
empty-IsWithin = record { bounded = omega arith; active = λ s h. absurd (ground (arith, h)) }

serve_each-IsWithin_example : IsWithin 2 (
    serve_each 2
      (add_request (codes "btc") true
        ∷ add_depth_request (codes "btc") true
        ∷ remove_request (codes "BTC") false
        ∷ [])
      empty_client)
serve_each-IsWithin_example =
    serve_each-IsWithin 2
      (add_request (codes "btc") true
        ∷ add_depth_request (codes "btc") true
        ∷ remove_request (codes "BTC") false
        ∷ [])
      empty_client empty-IsWithin
