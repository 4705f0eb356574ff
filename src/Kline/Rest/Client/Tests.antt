-- ===== src/Kline/Rest/Client/Tests.antt =====
-- Tests of kline/internal/rest/client.go, and the theorems at inputs.
use fidorix.Base.{◌≡◌, refl, ◌⊎◌, true, List, [], ◌∷◌, ℤ, pos, Text, codes, ok, err}
use fidorix.Kline.Candle.{Candle}
use fidorix.Kline.Rest.Client.{
  KlineData, Response, Answer, Query, query_for, answered, mismatched_lengths, candle_row, rows,
  to_candles, fetch_kline, unexpected_status,
}
use fidorix.Kline.Rest.Client.Fetch.{IsRead, to_candles_result, IsFetched, fetch_kline_result}

abbrev one : List Text
one = codes "1" ∷ codes "2" ∷ []

abbrev pub two_rows : KlineData
two_rows = record {
  time = pos 60 ∷ pos 120 ∷ [];
  open_price = one;
  close_price = one;
  high = one;
  low = one;
  vol = one;
  amount = one;
}

abbrev pub row : ℤ → Text → Candle
row t s = candle_row t s s s s s s

abbrev pub success : Response
success = record { success = true; code = pos 0; message = []; msg = []; kline_data = two_rows }

abbrev pub server : Text → Query → Answer
server symbol query = answered (pos 200) [] (ok success)

abbrev busy : Text → Query → Answer
busy symbol query = answered (pos 503) (codes "busy") (ok success)

client : Unit {0}
unfolding fetch_kline to_candles rows
client = tt

fetch_tests :
    (fetch_kline server (codes "BTC_USDT") (codes "Min1") (pos 1) (pos 0) (pos 1)
      ≡ ok (row (pos 120) (codes "2") ∷ []))
    × (fetch_kline busy (codes "BTC_USDT") (codes "Min1") (pos 1) (pos 0) (pos 1)
        ≡ err (unexpected_status (pos 503) (codes "busy")))
    × (to_candles (record two_rows { vol = [] }) ≡ err mismatched_lengths)
unfolding client
fetch_tests = (refl, refl, refl)

to_candles_result_test :
    ((two_rows.time ≡ []) × (to_candles two_rows ≡ ok []))
    ⊎ (((cs : List Candle) × (to_candles two_rows ≡ ok cs) × IsRead two_rows cs)
        ⊎ (to_candles two_rows ≡ err mismatched_lengths))
to_candles_result_test = to_candles_result two_rows

fetch_kline_result_example :
    (body : Text) × (r : Response) × (server
        (codes "BTC_USDT")
        (query_for (codes "Min1") (pos 1) (pos 0))
      ≡ answered (pos 200) body (ok r))
    × (r.success ≡ true)
    × IsFetched (pos 1) r.kline_data (row (pos 120) (codes "2") ∷ [])
fetch_kline_result_example =
    fetch_kline_result server (codes "BTC_USDT") (codes "Min1") (pos 1) (pos 0) (pos 1)
      (row (pos 120) (codes "2") ∷ []) fetch_tests.0
