-- ===== src/Kline/Symbol/Tests.antt =====
-- Tests of kline/internal/symbol (those of symbol_test.go among them), and the theorems at inputs.
use fidorix.Base.{◌≡◌, refl, arith, codes, remove_all, strings}
use fidorix.Kline.Symbol.{to_mexc, to_file}
use fidorix.Kline.Symbol.Wire.{remove_all-to_mexc, to_mexc_inj}

-- TestToMEXC
to_mexc_tests :
    (to_mexc (codes "BTCUSDT") ≡ codes "BTC_USDT")
    × (to_mexc (codes "ETHUSDC") ≡ codes "ETH_USDC")
    × (to_mexc (codes "XRPBTC") ≡ codes "XRP_BTC")
    × (to_mexc (codes "USDCUSDT") ≡ codes "USDC_USDT")
    × (to_mexc (codes " USDT ") ≡ codes "USDT")
    × (to_mexc (codes "ABC") ≡ codes "ABC")
unfolding to_mexc strings
to_mexc_tests = (refl, refl, refl, refl, refl, refl)

-- TestToFile
to_file_test : to_file (codes "BTCUSDT") ≡ codes "BTCUSDT"
unfolding to_file strings
to_file_test = refl

remove_all-to_mexc_test : remove_all b'_' (to_mexc (codes " BTCUSDT")) ≡ to_file (codes " BTCUSDT")
remove_all-to_mexc_test = remove_all-to_mexc (codes " BTCUSDT") (ground arith)

to_mexc_inj_test : to_file (codes "BTCUSDT ") ≡ to_file (codes "BTCUSDT")
to_mexc_inj_test =
    to_mexc_inj (codes "BTCUSDT ") (codes "BTCUSDT") (ground arith) (ground arith)
      (unfold to_mexc strings in refl)
