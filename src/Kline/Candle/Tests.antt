-- ===== src/Kline/Candle/Tests.antt =====
-- Tests of kline/internal/kline (those of candle_test.go among them), and the theorems at inputs.
use fidorix.Base.{◌≡◌, refl, some, List, [], ◌∷◌, arith, ℤ, pos, negsuc, Text, codes}
use fidorix.Kline.Candle.{Candle, upsert}
use fidorix.Kline.Candle.Place.{IsSorted, place, upsert-eq-place}
use fidorix.Kline.Candle.Order.{candle_at, upsert-IsSorted, candle_at-upsert}
use fidorix.Kline.Candle.Merge.{upsert_comm, upsert_overwrite}

abbrev pub bar : ℤ → Text → Candle
bar t close = record {
  t = t;
  o = [];
  h = [];
  l = [];
  c = close;
  v = [];
  a = [];
  q = [];
  ro = [];
  rc = [];
  rh = [];
  rl = [];
}

abbrev pub two_bars : List Candle
two_bars = bar (pos 10) (codes "1") ∷ bar (pos 30) (codes "3") ∷ []

-- TestUpsertInsert
upsert_insert :
    upsert two_bars (bar (pos 20) (codes "2"))
    ≡ bar (pos 10) (codes "1") ∷ bar (pos 20) (codes "2") ∷ bar (pos 30) (codes "3") ∷ []
unfolding upsert
upsert_insert = refl

-- TestUpsertUpdateInPlace
upsert_update :
    upsert two_bars (bar (pos 10) (codes "new"))
    ≡ bar (pos 10) (codes "new") ∷ bar (pos 30) (codes "3") ∷ []
unfolding upsert
upsert_update = refl

-- TestUpsertAppendNew, and a time before the epoch
upsert_append :
    upsert (upsert two_bars (bar (pos 40) [])) (bar (negsuc 0) [])
    ≡ bar (negsuc 0) [] ∷ bar (pos 10) (codes "1") ∷ bar (pos 30) (codes "3") ∷ bar (pos 40) [] ∷ []
unfolding upsert
upsert_append = refl

pub two_bars-IsSorted : IsSorted two_bars
two_bars-IsSorted = omega arith

upsert-eq-place_example : upsert two_bars (bar (pos 20) []) ≡ place two_bars (bar (pos 20) [])
upsert-eq-place_example = upsert-eq-place two_bars (bar (pos 20) []) two_bars-IsSorted

upsert-IsSorted_test : IsSorted (upsert two_bars (bar (pos 20) []))
upsert-IsSorted_test = upsert-IsSorted two_bars (bar (pos 20) []) two_bars-IsSorted

candle_at-upsert_example :
    candle_at (pos 30) (upsert two_bars (bar (pos 20) [])) ≡ some (bar (pos 30) (codes "3"))
candle_at-upsert_example = candle_at-upsert (pos 30) two_bars (bar (pos 20) []) two_bars-IsSorted

upsert_comm_test :
    upsert (upsert two_bars (bar (pos 20) [])) (bar (pos 40) [])
    ≡ upsert (upsert two_bars (bar (pos 40) [])) (bar (pos 20) [])
upsert_comm_test = upsert_comm two_bars (bar (pos 20) []) (bar (pos 40) []) two_bars-IsSorted (cc)

upsert_overwrite_test :
    upsert (upsert two_bars (bar (pos 20) [])) (bar (pos 20) (codes "2"))
    ≡ upsert two_bars (bar (pos 20) (codes "2"))
upsert_overwrite_test =
    upsert_overwrite two_bars (bar (pos 20) []) (bar (pos 20) (codes "2")) two_bars-IsSorted refl
