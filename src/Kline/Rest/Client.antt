-- ===== src/Kline/Rest/Client.antt =====
-- kline/internal/rest/client.go: the candles of one pair from the REST API. What the server and the
-- JSON decoder answer to a request is an argument, and so are the texts of their errors.
pub mod Fetch
pub mod Tests
use fidorix.Base.{
  ℕ, ◌-◌, Bool, true, false, ◌&&◌, ◌||◌, not, Option, none, some, List, [], ◌∷◌, ◌++◌, ◌==◌, ltb,
  if◌then◌else◌, length, drop, ℤ, pos, pos_part, ltb_ℤ, eqb_ℤ, Text, codes, is_empty, Result, ok,
  err, ◌>>=◌, itoa,
}
use fidorix.Kline.Candle.{Candle}

pub record KlineData : Type 0 where
  pub time : List ℤ
  pub open_price : List Text
  pub close_price : List Text
  pub high : List Text
  pub low : List Text
  pub vol : List Text
  pub amount : List Text

pub record Response : Type 0 where
  pub success : Bool
  pub code : ℤ
  pub message : Text
  pub msg : Text
  pub kline_data : KlineData

pub data FetchError : Type 0 where
  create_request : Text → FetchError
  request_kline : Text → FetchError
  unexpected_status : ℤ → Text → FetchError
  decode_response : Text → FetchError
  rest_error : ℤ → Text → FetchError
  mismatched_lengths : FetchError

-- What Error() gives.
unfoldable pub error_text : FetchError → Text
error_text (create_request e) = codes "create request: " ++ e
error_text (request_kline e) = codes "request kline: " ++ e
error_text (unexpected_status code body) =
    codes "unexpected status " ++ (itoa code ++ (codes ": " ++ body))
error_text (decode_response e) = codes "decode response: " ++ e
error_text (rest_error code message) =
    codes "mexc rest error code=" ++ (itoa code ++ (codes " message=" ++ message))
error_text mismatched_lengths = codes "mismatched REST kline array lengths"

abbrev pub candle_row : ℤ → Text → Text → Text → Text → Text → Text → Candle
candle_row t o h l c v a = record {
  t = t;
  o = o;
  h = h;
  l = l;
  c = c;
  v = v;
  a = a;
  q = [];
  ro = [];
  rc = [];
  rh = [];
  rl = [];
}

-- The loop over the index, which is in the range of every array.
unfoldable pub rows :
    List ℤ → List Text → List Text → List Text → List Text → List Text → List Text → List Candle
rows (t ∷ ts) (o ∷ os) (h ∷ hs) (l ∷ ls) (c ∷ cs) (v ∷ vs) (a ∷ amounts) =
    candle_row t o h l c v a ∷ rows ts os hs ls cs vs amounts
rows _ _ _ _ _ _ _ = []

abbrev pub same_lengths : KlineData → Bool
same_lengths d =
    let n = length d.time in
    length d.open_price == n
    && length d.close_price == n
    && length d.high == n
    && length d.low == n
    && length d.vol == n
    && length d.amount == n

unfoldable pub to_candles : KlineData → Result FetchError (List Candle)
to_candles d =
    if length d.time == 0
    then ok []
    else if not (same_lengths d)
    then err mismatched_lengths
    else ok (rows d.time d.open_price d.high d.low d.close_price d.vol d.amount)

-- The query of the request: `start` and `end` where they are positive.
pub record Query : Type 0 where
  pub interval : Text
  pub start : Option ℤ
  pub end : Option ℤ

-- How the request ends; `answered` has the status, the text of the first 4096 bytes of the body,
-- and the body amounts it is decoded.
pub data Answer : Type 0 where
  not_created : Text → Answer
  not_done : Text → Answer
  answered : ℤ → Text → Result Text Response → Answer

abbrev pub positive : ℤ → Option ℤ
positive z = if ltb_ℤ (pos 0) z then some z else none

abbrev pub query_for : Text → ℤ → ℤ → Query
query_for interval start end = record {
  interval = interval;
  start = positive start;
  end = positive end;
}

abbrev pub limited : ℤ → List Candle → List Candle
limited limit candles =
    if ltb_ℤ (pos 0) limit && ltb_ℤ limit (pos (length candles))
    then drop (length candles - pos_part limit) candles
    else candles

abbrev pub payload_candles : ℤ → Response → Result FetchError (List Candle)
payload_candles limit r =
    if not r.success
    then err (rest_error r.code (if is_empty r.message then r.msg else r.message))
    else (to_candles r.kline_data >>= λ candles. ok (limited limit candles))

abbrev pub decoded_candles : ℤ → Result Text Response → Result FetchError (List Candle)
decoded_candles limit (err e) = err (decode_response e)
decoded_candles limit (ok r) = payload_candles limit r

abbrev pub answer_candles : ℤ → Answer → Result FetchError (List Candle)
answer_candles limit (not_created e) = err (create_request e)
answer_candles limit (not_done e) = err (request_kline e)
answer_candles limit (answered status body decoded) =
    if not (eqb_ℤ status (pos 200))
    then err (unexpected_status status body)
    else decoded_candles limit decoded

unfoldable pub fetch_kline :
    (Text → Query → Answer) → Text → Text → ℤ → ℤ → ℤ → Result FetchError (List Candle)
fetch_kline server symbol interval start end limit =
    answer_candles limit (server symbol (query_for interval start end))
