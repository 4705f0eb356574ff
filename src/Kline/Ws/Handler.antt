-- ===== src/Kline/Ws/Handler.antt =====
-- kline/internal/ws/handler.go: what the messages of the stream do to the store. The decoding of
-- the two JSON forms is an argument; a number is kept as the text that it was (json.Number).
pub mod Updates
pub mod Stream
pub mod Tests
use fidorix.Base.{
  Bool, true, false, ◌||◌, Option, none, some, List, [], ◌∷◌, ◌++◌, if◌then◌else◌, ℤ, Text, codes,
  text_eq, is_empty,
}
use fidorix.Kline.Candle.{Candle}
use fidorix.Kline.Store.{Store, Effect, has, upsert}

pub record Envelope : Type 0 where
  pub channel : Text
  pub payload : Text

pub record PushKline : Type 0 where
  pub symbol : Text
  pub interval : Text
  pub t : ℤ
  pub o : Text
  pub h : Text
  pub l : Text
  pub c : Text
  pub v : Text
  pub a : Text
  pub q : Text
  pub ro : Text
  pub rc : Text
  pub rh : Text
  pub rl : Text

abbrev pub number_string : Text → Text
number_string n = if is_empty n then [] else n

unfoldable pub candle_of : PushKline → Candle
candle_of p = record {
  t = p.t;
  o = number_string p.o;
  h = number_string p.h;
  l = number_string p.l;
  c = number_string p.c;
  v = number_string p.v;
  a = number_string p.a;
  q = number_string p.q;
  ro = number_string p.ro;
  rc = number_string p.rc;
  rh = number_string p.rh;
  rl = number_string p.rl;
}

-- decodeJSON at the two types that the handler decodes.
pub record Decoder : Type 0 where
  pub envelope : Text → Option Envelope
  pub push : Text → Option PushKline

abbrev pub apply_push : Store → PushKline → Store × List Effect
apply_push s p =
    if is_empty p.symbol || is_empty p.interval
    then (s, [])
    else if has s p.symbol p.interval
    then upsert s p.symbol p.interval (candle_of p)
    else (s, [])

abbrev pub push_or_drop : Store → Option PushKline → Store × List Effect
push_or_drop s none = (s, [])
push_or_drop s (some p) = apply_push s p

unfoldable pub handle_push_kline : Decoder → Store → Text → Store × List Effect
handle_push_kline json s payload = push_or_drop s (json.push payload)

-- A pong and an unexpected channel change nothing.
abbrev pub dispatch : Decoder → Store → Option Envelope → Store × List Effect
dispatch json s none = (s, [])
dispatch json s (some e) =
    if text_eq e.channel (codes "push.kline") then handle_push_kline json s e.payload else (s, [])

unfoldable pub handle_message : Decoder → Store → Text → Store × List Effect
handle_message json s payload = dispatch json s (json.envelope payload)

-- Run, over the messages that arrive before the context is cancelled.
unfoldable pub run : Decoder → Store → List Text → Store × List Effect
run json s [] = (s, [])
run json s (payload ∷ payloads) =
    let (s', effects) = handle_message json s payload in
    let (last, later) = run json s' payloads in (last, effects ++ later)
