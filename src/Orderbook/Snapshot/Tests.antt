-- ===== src/Orderbook/Snapshot/Tests.antt =====
-- Tests of orderbook/internal/exchange/rest.go, and the theorems at inputs. A snapshot is a number.
use fidorix.Base.{
  ◌++◌, lookup, insert, itoa, digits, strip_slashes, ℕ, zero, suc, ◌≡◌, refl, true, Option, none,
  some, [], ◌∷◌, arith, length, ℤ, pos, ◌≤ℤ◌, ◌*ℤ◌, wrap64, Text, codes, strings, atoi, natural,
  digits_from, ok, err,
}
use fidorix.Orderbook.Snapshot.{
  parse_retry_after, rate_limited, after_retries, server_status, response, Attempt, fetch_from,
  fetch_depth_snapshot,
}
use fidorix.Orderbook.Snapshot.Endpoint.{UrlCalls, new_rest_client, depth_endpoint}
use fidorix.Orderbook.Snapshot.Retries.{
  parse_retry_after-pos, AreRetried, fetch_depth_snapshot-success,
}

snapshot : Unit {0}
unfolding strings atoi natural digits_from wrap64 ◌*ℤ◌ parse_retry_after fetch_from
    fetch_depth_snapshot
snapshot = tt

-- No text is a date.
abbrev no_date : Text → Option ℤ
no_date s = none

-- Rate limited once for a second, and then a snapshot.
abbrev world : ℕ → Attempt ℕ
world zero = record { reply = response (pos 200) [] (some 5); sleeps = true }
world (suc zero) = record { reply = response (pos 429) (codes " 1 ") none; sleeps = true }
world (suc (suc n)) = record { reply = response (pos 200) [] (some 5); sleeps = true }

abbrev broken : ℕ → Attempt ℕ
broken n = record { reply = response (pos 502) [] none; sleeps = true }

fetch_tests :
    (fetch_depth_snapshot no_date world ≡ (ok 5, pos 1000000000 ∷ []))
    × (fetch_depth_snapshot no_date broken
        ≡ (err (after_retries (server_status (pos 502))), pos 2000000000 ∷ pos 2000000000 ∷ []))
    × (parse_retry_after no_date (codes "soon") (pos 5) ≡ pos 5)
    × (parse_retry_after no_date (codes "0") (pos 5) ≡ pos 5)
unfolding snapshot
fetch_tests = (refl, refl, refl, refl)

one_second : (n : ℤ) → some (pos 1) ≡ some n → n ≤ℤ pos 9223372036
one_second n e = ground arith

parse_retry_after-pos_test : pos 1 ≤ℤ parse_retry_after no_date (codes " 1 ") (pos 5)
parse_retry_after-pos_test =
    parse_retry_after-pos no_date (codes " 1 ") (pos 5) (omega arith)
      (λ n e. one_second n (unfold snapshot in e))

one_retried : AreRetried no_date world 1 1
unfolding snapshot
one_retried = ((true, (pos 1000000000, (rate_limited, refl)), refl), tt)

fetch_depth_snapshot-success_example :
    ((fetch_depth_snapshot no_date world).0 ≡ ok 5)
    × (length (fetch_depth_snapshot no_date world).1 ≡ 1)
fetch_depth_snapshot-success_example =
    fetch_depth_snapshot-success no_date world 1 5 (omega arith) one_retried refl

-- URLs without a query, and a query that has the symbol only.
abbrev plain_urls : UrlCalls Text
plain_urls = record {
  parse = λ url. some (url, []);
  render = λ url query. url ++ (codes "?" ++ symbol_of (lookup (codes "symbol") query));
}
  where
    symbol_of : Option Text → Text
    symbol_of none = []
    symbol_of (some symbol) = symbol

endpoint_test :
    depth_endpoint plain_urls (new_rest_client (codes "http://x//") (pos 5)) (codes "A")
    ≡ ok (codes "http://x/api/v3/depth?A")
unfolding snapshot new_rest_client depth_endpoint strip_slashes lookup insert itoa digits
endpoint_test = refl
