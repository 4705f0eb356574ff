-- ===== src/Kline/Symbol.antt =====
-- kline/internal/symbol/symbol.go: a user's symbol, the exchange's wire format, the file name.
pub mod Wire
mod Tests
use fidorix.Base.{
  List, [], ◌∷◌, ◌++◌, if◌then◌else◌, Text, codes, is_empty, trim_space, has_suffix, trim_suffix,
}

abbrev pub suffixes : List Text
suffixes = codes "USDT" ∷ codes "USDC" ∷ codes "BTC" ∷ []

-- `base` is what stands before the suffix.
pub joined : Text → Text → Text → Text
joined s base suffix = if is_empty base then s else base ++ (codes "_" ++ suffix)

-- the loop over the suffixes
pub to_mexc_from : Text → List Text → Text
unfolding joined
to_mexc_from s [] = s
to_mexc_from s (suffix ∷ rest) =
    let later = to_mexc_from s rest in
    if has_suffix s suffix then joined s (trim_suffix s suffix) suffix else later

unfoldable pub to_mexc : Text → Text
unfolding to_mexc_from
to_mexc s = to_mexc_from (trim_space s) suffixes

unfoldable pub to_file : Text → Text
to_file s = trim_space s
