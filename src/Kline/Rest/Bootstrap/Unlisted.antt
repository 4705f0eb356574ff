-- ===== src/Kline/Rest/Bootstrap/Unlisted.antt =====
-- isContractNotExist, over the texts of the errors that FetchKline gives.
use fidorix.Base.{
  ◌≡◌, refl, true, [], ◌∷◌, ◌++◌, arith, ℤ, Text, codes, has_prefix, contains, CaseTables, to_lower,
  itoa,
}
use fidorix.Kline.Files.{SaveError}
use fidorix.Kline.Rest.Client.{error_text, rest_error}
use fidorix.Kline.Rest.Bootstrap.{fetch_error, pair_error_text, is_contract_not_exist}

has_prefix-append : (s t : Text) → has_prefix (s ++ t) s ≡ true
unfolding has_prefix
has_prefix-append [] t = refl
has_prefix-append (c ∷ s) t = ground (arith, has_prefix-append s t)

-- What stands within a text is found.
pub contains-middle : (s t u : Text) → contains (s ++ (t ++ u)) t ≡ true
unfolding contains
contains-middle [] [] [] = refl
contains-middle [] [] (c ∷ u) = ground (arith, has_prefix-append [] (c ∷ u))
contains-middle [] (d ∷ t) u = ground (arith, has_prefix-append (d ∷ t) u)
contains-middle (c ∷ s) t u = ground (arith, contains-middle s t u)

is_contract_not_exist_of_code :
    (u : CaseTables) (error : Text)
    → contains (to_lower u error) (codes "code=1001") ≡ true
    → is_contract_not_exist u error ≡ true
unfolding is_contract_not_exist
is_contract_not_exist_of_code u error h = rw h

-- The API's code 1001, with any message, is the error of an unlisted contract, and so is that of
-- every code whose digits begin with 1001.
pub is_contract_not_exist_of_1001 :
    (u : CaseTables) (texts : SaveError → Text) (code : ℤ) (more message : Text)
    → itoa code ≡ codes "1001" ++ more
    → is_contract_not_exist u (pair_error_text texts (fetch_error (rest_error code message))) ≡ true
unfolding pair_error_text error_text
is_contract_not_exist_of_1001 u texts code more message e = rw e (
    is_contract_not_exist_of_code u
      (codes "mexc rest error code=1001" ++ (more ++ (codes " message=" ++ message)))
      (contains-middle (codes "mexc rest error ") (codes "code=1001")
        (to_lower u (more ++ (codes " message=" ++ message)))))
