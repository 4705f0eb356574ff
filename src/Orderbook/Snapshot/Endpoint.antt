-- ===== src/Orderbook/Snapshot/Endpoint.antt =====
-- NewRESTClient of orderbook/internal/exchange/rest.go, and the URL that FetchDepthSnapshot asks for.
-- url.Parse, and the query that a URL has already, are arguments, and so is the encoder of a query.
use fidorix.Base.{
  ◌∙◌, ◌≢◌, ◌≡◌, Option, none, some, ◌++◌, ℤ, Text, codes, Assoc, lookup, insert,
  lookup-insert_self, lookup-insert_ne, Result, ok, err, strip_slashes, itoa,
}

pub record RestClient : Type 0 where
  pub base_url : Text
  pub depth_limit : ℤ

-- The slashes at the end of the base are trimmed.
unfoldable pub new_rest_client : Text → ℤ → RestClient
new_rest_client base_url depth_limit = record {
  base_url = strip_slashes base_url;
  depth_limit = depth_limit;
}

-- `parse` gives a URL and its query, `render` the text of a URL with a query in place of its own.
pub record UrlCalls (U : Type 0) : Type 0 where
  pub parse : Text → Option (U × Assoc Text)
  pub render : U → Assoc Text → Text

pub data EndpointError : Type 0 where
  parse_error : EndpointError

abbrev pub depth_query : RestClient → Text → Assoc Text → Assoc Text
depth_query c symbol query =
    insert (codes "limit") (itoa c.depth_limit) (insert (codes "symbol") symbol query)

abbrev pub with_query :
    {U : Type 0}
    → UrlCalls U
    → RestClient
    → Text
    → Option (U × Assoc Text)
    → Result EndpointError Text
with_query calls c symbol none = err parse_error
with_query calls c symbol (some (url, query)) = ok (calls.render url (depth_query c symbol query))

unfoldable pub depth_endpoint :
    {U : Type 0} → UrlCalls U → RestClient → Text → Result EndpointError Text
depth_endpoint calls c symbol =
    with_query calls c symbol (calls.parse (c.base_url ++ codes "/api/v3/depth"))

-- Whatever query the base has, the symbol and the limit are those that are asked for.
pub depth_query_result :
    (c : RestClient) (symbol : Text) (query : Assoc Text)
    → (lookup (codes "symbol") (depth_query c symbol query) ≡ some symbol)
      × (lookup (codes "limit") (depth_query c symbol query) ≡ some (itoa c.depth_limit))
depth_query_result c symbol query = (
  lookup-insert_ne (codes "limit") (codes "symbol") _ _ different
      ∙ lookup-insert_self (codes "symbol") symbol query,
  lookup-insert_self (codes "limit") _ _,
)
  where
    different : codes "limit" ≢ codes "symbol"
    different e = cc
