-- ===== src/Orderbook/Websocket/Registry.antt =====
-- The registry of connections: which of an id is in it.
use fidorix.Base.{ℕ, ◌≡◌, ◌≢◌, refl, ◌⊎◌, Option, none, some, [], ◌∷◌, ◌==◌, arith, if◌then◌else◌}
use fidorix.Orderbook.Websocket.{Conns, register_connection, unregister_connection}

abbrev pub conn_of : ℕ → Conns → Option ℕ
conn_of id [] = none
conn_of id ((i, c) ∷ conns) = if i == id then some c else conn_of id conns

-- Behind a registration its id has the new connection, and no other id has changed.
pub conn_of-register_connection :
    (id j conn : ℕ) (conns : Conns)
    → conn_of j (register_connection id conn conns)
      ≡ (if id == j then some conn else conn_of j conns)
unfolding register_connection
conn_of-register_connection id j conn [] = refl
conn_of-register_connection id j conn ((i, c) ∷ conns) =
    ground (arith, conn_of-register_connection id j conn conns)

-- An old connection that is unregistered late does not take the newer one of its id away, and none
-- of another id.
pub conn_of-unregister_connection :
    (id j conn : ℕ) (conns : Conns)
    → ((id ≢ j) → conn_of j (unregister_connection id conn conns) ≡ conn_of j conns)
      × ((conn_of id conns ≢ some conn) → unregister_connection id conn conns ≡ conns)
unfolding unregister_connection
conn_of-unregister_connection id j conn [] = (λ ne. refl, λ ne. refl)
conn_of-unregister_connection id j conn ((i, c) ∷ conns) =
    let (others, stale) = conn_of-unregister_connection id j conn conns in
    (λ ne. ground arith, λ ne. ground arith)

-- No id stands twice.
abbrev pub Once : Conns → Type 0
Once [] = Unit
Once ((i, c) ∷ conns) = (conn_of i conns ≡ none) × Once conns

pub register_connection-Once :
    (id conn : ℕ) (conns : Conns) → Once conns → Once (register_connection id conn conns)
unfolding register_connection
register_connection-Once id conn [] h = (refl, tt)
register_connection-Once id conn ((i, c) ∷ conns) h =
    ground (
      arith,
      register_connection-Once id conn conns h.1,
      conn_of-register_connection id i conn conns,
    )

pub unregister_connection-Once :
    (id conn : ℕ) (conns : Conns) → Once conns → Once (unregister_connection id conn conns)
unfolding unregister_connection
unregister_connection-Once id conn [] h = tt
unregister_connection-Once id conn ((i, c) ∷ conns) h = ground (
  arith,
  unregister_connection-Once id conn conns h.1,
  (conn_of-unregister_connection id i conn conns).0,
)

-- An id whose connection is unregistered is not in the registry any more.
pub conn_of-unregister_connection_self :
    (id conn : ℕ) (conns : Conns)
    → Once conns
    → (conn_of id conns ≡ none) ⊎ (conn_of id conns ≡ some conn)
    → conn_of id (unregister_connection id conn conns) ≡ none
unfolding unregister_connection
conn_of-unregister_connection_self id conn [] h e = refl
conn_of-unregister_connection_self id conn ((i, c) ∷ conns) h e =
    ground (arith, conn_of-unregister_connection_self id conn conns h.1)
