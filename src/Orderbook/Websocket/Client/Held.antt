-- ===== src/Orderbook/Websocket/Client/Held.antt =====
-- The sockets that are held: which loop has which, and what the registry says of them.
use std.Path.{fun_ext}
use fidorix.Base.{
  ℕ, suc, ◌<◌, ◌≡◌, sym, ◌∙◌, subst, Option-cases, inl, inr, Bool, true, false, not, ◌&&◌, ◌||◌,
  Option, none, some, [], ◌∷◌, ◌==◌, arith, Bool-cases, if◌then◌else◌,
}
use fidorix.Orderbook.Websocket.{Conns, register_connection, unregister_connection}
use fidorix.Orderbook.Websocket.Registry.{
  conn_of, conn_of-register_connection, conn_of-unregister_connection, Once,
  register_connection-Once, unregister_connection-Once, conn_of-unregister_connection_self,
}
use fidorix.Orderbook.Websocket.Client.{is_registered}

pub is_registered_of_conn_of :
    (id c : ℕ) (conns : Conns) → conn_of id conns ≡ some c → is_registered c conns ≡ true
is_registered_of_conn_of id c [] e = cc
is_registered_of_conn_of id c ((i, d) ∷ conns) e =
    ground (arith, is_registered_of_conn_of id c conns)

pub conn_of-is_registered :
    (c : ℕ) (conns : Conns)
    → Once conns
    → is_registered c conns ≡ true
    → (id : ℕ) × (conn_of id conns ≡ some c)
conn_of-is_registered c [] h e = cc
conn_of-is_registered c ((i, d) ∷ conns) h e = elim (Bool-cases (d == c)) [
  | inl y ↦ (i, ground arith)
  | inr n ↦ let (id, found) = conn_of-is_registered c conns h.1 (ground arith) in (id, ground arith)
]

abbrev pub at_id : ℕ → Option ℕ → (ℕ → Option ℕ) → ℕ → Option ℕ
at_id id o f i = if id == i then o else f i

-- `has` gives the socket of a loop, `listed` that which it has registered and not yet taken out.
-- Every open socket has a loop, none has two, and the registry has the socket of a loop under its id
-- as long as that is open.
pub record IsHeld (has listed : ℕ → Option ℕ) (conns : Conns) (made : ℕ) (is_open : ℕ → Bool)
    : Type 0 where
  pub once : Once conns
  pub within : (id c : ℕ) → listed id ≡ some c → has id ≡ some c
  pub fresh : (id c : ℕ) → has id ≡ some c → c < made
  pub single : (i j c : ℕ) → has i ≡ some c → has j ≡ some c → i ≡ j
  pub owned : (c : ℕ) → is_open c ≡ true → (id : ℕ) × (has id ≡ some c)
  pub known : (id c : ℕ) → conn_of id conns ≡ some c → listed id ≡ some c
  pub seen : (id c : ℕ) → listed id ≡ some c → is_open c ≡ true → conn_of id conns ≡ some c

-- Only the values of the two functions count.
pub same-IsHeld :
    {has has' listed listed' : ℕ → Option ℕ} {conns : Conns} {made : ℕ} {is_open : ℕ → Bool}
    → ((i : ℕ) → has i ≡ has' i)
    → ((i : ℕ) → listed i ≡ listed' i)
    → IsHeld has listed conns made is_open
    → IsHeld has' listed' conns made is_open
same-IsHeld {has} {has'} {listed} {listed'} {conns} {made} {is_open} e f h =
    subst (λ l. IsHeld has' l conns made is_open) (fun_ext f)
      (subst (λ g. IsHeld g listed conns made is_open) (fun_ext e) h)

module _ (has listed : ℕ → Option ℕ) (conns : Conns) (made : ℕ) (is_open : ℕ → Bool)
    (h : IsHeld has listed conns made is_open) where
  pub shut-IsHeld : (c : ℕ) → IsHeld has listed conns made (λ d. not (c == d) && is_open d)
  shut-IsHeld c = record {
    once = h.once;
    within = h.within;
    fresh = h.fresh;
    single = h.single;
    owned = λ d g. h.owned d (ground arith);
    known = h.known;
    seen = λ i d g k. h.seen i d g (ground arith);
  }

  -- Every connection of the registry is closed and taken out.
  pub clear-IsHeld : IsHeld has listed [] made (λ c. is_open c && not (is_registered c conns))
  clear-IsHeld = record {
    once = tt;
    within = h.within;
    fresh = h.fresh;
    single = h.single;
    owned = λ c g. h.owned c (ground arith);
    known = λ i c g. cc;
    seen = λ i c g k. ground (arith, h.seen i c g, is_registered_of_conn_of i c conns);
  }

  module _ (id : ℕ) where
    pub stay-IsHeld :
        (o l : Option ℕ)
        → has id ≡ o
        → listed id ≡ l
        → IsHeld (at_id id o has) (at_id id l listed) conns made is_open
    stay-IsHeld o l e f = record {
      once = h.once;
      within = λ i c g. ground (arith, h.within i c);
      fresh = λ i c g. ground (arith, h.fresh i c);
      single = λ i j c g k. ground (arith, h.single i j c);
      owned = λ c g. let (j, k) = h.owned c g in (j, ground arith);
      known = λ i c g. ground (arith, h.known i c);
      seen = λ i c g k. ground (arith, h.seen i c);
    }

    pub dial-IsHeld :
        has id ≡ none
        → listed id ≡ none
        → IsHeld
            (at_id id (some made) has)
            (at_id id none listed)
            conns
            (suc made)
            (λ d. (made == d) || is_open d)
    dial-IsHeld e f = record {
      once = h.once;
      within = λ i c g. ground (arith, h.within i c);
      fresh = λ i c g. ground (arith, h.fresh i c);
      single = λ i j c g k. ground (arith, h.single i j c, h.fresh i c, h.fresh j c);
      owned = λ c g. elim (Bool-cases (made == c)) [
        | inl y ↦ (id, ground arith)
        | inr n ↦ let (j, k) = h.owned c (ground arith) in (j, ground arith)
      ];
      known = λ i c g. ground (arith, h.known i c);
      seen = λ i c g k. ground (arith, h.seen i c, h.within i c, h.fresh i c);
    }

    pub register-IsHeld :
        (c : ℕ)
        → has id ≡ some c
        → listed id ≡ none
        → IsHeld
            (at_id id (some c) has)
            (at_id id (some c) listed)
            (register_connection id c conns)
            made
            is_open
    register-IsHeld c e f = record {
      once = register_connection-Once id c conns h.once;
      within = λ i d g. ground (arith, h.within i d);
      fresh = λ i d g. ground (arith, h.fresh i d);
      single = λ i j d g k. ground (arith, h.single i j d);
      owned = λ d g. let (j, k) = h.owned d g in (j, ground arith);
      known = λ i d g. ground (arith, h.known i d, conn_of-register_connection id i c conns);
      seen = λ i d g k. ground (arith, h.seen i d, conn_of-register_connection id i c conns);
    }

    pub unregister-IsHeld :
        (c : ℕ)
        → has id ≡ some c
        → listed id ≡ some c
        → IsHeld
            (at_id id (some c) has)
            (at_id id none listed)
            (unregister_connection id c conns)
            made
            is_open
    unregister-IsHeld c e f = record {
      once = unregister_connection-Once id c conns h.once;
      within = λ i d g. ground (arith, h.within i d);
      fresh = λ i d g. ground (arith, h.fresh i d);
      single = λ i j d g k. ground (arith, h.single i j d);
      owned = λ d g. let (j, k) = h.owned d g in (j, ground arith);
      known = λ i d g. elim (Bool-cases (id == i)) [
        | inl y ↦ absurd (none-ne-some (sym (gone (ground arith)) ∙ g))
        | inr n ↦ ground (arith, h.known i d, (conn_of-unregister_connection id i c conns).0)
      ];
      seen = λ i d g k. ground (arith, h.seen i d, (conn_of-unregister_connection id i c conns).0);
    }
      where
        none-ne-some : {d : ℕ} → none ≡ some d → ⊥
        none-ne-some e = cc

        gone : {i : ℕ} → id ≡ i → conn_of i (unregister_connection id c conns) ≡ none
        gone same =
            subst (λ i. conn_of i (unregister_connection id c conns) ≡ none) same
              (conn_of-unregister_connection_self id c conns h.once
                (elim (Option-cases (conn_of id conns)) [
                  | inl e ↦ inl e
                  | inr (d, e) ↦ inr (e ∙ sym (h.known id d e) ∙ f)
                ]))

    -- The loop lets go of its socket, which is closed.
    pub drop-IsHeld :
        (c : ℕ)
        → has id ≡ some c
        → listed id ≡ none
        → is_open c ≡ false
        → IsHeld (at_id id none has) (at_id id none listed) conns made is_open
    drop-IsHeld c e f closed = record {
      once = h.once;
      within = λ i d g. ground (arith, h.within i d);
      fresh = λ i d g. ground (arith, h.fresh i d);
      single = λ i j d g k. ground (arith, h.single i j d);
      owned = λ d g. let (j, k) = h.owned d g in (j, ground arith);
      known = λ i d g. ground (arith, h.known i d);
      seen = λ i d g k. ground (arith, h.seen i d);
    }
