-- ===== src/Orderbook/Websocket/Client/Closing.antt =====
-- Close and Wait: which sockets are open behind them.
use fidorix.Base.{
  ℕ, ◌≡◌, refl, sym, ◌∙◌, ap, subst, inl, inr, Bool, true, false, not, ◌&&◌, Option, none, some, [],
  arith, Bool-cases, Option-cases, Result,
}
use fidorix.Orderbook.Websocket.{WsConfig, ParseError, MessageType}
use fidorix.Orderbook.Websocket.Registry.{conn_of}
use fidorix.Orderbook.Websocket.Client.{
  Phase, absent, connecting, dialled, failed, waiting, subscribed, registered, reading, stopped,
  unregistered, over, exited, Client, new_client, is_registered, Step, Run,
}
use fidorix.Orderbook.Websocket.Client.Held.{is_registered_of_conn_of, conn_of-is_registered}
use fidorix.Orderbook.Websocket.Client.Sockets.{socket, listed, IsSound, new_client-Run}

-- Wait returns when this holds of every loop.
abbrev pub is_done : Phase → Bool
is_done absent = true
is_done exited = true
is_done _ = false

socket_of_is_done : (p : Phase) → is_done p ≡ true → (socket p ≡ none) × (listed p ≡ none)
socket_of_is_done absent e = (refl, refl)
socket_of_is_done exited e = (refl, refl)
socket_of_is_done (connecting once delay) e = cc
socket_of_is_done (dialled once delay c) e = cc
socket_of_is_done (failed once delay) e = cc
socket_of_is_done (waiting once delay) e = cc
socket_of_is_done (subscribed once c) e = cc
socket_of_is_done (registered once c) e = cc
socket_of_is_done (reading c) e = cc
socket_of_is_done (stopped c) e = cc
socket_of_is_done (unregistered c) e = cc
socket_of_is_done over e = cc

-- Both halves of Close, with nothing between.
abbrev pub close : {Event : Type 0} → Client Event → Client Event
close w = record w {
  cancelled = true;
  conns = [];
  is_open = λ c. w.is_open c && not (is_registered c w.conns);
}

none-ne-some : {c : ℕ} → none ≡ some c → ⊥
none-ne-some e = cc

module _ {B Event : Type 0} (cfg : WsConfig)
    (parse : MessageType → B → Result ParseError (Option Event)) where
  -- When every loop has exited, as Wait waits for, no socket is open and the registry is empty,
  -- whatever the network did and whenever Close was called.
  pub wait_closed :
      (w : Client Event)
      → Run cfg parse new_client w
      → ((id : ℕ) → is_done (w.phases id) ≡ true)
      → ((c : ℕ) → w.is_open c ≡ false) × ((id : ℕ) → conn_of id w.conns ≡ none)
  wait_closed w r done = (closed, empty)
    where
      h : IsSound w
      h = new_client-Run cfg parse r

      closed : (c : ℕ) → w.is_open c ≡ false
      closed c = elim (Bool-cases (w.is_open c)) [
        | inr e ↦ e
        | inl e ↦
            let (id, has) = h.held.owned c e in
            absurd (none-ne-some (sym (socket_of_is_done (w.phases id) (done id)).0 ∙ has))
      ]

      empty : (id : ℕ) → conn_of id w.conns ≡ none
      empty id = elim (Option-cases (conn_of id w.conns)) [
        | inl e ↦ e
        | inr (c, e) ↦
            absurd (
              none-ne-some
                (sym (socket_of_is_done (w.phases id) (done id)).1 ∙ h.held.known id c e))
      ]

  -- Close leaves a socket open only if its loop has not registered it yet, or has taken it out of
  -- the registry and is about to close it.
  pub is_open-close :
      (w : Client Event) (c : ℕ)
      → Run cfg parse new_client w
      → (close w).is_open c ≡ true
      → (id : ℕ) × (socket (w.phases id) ≡ some c) × (listed (w.phases id) ≡ none)
  is_open-close w c r e =
      let h : IsSound w = new_client-Run cfg parse r in
      let (id, has) = h.held.owned c (ground arith) in
      (
        id,
        has,
        elim (Option-cases (listed (w.phases id))) [
          | inl f ↦ f
          | inr (d, f) ↦
              let same : some d ≡ some c = sym (h.held.within id d f) ∙ has in
              absurd (
                shut (
                  is_registered_of_conn_of id c w.conns
                    (h.held.seen id c (f ∙ same) (ground arith))))
        ],
      )
    where
      shut : is_registered c w.conns ≡ true → ⊥
      shut f = ground arith

  -- A loop has sent its subscription when Close runs, and registers its connection behind it: then
  -- the client is cancelled and Close is over, and the loop reads from a socket that is open.
  pub register_race :
      (w : Client Event) (id c : ℕ) (once : Bool)
      → Run cfg parse new_client w
      → w.phases id ≡ subscribed once c
      → w.is_open c ≡ true
      → Run cfg parse w (close w)
        × ((v : Client Event) × Run cfg parse (close w) v
            × (v.cancelled ≡ true)
            × (v.phases id ≡ reading c)
            × (v.is_open c ≡ true))
  register_race w id c once r at up = (
    Run.next (Run.next Run.here Step.cancel) Step.close_conns,
    (
      _,
      Run.next (Run.next Run.here (Step.registers id once c at))
          (Step.begins id once c (ground arith)),
      refl,
      ground arith,
      ground (arith, unlisted),
    ),
  )
    where
      unlisted : is_registered c w.conns ≡ false
      unlisted = elim (Bool-cases (is_registered c w.conns)) [
        | inr e ↦ e
        | inl e ↦
            let h : IsSound w = new_client-Run cfg parse r in
            let (j, found) = conn_of-is_registered c w.conns h.held.once e in
            let there = h.held.known j c found in
            let same = h.held.single id j c (ap socket at) (h.held.within j c there) in
            absurd (
              none-ne-some
                (sym (ap listed at) ∙ subst (λ i. listed (w.phases i) ≡ some c) (sym same) there))
      ]
