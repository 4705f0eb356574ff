-- ===== src/Orderbook/Websocket/Reconnect.antt =====
-- connectWithBackoff: when it ends, and the delays between its attempts.
use fidorix.Base.{
  ℕ, zero, suc, ◌-◌, ◌^◌, ◌≡◌, refl, ap, inl, inr, true, false, Bool-cases, none, some,
  Option-cases, List, [], ◌∷◌, arith, length, All, ℤ, pos, ◌≤ℤ◌, ◌*ℤ◌, wrap64, wrap64_of_IsInt64,
}
use fidorix.Orderbook.Websocket.{
  WsConfig, min_ℤ, Attempt, connected, connect_from, connect_with_backoff,
}

-- Between the delay of the configuration and its maximum.
abbrev pub IsDelay : WsConfig → ℤ → Type 0
IsDelay cfg d = (cfg.reconnect_delay_sec ≤ℤ d) × (d ≤ℤ cfg.max_reconnect_delay_sec)

next-IsDelay :
    (cfg : WsConfig) (d : ℤ)
    → pos 1 ≤ℤ cfg.reconnect_delay_sec
    → cfg.max_reconnect_delay_sec ≤ℤ pos (2 ^ 62 - 1)
    → IsDelay cfg d
    → IsDelay cfg (min_ℤ (wrap64 (d *ℤ pos 2)) cfg.max_reconnect_delay_sec)
next-IsDelay cfg d one most h =
    let whole : wrap64 (d *ℤ pos 2) ≡ d *ℤ pos 2 =
      wrap64_of_IsInt64 (d *ℤ pos 2) (unfold ◌*ℤ◌ in ground arith) in
    rw whole (unfold ◌*ℤ◌ in ground arith)

module _ (cfg : WsConfig) (one : pos 1 ≤ℤ cfg.reconnect_delay_sec)
    (ordered : cfg.reconnect_delay_sec ≤ℤ cfg.max_reconnect_delay_sec)
    (most : cfg.max_reconnect_delay_sec ≤ℤ pos (2 ^ 62 - 1)) where
  connect_from-IsDelay :
      (attempts : List Attempt) (d : ℤ)
      → IsDelay cfg d
      → All (IsDelay cfg) (connect_from cfg d attempts).1
  unfolding connect_from
  connect_from-IsDelay [] d h = tt
  connect_from-IsDelay (a ∷ more) d h =
      let later = connect_from-IsDelay more _ (next-IsDelay cfg d one most h) in
      elim (Option-cases a.connects) [
        | inr (c, e) ↦ simp e tt
        | inl e ↦ simp e (elim (Bool-cases a.cancelled) [
          | inl b ↦ simp b tt
          | inr b ↦
              simp b
                (elim (Bool-cases a.waits) [ inl w ↦ simp w (h, later) | inr w ↦ simp w (h, tt) ])
        ])
      ]

  -- Every delay is between the configured one and the maximum, if the maximum is below 2 ^ 62: then
  -- no doubling overflows.
  pub connect_with_backoff-IsDelay :
      (attempts : List Attempt) → All (IsDelay cfg) (connect_with_backoff cfg attempts).1
  unfolding connect_with_backoff
  connect_with_backoff-IsDelay attempts =
      connect_from-IsDelay attempts cfg.reconnect_delay_sec (omega arith, ordered)

-- An attempt that fails while nothing stops the client.
abbrev pub failure : Attempt
failure = record { connects = none; cancelled = false; waits = true }

abbrev pub failures : ℕ → List Attempt → List Attempt
failures zero more = more
failures (suc k) more = failure ∷ failures k more

connect_from-failures :
    (cfg : WsConfig) (k : ℕ) (a : Attempt) (more : List Attempt) (c : ℕ) (d : ℤ)
    → a.connects ≡ some c
    → ((connect_from cfg d (failures k (a ∷ more))).0 ≡ connected c)
      × (length (connect_from cfg d (failures k (a ∷ more))).1 ≡ k)
unfolding connect_from
connect_from-failures cfg zero a more c d e = simp e (refl, refl)
connect_from-failures cfg (suc k) a more c d e =
    let (found, count) = connect_from-failures cfg k a more c _ e in (found, ap suc count)

-- However many attempts fail, the client goes on, with one delay behind each, and returns the first
-- connection that it gets.
pub connect_with_backoff-failures :
    (cfg : WsConfig) (k : ℕ) (a : Attempt) (more : List Attempt) (c : ℕ)
    → a.connects ≡ some c
    → ((connect_with_backoff cfg (failures k (a ∷ more))).0 ≡ connected c)
      × (length (connect_with_backoff cfg (failures k (a ∷ more))).1 ≡ k)
unfolding connect_with_backoff
connect_with_backoff-failures cfg k a more c e =
    connect_from-failures cfg k a more c cfg.reconnect_delay_sec e
