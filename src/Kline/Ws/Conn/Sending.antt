-- ===== src/Kline/Ws/Conn/Sending.antt =====
-- sendJSON and pingLoop of kline/internal/ws/conn.go.
use fidorix.Base.{
  ℕ, suc, ◌*◌, ◌≡◌, length, Option-cases, refl, ◌⊎◌, inl, inr, Bool, Option, none, some, List, [],
  ◌∷◌, if◌then◌else◌, ℤ, pos, leb_ℤ, pos_part,
}
use fidorix.Kline.Ws.Conn.{Handle, second, close}

pub data SendError : Type 0 where
  not_established : SendError
  deadline_error : SendError
  write_error : SendError

-- Whether the two calls on the socket succeed.
pub record Socket : Type 0 where
  pub sets_deadline : Bool
  pub writes : Bool

unfoldable pub send_json : Socket → Handle → Option SendError
send_json s c =
    if c.connected
    then (if s.sets_deadline
        then (if s.writes then none else some write_error)
        else some deadline_error)
    else some not_established

abbrev pub ping_interval : ℤ → ℕ
ping_interval interval = if leb_ℤ interval (pos 0) then 15 * second else pos_part interval

-- The connection behind pingLoop over its ticks, and the pings that went out. The list ends where
-- the context is cancelled.
abbrev pub after_ping : Handle → Option SendError → Handle × ℕ → Handle × ℕ
after_ping c none (later, n) = (later, suc n)
after_ping c (some e) later = (close c, 0)

unfoldable pub ping_loop : List Socket → Handle → Handle × ℕ
unfolding send_json
ping_loop [] c = (c, 0)
ping_loop (s ∷ ticks) c = let later = ping_loop ticks c in after_ping c (send_json s c) later

-- The ping loop leaves the connection as it was, with a ping sent at every tick, or closes it.
pub ping_loop_result :
    (ticks : List Socket) (c : Handle)
    → (ping_loop ticks c ≡ (c, length ticks)) ⊎ ((ping_loop ticks c).0 ≡ close c)
unfolding ping_loop send_json
ping_loop_result [] c = inl refl
ping_loop_result (s ∷ ticks) c = elim (Option-cases (send_json s c)) [
  | inr (e, f) ↦ inr (rw f)
  | inl f ↦ elim (ping_loop_result ticks c) [
    | inl same ↦ inl (rw (f, same))
    | inr closed ↦ inr (rw f closed)
  ]
]
