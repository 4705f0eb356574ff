-- ===== src/Kline/Ws/Manager/Shards.antt =====
-- The connections carry every subscription once, and none carries more than its share.
use fidorix.Base.{
  ℕ, suc, ◌+◌, ◌-◌, ◌*◌, ◌/◌, ◌<◌, ◌≡◌, refl, ap, ◌∙◌, List, [], ◌∷◌, ◌++◌, map, arith, length,
  length-append, All, Text, chunks, flatten, flatten-chunks, IsChunk, chunks-IsChunk, length-chunks,
}
use fidorix.Kline.Symbol.{to_mexc}
use fidorix.Kline.Config.{Config, subscription_count}
use fidorix.Kline.Ws.Conn.{Subscription}
use fidorix.Kline.Ws.Manager.{
  Shard, subscription, subscriptions_of, shard_size_of, numbered, new_manager, connection_count,
  total_subscriptions,
}

-- The subscriptions of all the connections, in order.
abbrev pub carried : List Shard → List Subscription
carried [] = []
carried (conn ∷ conns) = conn.subscriptions ++ carried conns

carried-numbered : (n : ℕ) (cs : List (List Subscription)) → carried (numbered n cs) ≡ flatten cs
carried-numbered n [] = refl
carried-numbered n (c ∷ cs) = ap (λ ss. c ++ ss) (carried-numbered (suc n) cs)

shard_size-pos : (cfg : Config) → 0 < shard_size_of cfg
shard_size-pos cfg = ground arith

-- Together the connections carry exactly the symbol-interval pairs of the settings, in their order.
pub carried-new_manager :
    (cfg : Config) → carried (new_manager cfg) ≡ subscriptions_of cfg.symbols cfg.intervals
unfolding new_manager
carried-new_manager cfg =
    carried-numbered 1 (chunks (shard_size_of cfg) (subscriptions_of cfg.symbols cfg.intervals))
    ∙ flatten-chunks (shard_size_of cfg) (subscriptions_of cfg.symbols cfg.intervals)
        (shard_size-pos cfg)

-- Connection `k` of the list has the id `n + k`, some subscriptions, and `size` at most.
abbrev pub IsNumbered : ℕ → ℕ → List Shard → Type 0
IsNumbered size n [] = Unit
IsNumbered size n (conn ∷ conns) =
    (conn.id ≡ n) × IsChunk size conn.subscriptions × IsNumbered size (suc n) conns

numbered-IsNumbered :
    (size n : ℕ) (cs : List (List Subscription))
    → All (IsChunk size) cs
    → IsNumbered size n (numbered n cs)
numbered-IsNumbered size n [] h = tt
numbered-IsNumbered size n (c ∷ cs) h = (refl, h.0, numbered-IsNumbered size (suc n) cs h.1)

-- The connections have the ids 1, 2, 3 and on, each has a subscription, and none more than the shard
-- size, which is 50 where the settings give none.
pub new_manager-IsNumbered : (cfg : Config) → IsNumbered (shard_size_of cfg) 1 (new_manager cfg)
unfolding new_manager
new_manager-IsNumbered cfg =
    numbered-IsNumbered (shard_size_of cfg) 1 _
      (chunks-IsChunk (shard_size_of cfg) _ (shard_size-pos cfg))

total-carried : (conns : List Shard) → total_subscriptions conns ≡ length (carried conns)
unfolding total_subscriptions
total-carried [] = refl
total-carried (conn ∷ conns) =
    omega (arith, total-carried conns, length-append conn.subscriptions (carried conns))

length-map : (wire : Text) (is : List Text) → length (map (subscription wire) is) ≡ length is
length-map wire [] = refl
length-map wire (i ∷ is) = ap suc (length-map wire is)

length-subscriptions_of :
    (ss is : List Text) → length (subscriptions_of ss is) ≡ length ss * length is
unfolding subscriptions_of
length-subscriptions_of [] is = omega arith
length-subscriptions_of (s ∷ ss) is = omega (
  arith,
  length-append (map (subscription (to_mexc s)) is) (subscriptions_of ss is),
  length-map (to_mexc s) is,
  length-subscriptions_of ss is,
)

length-numbered : (n : ℕ) (cs : List (List Subscription)) → length (numbered n cs) ≡ length cs
length-numbered n [] = refl
length-numbered n (c ∷ cs) = ap suc (length-numbered (suc n) cs)

-- The manager's count of subscriptions is that of the settings, and its count of connections is
-- that number over the shard size, rounded up.
pub counts-new_manager :
    (cfg : Config)
    → (total_subscriptions (new_manager cfg) ≡ subscription_count cfg)
      × (connection_count (new_manager cfg)
          ≡ (subscription_count cfg + shard_size_of cfg - 1) / shard_size_of cfg)
unfolding subscription_count connection_count
counts-new_manager cfg =
    let subs = subscriptions_of cfg.symbols cfg.intervals in
    let size = shard_size_of cfg in
    (
      total-carried (new_manager cfg)
          ∙ ap length (carried-new_manager cfg)
          ∙ length-subscriptions_of cfg.symbols cfg.intervals,
      unfold new_manager in
          (length-numbered 1 (chunks size subs)
            ∙ length-chunks size subs (shard_size-pos cfg)
            ∙ ap (λ n. (n + size - 1) / size) (length-subscriptions_of cfg.symbols cfg.intervals)),
    )
