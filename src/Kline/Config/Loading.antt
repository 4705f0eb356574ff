-- ===== src/Kline/Config/Loading.antt =====
-- What Load guarantees of the settings that it returns.
use fidorix.Base.{
  is_empty, false, lookup, text_eq, ◌≡◌, ◌≢◌, ◌⊎◌, subst, refl, sym, inl, inr, Option, none, List,
  [], ◌∷◌, arith, All, ℤ, pos, ◌≤ℤ◌, Text, codes, CaseTables, ok, err,
}
use fidorix.Kline.Config.{
  Config, ConfigError, Environment, Dotenv, loaded, missing, failed, getenv, parse_symbols,
  required, intervals, interval_seconds, load_env, load,
}
use fidorix.Kline.Config.Symbols.{IsSymbol, parse_symbols-IsSymbol}

-- The settings that the rest of the service counts on.
pub record IsUsable (c : Config) : Type 0 where
  pub some_symbol : c.symbols ≢ []
  pub symbols : All IsSymbol c.symbols
  pub workers : pos 1 ≤ℤ c.bootstrap_workers
  pub shards : pos 1 ≤ℤ c.shard_size
  pub dir : is_empty c.kline_dir ≡ false
  pub all_intervals : c.intervals ≡ intervals

required-eq-ok : (ss : List Text) (rs : List Text) → required ss ≡ ok rs → (rs ≡ ss) × (rs ≢ [])
required-eq-ok [] rs h = cc
required-eq-ok (s ∷ ss) rs h = ground arith

module _ (u : CaseTables) (parse_duration : Text → Option ℤ) (env : Environment) (c : Config)
    (done : load_env u parse_duration env ≡ ok c) where
  symbols-load_env : c.symbols ≡ parse_symbols (getenv env (codes "SYMBOLS"))
  unfolding load_env
  symbols-load_env = ground arith

  load_env-IsUsable : IsUsable c
  unfolding load_env
  load_env-IsUsable = record {
    some_symbol = ground arith;
    symbols =
        subst (All IsSymbol) (sym symbols-load_env)
          (parse_symbols-IsSymbol (getenv env (codes "SYMBOLS")));
    workers = ground arith;
    shards = ground arith;
    dir = ground arith;
    all_intervals = ground arith;
  }

-- Settings that Load returns have a symbol, and only clean ones, at least one worker and one
-- subscription to a shard, a directory, and all the intervals.
pub load-IsUsable :
    (u : CaseTables) (parse_duration : Text → Option ℤ) (dotenv : Environment → Dotenv)
    (env : Environment) (c : Config)
    → load u parse_duration dotenv env ≡ ok c
    → IsUsable c
unfolding load
load-IsUsable u parse_duration dotenv env c h = elim (Dotenv-cases (dotenv env)) [
  | inl (env', e) ↦ load_env-IsUsable u parse_duration env' c (rw (e, load) at h)
  | inr (inl e) ↦ load_env-IsUsable u parse_duration env c (rw (e, load) at h)
  | inr (inr e) ↦ absurd (refused (rw (e, load) at h))
]
  where
    Dotenv-cases :
        (d : Dotenv) → ((e : Environment) × (d ≡ loaded e)) ⊎ ((d ≡ missing) ⊎ (d ≡ failed))
    Dotenv-cases (loaded e) = inl (e, refl)
    Dotenv-cases missing = inr (inl refl)
    Dotenv-cases failed = inr (inr refl)

    refused : {e : ConfigError} → err e ≡ ok c → ⊥
    refused h = cc

-- Every interval of the settings has its seconds: computeStart never refuses one.
pub intervals-supported : All (λ i. interval_seconds i ≢ none) intervals
unfolding interval_seconds lookup text_eq
intervals-supported = ground arith
