-- ===== src/Api/Start/Closing.antt =====
-- What is open after a start that fails, and at the end.
use florist_core.Prelude.{◌≡◌, ◌⊎◌, inl, inr, refl, none, some, arith, sym, ◌∙◌, ap, Option-cases}
use florist_core.Kernel.Errors.{Error, Result, ok, err}
use florist_core.Kernel.Errors.Cases.{err≢ok}
use florist_core.Api.Config.{Config}
use florist_core.Api.Start.{
  PoolConfig, PgxConfig, Drivers, Open, Ending, exited, panicked, stopped, new_pool, new_client,
  main, pool_opened, pool_closed, client_opened, client_closed, limited, created, parsed,
  with_client, with_pool, default_config,
}

closed_again : (o : Open) → pool_closed (pool_opened o) ≡ o
closed_again o = ground arith

ended_again : (o : Open) → pool_closed (client_closed (client_opened (pool_opened o))) ≡ o
ended_again o = ground arith

left_open : (o : Open) → pool_closed (client_opened (pool_opened o)) ≡ client_opened o
left_open o = ground arith

module _ {C : Type 0} (d : Drivers C) where
  -- `NewPool` either answers a pool with the limits of the configuration, which is open, has answered the ping
  -- and has what else the text says, or an error, and then no pool is open that was not.
  IsPooled : PoolConfig → Open → Result (PgxConfig C) × Open → Type 0
  IsPooled cfg o (r, o') =
      ((pool_cfg : PgxConfig C) × (d.parse_config cfg.dsn ≡ ok pool_cfg)
        × (r ≡ ok (limited cfg pool_cfg))
        × (d.new_with_config (limited cfg pool_cfg) ≡ none)
        × (d.ping (limited cfg pool_cfg) ≡ none)
        × (o' ≡ pool_opened o))
      ⊎ ((e : Error) × (r ≡ err e) × (o' ≡ o))

  created-IsPooled :
      (cfg : PoolConfig) (o : Open) (pool_cfg : PgxConfig C)
      → d.parse_config cfg.dsn ≡ ok pool_cfg
      → IsPooled cfg o
          (created d (limited cfg pool_cfg) (d.new_with_config (limited cfg pool_cfg)) o)
  unfolding IsPooled
  created-IsPooled cfg o pool_cfg read =
      let pool = limited cfg pool_cfg in
      elim (Option-cases (d.new_with_config pool)) [
        | inr (e, none_made) ↦ rw none_made (inr (_, refl, refl))
        | inl made ↦ elim (Option-cases (d.ping pool)) [
          | inr (e, silent) ↦ rw (made, silent) (inr (_, refl, closed_again o))
          | inl answers ↦ rw (made, answers) (inl (pool_cfg, read, refl, made, answers, refl))
        ]
      ]

  parsed-IsPooled :
      (cfg : PoolConfig) (o : Open) (p : Result (PgxConfig C))
      → d.parse_config cfg.dsn ≡ p
      → IsPooled cfg o (parsed d cfg p o)
  unfolding IsPooled
  parsed-IsPooled cfg o (err e) read = inr (_, refl, refl)
  parsed-IsPooled cfg o (ok pool_cfg) read = created-IsPooled cfg o pool_cfg read

  -- What a run of the process comes to that got `p` of `NewPool`: how it ends, and what is open then.
  abbrev pub IsEnded : Config → Open → Result (PgxConfig C) × Open → Ending × Open → Type 0
  IsEnded cfg o p (ending, o') =
      ((ending ≡ exited) × ((e : Error) × (p.0 ≡ err e)) × (o' ≡ o))
      ⊎ ((p.1 ≡ pool_opened o)
          × (((ending ≡ panicked)
                × ((e : Error) × (d.redis_ping cfg.redis_addr ≡ some e))
                × (o' ≡ client_opened o))
              ⊎ ((d.redis_ping cfg.redis_addr ≡ none)
                  × (((ending ≡ exited)
                        × ((e : Error) × (d.serving ≡ some e))
                        × (o' ≡ client_opened (pool_opened o)))
                      ⊎ ((ending ≡ stopped) × (d.serving ≡ none) × (o' ≡ o))))))

  -- With the pool open.
  served :
      (cfg : Config) (o : Open) (pool : PgxConfig C) (p : Open)
      → p ≡ pool_opened o
      → IsEnded cfg o (ok pool, p) (with_client d (new_client d cfg.redis_addr p))
  unfolding new_client
  served cfg o pool p opened = elim (Option-cases (d.redis_ping cfg.redis_addr)) [
    | inl answers ↦ elim (Option-cases d.serving) [
      | inl quiet ↦
          rw (answers, quiet)
            (inr (
              opened,
              inr (
                refl,
                inr (
                  refl,
                  refl,
                  ap (λ z. pool_closed (client_closed (client_opened z))) opened ∙ ended_again o,
                ),
              ),
            ))
      | inr (e, failed) ↦
          rw (answers, failed)
            (inr (opened, inr (refl, inl (refl, (e, refl), ap client_opened opened))))
    ]
    | inr (e, silent) ↦ rw silent (
        inr (
          opened,
          inl (refl, (e, refl), ap (λ z. pool_closed (client_opened z)) opened ∙ left_open o),
        ))
  ]

  with_pool-IsEnded :
      (cfg : Config) (o : Open) (p : Result (PgxConfig C) × Open)
      → IsPooled (default_config cfg.dsn) o p
      → IsEnded cfg o p (with_pool d cfg p)
  unfolding IsPooled new_client
  with_pool-IsEnded cfg o (ok pool, p) (inl (_, _, _, _, _, opened)) = served cfg o pool p opened
  with_pool-IsEnded cfg o (ok pool, p) (inr (e, r, _)) = absurd (err≢ok (sym r))
  with_pool-IsEnded cfg o (err e, p) (inl (_, _, r, _, _, _)) = absurd (err≢ok r)
  with_pool-IsEnded cfg o (err e, p) (inr (_, _, same)) = inl (refl, (e, refl), same)

  -- The process ends with the code 1 where `NewPool` answers an error, and then nothing is open that was not; with a
  -- panic where Redis does not answer the ping, and then the pool is closed and the client of Redis
  -- is open, since `NewClient` does not close it; with the code 1 where the server fails, and then the
  -- pool and the client are both open; and otherwise after the signal, with both closed.
  pub main_closes :
      (cfg : Config) (o : Open)
      → IsEnded cfg o (new_pool d (default_config cfg.dsn) o) (main d cfg o)
  unfolding main new_pool
  main_closes cfg o =
      let pool = default_config cfg.dsn in
      with_pool-IsEnded cfg o (new_pool d pool o)
        (parsed-IsPooled pool o (d.parse_config pool.dsn) refl)
