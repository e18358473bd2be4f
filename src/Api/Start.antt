-- ===== src/Api/Start.antt =====
-- The start and the end of the process: internal/shared/infrastructure/postgres/db.go,
-- internal/shared/infrastructure/redis/client.go and the first and last lines of `main` in cmd/api/main.go. What
-- pgxpool and go-redis answer is an argument; counted is what is open. `main` passes `NewPool` the text
-- `cfg.DSN` where it takes a `Config`: it is read as `DefaultConfig(cfg.DSN)`. The requests that the
-- server answers, its shutdown, the goroutine of the worker and the timeouts are left out.
pub mod Closing
mod Tests
use florist_core.Prelude.{ℕ, suc, ◌-◌, String, Option, none, some}
use florist_core.Prelude.Int.{ℤ, pos}
use florist_core.Kernel.Errors.{Error, Result, ok, err, wrapped}
use florist_core.Api.Config.{Config}

-- `Config` of db.go; a duration is in nanoseconds.
pub record PoolConfig : Type 0 where
  pub dsn : String
  pub max_conns : ℤ
  pub min_conns : ℤ
  pub max_conn_lifetime : ℤ
  pub max_conn_idle_time : ℤ
  pub connect_timeout : ℤ

unfoldable pub default_config : String → PoolConfig
default_config dsn = record {
  dsn = dsn;
  max_conns = pos 25;
  min_conns = pos 5;
  max_conn_lifetime = pos 1_800_000_000_000;
  max_conn_idle_time = pos 300_000_000_000;
  connect_timeout = pos 5_000_000_000;
}

-- `pgxpool.Config`, with what the text says besides the four fields that are set.
pub record PgxConfig (C : Type 0) : Type 0 where
  pub max_conns : ℤ
  pub min_conns : ℤ
  pub max_conn_lifetime : ℤ
  pub max_conn_idle_time : ℤ
  pub rest : C

-- `pgxpool.ParseConfig`, `pgxpool.NewWithConfig`, `pool.Ping` and `client.Ping`, where `none` is no error; and the
-- error but `ErrServerClosed` with which `ListenAndServe` ends before `main` returns, if it does.
pub record Drivers (C : Type 0) : Type 0 where
  pub parse_config : String → Result (PgxConfig C)
  pub new_with_config : PgxConfig C → Option Error
  pub ping : PgxConfig C → Option Error
  pub redis_ping : String → Option Error
  pub serving : Option Error

-- How many pools and clients are open.
pub record Open : Type 0 where
  pub pools : ℕ
  pub clients : ℕ

abbrev pub pool_opened : Open → Open
pool_opened o = record o { pools = suc o.pools }

abbrev pub pool_closed : Open → Open
pool_closed o = record o { pools = o.pools - 1 }

abbrev pub client_opened : Open → Open
client_opened o = record o { clients = suc o.clients }

abbrev pub client_closed : Open → Open
client_closed o = record o { clients = o.clients - 1 }

abbrev pub limited : {C : Type 0} → PoolConfig → PgxConfig C → PgxConfig C
limited cfg pool_cfg = record {
  max_conns = cfg.max_conns;
  min_conns = cfg.min_conns;
  max_conn_lifetime = cfg.max_conn_lifetime;
  max_conn_idle_time = cfg.max_conn_idle_time;
  rest = pool_cfg.rest;
}

-- How `main` ends: by `os.Exit(1)`, by a panic, or after the signal.
pub data Ending : Type 0 where
  exited panicked stopped : Ending

module _ {C : Type 0} (d : Drivers C) where
  -- `pool.Ping` and what follows. A pool is its configuration.
  abbrev pub pinged : PgxConfig C → Option Error → Open → Result (PgxConfig C) × Open
  pinged pool none o = (ok pool, o)
  pinged pool (some e) o = (err (wrapped "postgres: ping failed" e), pool_closed o)

  abbrev pub created : PgxConfig C → Option Error → Open → Result (PgxConfig C) × Open
  created pool none o = pinged pool (d.ping pool) (pool_opened o)
  created pool (some e) o = (err (wrapped "postgres: create pool" e), o)

  abbrev pub parsed : PoolConfig → Result (PgxConfig C) → Open → Result (PgxConfig C) × Open
  parsed cfg (err e) o = (err (wrapped "postgres: parse config" e), o)
  parsed cfg (ok pool_cfg) o =
      let pool = limited cfg pool_cfg in created pool (d.new_with_config pool) o

  unfoldable pub new_pool : PoolConfig → Open → Result (PgxConfig C) × Open
  new_pool cfg o = parsed cfg (d.parse_config cfg.dsn) o

  abbrev pub client_pinged : String → Option Error → Open → Result String × Open
  client_pinged addr none o = (ok addr, o)
  client_pinged addr (some e) o = (err (wrapped "redis ping failed" e), o)

  -- A client is its address.
  unfoldable pub new_client : String → Open → Result String × Open
  new_client addr o = client_pinged addr (d.redis_ping addr) (client_opened o)

  -- The server, with a pool and a client open: its error ends the process by `os.Exit(1)`, which runs no deferred
  -- call.
  abbrev pub serve : Option Error → Open → Ending × Open
  serve none o = (stopped, pool_closed (client_closed o))
  serve (some _) o = (exited, o)

  -- `MustNewClient` and the deferred calls, with a pool open.
  abbrev pub with_client : Result String × Open → Ending × Open
  with_client (err _, o) = (panicked, pool_closed o)
  with_client (ok _, o) = serve d.serving o

  abbrev pub with_pool : Config → Result (PgxConfig C) × Open → Ending × Open
  with_pool cfg (err _, o) = (exited, o)
  with_pool cfg (ok _, o) = with_client (new_client cfg.redis_addr o)

  unfoldable pub main : Config → Open → Ending × Open
  unfolding new_pool new_client default_config
  main cfg o = with_pool cfg (new_pool (default_config cfg.dsn) o)
