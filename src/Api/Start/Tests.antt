-- ===== src/Api/Start/Tests.antt =====
-- A start whose Redis does not answer.
use florist_core.Prelude.{◌≡◌, refl, String, none, some}
use florist_core.Prelude.Int.{pos}
use florist_core.Kernel.Errors.{ok, driver}
use florist_core.Api.Config.{Config}
use florist_core.Api.Start.{Drivers, Open, panicked, new_pool, default_config, main}
use florist_core.Api.Start.Closing.{IsEnded, main_closes}

abbrev drivers : Drivers String
drivers = record {
  parse_config = λ text. ok (record {
    max_conns = pos 4;
    min_conns = pos 0;
    max_conn_lifetime = pos 0;
    max_conn_idle_time = pos 0;
    rest = text;
  });
  new_with_config = λ _. none;
  ping = λ _. none;
  redis_ping = λ _. some driver;
  serving = none;
}

abbrev config : Config
config = record { dsn = "postgres://florist"; redis_addr = "localhost:6379"; port = pos 8080 }

abbrev nothing : Open
nothing = record { pools = 0; clients = 0 }

client_left : main drivers config nothing ≡ (panicked, record { pools = 0; clients = 1 })
unfolding main new_pool
client_left = refl

main_closes_example :
    IsEnded drivers config nothing
      (new_pool drivers (default_config config.dsn) nothing)
      (main drivers config nothing)
main_closes_example = main_closes drivers config nothing
