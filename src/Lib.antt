-- ===== src/Lib.antt =====
-- The core of florist-core, a backend for flower shops.
--
-- Parts. The kernel (internal/shared/kernel) has money, quantities and events. The inventory context
-- (internal/inventory) keeps batches of flowers with their stock and freshness in the table
-- inventory_batches; its handlers change a batch and publish its events in one transaction, but for a write-off. The
-- ordering context (internal/ordering) has orders with their life cycle, batches with allocations in
-- the tables batches and batch_allocations, and a handler that confirms an order against the
-- availability and reservation services. The storefront (internal/storefront) places an order as a
-- draft and has it confirmed. HTTP handlers call the application's ones and answer with a status.
-- Events go to the table outbox_events, from which a worker (internal/shared/postgres) hands
-- them to the handler in cmd/api/main.go, which has the freshness of the batches recalculated. The
-- production context (internal/production) has recipes and their cost.
--
-- Files, with the code that each follows:
--   Kernel/Errors: the `error` values of all packages.
--   Kernel/Money: internal/shared/kernel/money.go. Kernel/Types: internal/shared/kernel/types.go, ids.go,
--   events.go.
--   Db: internal/shared/infrastructure/postgres/tx_runner.go, over a session of the database.
--   Outbox/Table: migrations/004_outbox_events.up.sql. Outbox/Publisher:
--   internal/shared/postgres/event_publisher.go. Outbox/Worker: internal/shared/postgres/outbox_worker.go.
--   Inventory/Batch: internal/inventory/domain/batch.go, events.go. Inventory/Repository:
--   internal/inventory/infrastructure/postgres/batch_repository.go. Inventory/Recalc:
--   internal/inventory/application/recalc_freshness_handler.go. Inventory/Handlers:
--   internal/inventory/application/receive_batch.go, writeoff_batch.go.
--   Ordering/Order: internal/ordering/domain/order.go, events.go. Ordering/Allocation:
--   internal/ordering/domain/batch.go. Ordering/BatchTables, Ordering/Repository:
--   internal/ordering/infrastructure/postgres/batch_repository.go. Ordering/Confirm:
--   internal/ordering/application/confirm_order.go, repository.go. Ordering/OrderTables,
--   Ordering/OrderRepository: internal/ordering/infrastructure/postgres/order_repository.go, over the
--   tables of migrations/001_init.up.sql; Ordering/OrderRepository/Port fills the port of Ordering/Confirm.
--   Production/Cost: internal/production/domain/recipe.go, application/calc_cost.go, handlers.go.
--   Production/Recipes: internal/production/infrastructure/postgres/recipe_repository.go, over the tables of
--   migrations/002_production_recipes.up.sql.
--   Storefront/Catalog: internal/storefront/application/catalog.go. Storefront/Orders:
--   internal/storefront/application/place_order.go. Storefront/Reader:
--   internal/storefront/infrastructure/postgres/catalog_reader.go.
--   Outbox/Direct: internal/shared/infrastructure/outbox/publisher.go.
--   Http: what the handlers of requests use of net/http. Inventory/Http, Ordering/Http, Production/Http,
--   Storefront/Http: handlers.go in internal/inventory/http, internal/ordering/http,
--   internal/production/http, internal/storefront/http.
--   Api/Config: cmd/api/config.go. Api/Dispatch: the handler of events in cmd/api/main.go. Api/Start:
--   internal/shared/infrastructure/postgres/db.go, internal/shared/infrastructure/redis/client.go and the
--   start in cmd/api/main.go.
-- A function `NewX` is `new_x`, a method `M` of `*T` is `m`, taking the value last and returning the new
-- one beside the error.
--
-- Choices. An `int` or `int64` is an integer with `wrap64` after each operation, an `int32` one with
-- `wrap32`. A UUID is a number and a new one an argument, as is `time.Now()`; a time is in nanoseconds, and
-- in whole microseconds where the table of the inventory holds it. The clock of the handler of events is a
-- function of the runs so far. A Go map is a list of entries. A call that may fail answers with a `Result` or an `Option Error`. The
-- database is a session: what is committed, what the open transaction sees, and for each coming
-- statement whether the server carries it out, so that any pattern of failures is covered; after the
-- listed replies every statement is carried out. A commit that fails has committed nothing. The
-- statements are functions on the tables, with the order of their `ORDER BY`; that of equal rows and of
-- `RETURNING` is the table's. Loops are recursion on lists; the only count is the number of the worker's
-- ticks, which the backlog of tries bounds.
--
-- Not modelled. The wiring of the handlers in main, the requests that the server takes, its shutdown, logging and the
-- routes are glue.
-- internal/ordering/infrastructure/postgres/order_repository.go does not parse and uses fields and functions
-- that the domain does not have: it is read as it is meant, and those are arguments. So is the method
-- `WriteOff` that WriteOffBatchHandler calls and no type has.
pub mod Prelude
pub mod Kernel
pub mod Inventory
pub mod Ordering
pub mod Api
pub mod Production
pub mod Storefront
pub mod Outbox
pub mod Db
pub mod Http
