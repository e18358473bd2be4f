-- ===== src/Outbox/Table.antt =====
-- Rows of `outbox_events` (migrations/004_outbox_events.up.sql). A payload is its JSON text.
use florist_core.Prelude.{ℕ, ◌≡◌, Bool, false, String, Option, List, [], ◌∷◌, ◌==◌, ◌||◌}
use florist_core.Kernel.Types.{Uuid, Time}

pub data Status : Type 0 where
  pending processing done failed : Status

pub record OutboxRow : Type 0 where
  pub id : Uuid
  pub aggregate_type : String
  pub aggregate_id : String
  pub event_type : String
  pub payload : String
  pub status : Status
  pub attempts : ℕ
  pub max_attempts : ℕ
  pub created_at : Time
  pub processed_at : Option Time

abbrev pub contains : ℕ → List ℕ → Bool
contains k [] = false
contains k (j ∷ js) = j == k || contains k js

abbrev pub ids : List OutboxRow → List Uuid
ids [] = []
ids (r ∷ rs) = r.id ∷ ids rs

-- The primary key: no identifier stands in two rows.
abbrev pub NodupIds : List OutboxRow → Type 0
NodupIds [] = Unit
NodupIds (r ∷ rs) = (contains r.id (ids rs) ≡ false) × NodupIds rs
