-- ===== src/Web/Logger.antt =====
-- web/src/lib/logger.ts: the leveled logger. A record is a list of fields whose values are texts; the
-- sink is not part of the model, so `emit` returns what the sink would receive.
pub mod Laws
use postal.Prelude.{ℕ, String, Option, none, some, List, [], ◌∷◌, ltb, if◌then◌else◌, merge, str_eq}

pub data LogLevel : Type 0 where
  debug info warn error : LogLevel

abbrev pub level_weight : LogLevel → ℕ
level_weight debug = 10
level_weight info = 20
level_weight warn = 30
level_weight error = 40

abbrev pub level_name : LogLevel → String
level_name debug = "debug"
level_name info = "info"
level_name warn = "warn"
level_name error = "error"

abbrev pub LogFields : Type 0
LogFields = List (String × String)

pub record Logger : Type 0 where
  pub min_weight : ℕ
  pub base : LogFields

-- The root logger, by `process.env.NODE_ENV`.
unfoldable pub logger : String → Logger
logger node_env = record {
  min_weight = if str_eq node_env "production" then level_weight info else level_weight debug;
  base = [];
}

-- `with`: a child logger
unfoldable pub with_fields : LogFields → Logger → Logger
with_fields fields l = record l { base = merge l.base fields }

-- `emit` at the time that `new Date().toISOString()` gives: the record for the sink, if any.
unfoldable pub emit : String → LogLevel → String → LogFields → Logger → Option LogFields
emit time level message fields l =
    if ltb (level_weight level) l.min_weight
    then none
    else some (
        merge
          (merge (("level", level_name level) ∷ ("message", message) ∷ ("time", time) ∷ []) l.base)
          fields)
