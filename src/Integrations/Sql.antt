-- ===== src/Integrations/Sql.antt =====
-- integrations/sql/sql.go: the observer of SQL queries. Its service is that of the world.
use go_clockwork.Prelude.{ℕ, Option, none, some, List, if◌then◌else◌, Text, codes, ℤ, ltb_ℤ}
use go_clockwork.Runtime.{Runtime}
use go_clockwork.Frames.{Frame}
use go_clockwork.Config.{or_text, or_positive}
use go_clockwork.Collector.Methods.{add_database_query_detailed}
use go_clockwork.Service.{World, is_enabled, call_on}

-- `Observation`
pub record Observation : Type 0 where
  pub operation : Text
  pub query : Text
  pub duration : ℤ
  pub connection : Text
  pub model : Text
  pub file : Text
  pub line : ℤ

-- `Observer`
pub record Observer : Type 0 where
  pub slow_query_threshold : ℤ

module _ {F O S : Type 0} where
  -- `NewObserver`; `none` is a nil observer.
  unfoldable pub new_observer : World F O S → ℤ → Option Observer
  new_observer w threshold =
      if is_enabled w
      then some (record {
        slow_query_threshold = or_positive threshold w.service.config.slow_query_threshold;
      })
      else none

module _ {F O S : Type 0} (rt : Runtime F O) where
  -- `OnQuery`, with the collector of the context: `now` and `stack` are what the collector reads.
  unfoldable pub on_query :
      Option Observer → Option ℕ → Observation → ℤ → List Frame → World F O S → World F O S
  on_query none context o now stack w = w
  on_query (some observer) none o now stack w = w
  on_query (some observer) (some p) o now stack w =
      let query = or_text o.query o.operation in
      let connection = or_text o.connection (codes "sql") in
      let slow = ltb_ℤ observer.slow_query_threshold o.duration in
      call_on p
        (add_database_query_detailed rt query o.duration connection slow o.model o.file o.line now
          stack)
        w
