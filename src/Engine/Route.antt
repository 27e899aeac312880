-- ===== src/Engine/Route.antt =====
-- ROUTE_RUN of apps/backend/app/domain/pipelines/engine.py: the next stage, or the end of the run.
use yaaos.Prelude.{
  ℕ, ◌+◌, String, Bool, true, false, not, Option, none, some, ok, if◌then◌else◌, leb, or_else,
  length,
}
use yaaos.Engine.Rows.{failed, completed, cancelled, Task, RouteOutcome}
use yaaos.Engine.World.{World, Done, Services, is_running, enqueue}
use yaaos.Engine.Terminal.{finish_or_cleanup}

-- `_dispatch_stage`
unfoldable pub dispatch_stage : ℕ → World → World
unfolding enqueue
dispatch_stage i w =
    enqueue (Task.start_stage w.run.id (some i))
      (record w { run = record w.run { current_stage_index = some i } })

abbrev pub is_failure : Option RouteOutcome → Bool
is_failure (some RouteOutcome.failure) = true
is_failure _ = false

module _ (services : Services) where
  unfoldable pub route_next : ℕ → World → Done
  unfolding dispatch_stage
  route_next next_index w =
      if leb (length w.run.definition_snapshot.stages) next_index
      then finish_or_cleanup services completed none w
      else ok (dispatch_stage next_index w)

  -- `_route_run_impl`, at the run in hand
  unfoldable pub route_run_impl : Option ℕ → Option RouteOutcome → Option String → World → Done
  unfolding dispatch_stage route_next
  route_run_impl completed_stage_index outcome reason w =
      if not (is_running w.run.state) then ok w else elim completed_stage_index [
        | none ↦ ok (dispatch_stage (or_else w.run.current_stage_index 0) w)
        | some done ↦
            if is_failure outcome
            then finish_or_cleanup services failed reason w
            else if w.run.cancel_requested
            then finish_or_cleanup services cancelled none w
            else route_next (done + 1) w
      ]
