-- ===== src/Examples/Retention.antt =====
-- A run of the operation on the retention of pipelines.
use gitlab_fleet_governor.Common.{some, none, [], ◌∷◌, ◌≡◌, refl, arith}
use gitlab_fleet_governor.Common.Int.{ℤ, pos}
use gitlab_fleet_governor.Common.Text.{Text, codes}
use gitlab_fleet_governor.Governance.Operation.{
  ActionType, StatusType, ok, ApplyResult, new_plan_result,
}
use gitlab_fleet_governor.Governance.PipelineRetention.{
  RetentionClient, retention_diff, retention_result, noop_plan, plan_retention, apply_retention,
}
use gitlab_fleet_governor.Governance.PipelineRetention.Converges.{
  IsStore, apply_retention-converges,
}
use gitlab_fleet_governor.Gitlab.Transport.{wrap64}
use gitlab_fleet_governor.Examples.Samples.{widget}

-- A server with one project, whose world is the retention in seconds.
abbrev server : RetentionClient ℤ
server = record { get_retention = λ id w. (ok w, w); set_retention = λ id n w. (none, n) }

server-IsStore : IsStore server
server-IsStore = record {
  kept = λ id n w w' h. ground (arith, h);
  written = λ id n w w' h. ground (arith, h);
}

abbrev no_digits : ℤ → Text
no_digits n = codes "n"

-- From a day to thirty.
abbrev raised : ApplyResult
raised =
    retention_result server no_digits widget ActionType.update StatusType.success
      (retention_diff server no_digits (pos 86400) (pos 30) ∷ []) none

raised_once :
    apply_retention server no_digits (λ days. some days) widget (pos 30) (pos 86400)
    ≡ ((some raised, none), pos 2592000)
unfolding apply_retention wrap64 new_plan_result
raised_once = refl

apply_retention-converges_example :
    (plan_retention server no_digits (λ days. some days) widget (pos 30) (pos 2592000)).0
    ≡ (some (noop_plan server no_digits widget), none)
apply_retention-converges_example =
    apply_retention-converges server no_digits (λ days. some days) widget (pos 30) (pos 86400)
      (pos 2592000) raised server-IsStore raised_once
