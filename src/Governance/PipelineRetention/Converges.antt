-- ===== src/Governance/PipelineRetention/Converges.antt =====
-- internal/governance/pipelineretention.go: once applied, the policy has nothing left to change.
use gitlab_fleet_governor.Common.{
  Option, some, none, List, ◌≡◌, refl, arith, ◌==◌, Option-cases, Bool-cases, inl, inr,
}
use gitlab_fleet_governor.Common.Int.{ℤ, int_eq, int_beq_iff}
use gitlab_fleet_governor.Resources.{Project}
use gitlab_fleet_governor.Common.Text.{Text}
use gitlab_fleet_governor.Governance.Operation.{
  Error, Reply, ok, fail, ApplyResult, new_plan_result, new_noop_plan_result,
}
use gitlab_fleet_governor.Governance.PipelineRetention.{
  RetentionClient, seconds, noop_plan, update_plan, plan_answered, settled, apply_planned,
  plan_retention, apply_retention,
}

-- A server that answers what it was last told.
pub record IsStore {World : Type 0} (client : RetentionClient World) : Type 0 where
  pub kept :
      (id n : ℤ) (w w' : World)
      → client.get_retention id w ≡ (ok n, w')
      → (client.get_retention id w').0 ≡ ok n
  pub written :
      (id n : ℤ) (w w' : World)
      → client.set_retention id n w ≡ (none, w')
      → (client.get_retention id w').0 ≡ ok n

module _ {World : Type 0} (client : RetentionClient World) (decimal : ℤ → Text) where
  answered-noop :
      (p : Project) (days : ℤ) (answer : Reply ℤ × World)
      → answer.0 ≡ ok (seconds days)
      → (plan_answered client decimal p days answer).0 ≡ (some (noop_plan client decimal p), none)
  unfolding plan_answered
  answered-noop p days (fail e, w) h = ground (arith, h)
  answered-noop p days (ok n, w) h = ground (arith, h, int_beq_iff n (seconds days))

  settled-written :
      (p : Project) (diffs : List _) (answer : Option Error × World) (ar : ApplyResult) (w1 : World)
      → settled client decimal p diffs answer ≡ ((some ar, none), w1)
      → answer ≡ (none, w1)
  unfolding settled
  settled-written p diffs (none, w) ar w1 h = ground (arith, h)
  settled-written p diffs (some e, w) ar w1 h = ground (arith, h)

  planned-converges :
      (p : Project) (days : ℤ) (w : World) (answer : Reply ℤ × World) (ar : ApplyResult)
      (w1 : World)
      → IsStore client
      → client.get_retention p.id w ≡ answer
      → apply_planned client decimal p days (plan_answered client decimal p days answer)
        ≡ ((some ar, none), w1)
      → (client.get_retention p.id w1).0 ≡ ok (seconds days)
  unfolding apply_planned plan_answered new_plan_result new_noop_plan_result
  planned-converges p days w (fail e, w') ar w1 s g h = ground (arith, h)
  planned-converges p days w (ok n, w') ar w1 s g h = elim (Bool-cases (n == seconds days)) [
    | inl same ↦ ground (arith, same, h, int_beq_iff n (seconds days), s.kept p.id n w w' g)
    | inr differs ↦ s.written p.id (seconds days) w' w1 (
        settled-written p (update_plan client decimal p n days).diffs
          (client.set_retention p.id (seconds days) w') ar w1 (ground (arith, differs, h)))
  ]

  module _ {Config : Type 0} (days_of : Config → Option ℤ) where
    -- Where a server answers what it was last told, and applying the retention of pipelines to a project gives a
    -- result without an error, planning it next gives the result that nothing changes, whether or not the
    -- application had to change anything.
    pub apply_retention-converges :
        (p : Project) (cfg : Config) (w w1 : World) (ar : ApplyResult)
        → IsStore client
        → apply_retention client decimal days_of p cfg w ≡ ((some ar, none), w1)
        → (plan_retention client decimal days_of p cfg w1).0
          ≡ (some (noop_plan client decimal p), none)
    unfolding plan_retention apply_retention
    apply_retention-converges p cfg w w1 ar s h = elim (Option-cases (days_of cfg)) [
      | inl missing ↦ rw (missing, plan_retention) refl
      | inr (days, there) ↦
          rw (there, plan_retention)
            (answered-noop p days (client.get_retention p.id w1) (
              planned-converges p days w (client.get_retention p.id w) ar w1 s refl
                (ground (arith, there, h))))
    ]
