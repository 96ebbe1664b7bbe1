-- ===== src/Governance/Registry/Registered.antt =====
-- The operations that registry.go registers one after the other, and the order it runs them in.
use gitlab_fleet_governor.Common.{List, map}
use gitlab_fleet_governor.Common.Text.{Text, text_eq}
use gitlab_fleet_governor.Governance.Operation.{Operation}

module _ {Config World : Type 0} where
  abbrev names : List (Operation Config World) → List Text
  names = map (λ (op : Operation Config World). op.name)
