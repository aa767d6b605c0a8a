-- ===== src/Refresh/Owners.antt =====
-- Which agents must observe again: `refreshSet`, `roleForAgent` and `requireP0BudgetOwner` of
-- apps/server/src/epochguard/refresh-planner.ts.
use epochguard.Prelude.{
  ℕ, String, Bool, true, false, not, ◌&&◌, ◌||◌, Option, none, some, List, [], ◌∷◌, map, leb, ltb,
  ◌==◌, ◌!=◌, string_eq, nat_eq, filter, includes, length, single, ok, err, ◌>>◌, throw_if, require,
}
use epochguard.Contract.States.{Role, roles, role_eq}
use epochguard.Contract.Identifiers.{is_safe}
use epochguard.Contract.Records.{EpochSession}
use epochguard.Decision.Binding.{frozen_agent_id}
use epochguard.Refresh.{RefreshEvidenceInterval, Invariant, Planned, invariant}

-- intervalContains
abbrev pub interval_contains : ℕ → RefreshEvidenceInterval → Bool
interval_contains head i =
    leb i.from head && elim i.until [ none ↦ true | some until ↦ ltb head until ]

abbrev pub bad_end : ℕ → Option ℕ → Bool
bad_end from none = false
bad_end from (some until) = not (is_safe until) || leb until from

-- The loop over the evidence in refreshSet; `seen` is the set of the agents so far.
unfoldable pub check_evidence :
    List Role → List String → List RefreshEvidenceInterval → Planned (Unit {0})
check_evidence expected seen [] = ok tt
check_evidence [] seen (i ∷ is) = err (invariant Invariant.order_of_roles)
check_evidence (r ∷ rs) seen (i ∷ is) = do
  throw_if (i.role != r) (invariant Invariant.order_of_roles)
  throw_if (includes seen i.agent_id) (invariant Invariant.distinct_owners)
  throw_if (not (is_safe i.from)) (invariant Invariant.interval_start)
  throw_if (bad_end i.from i.until) (invariant Invariant.interval_end)
  check_evidence rs (i.agent_id ∷ seen) is

-- refreshSet
unfoldable pub refresh_set : ℕ → List RefreshEvidenceInterval → Planned (List String)
refresh_set head evidence = do
  throw_if (not (is_safe head)) (invariant Invariant.unsafe_head)
  throw_if (length evidence != 3) (invariant Invariant.three_intervals)
  check_evidence roles [] evidence
  ok (map (λ i. i.agent_id) (filter (λ i. not (interval_contains head i)) evidence))

-- roleForAgent
unfoldable pub role_for_agent : EpochSession → String → Planned Role
role_for_agent s agent =
    require (single (filter (λ r. frozen_agent_id s r == agent) roles))
      (invariant Invariant.role_of_agent)

-- requireP0BudgetOwner
unfoldable pub require_budget_owner : EpochSession → List String → Planned String
require_budget_owner s (a ∷ []) = do
  throw_if (a != s.frozen_assignments.budget_agent_id) (invariant Invariant.budget_only)
  ok a
require_budget_owner s _ = err (invariant Invariant.budget_only)
