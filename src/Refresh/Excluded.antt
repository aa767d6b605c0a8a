-- ===== src/Refresh/Excluded.antt =====
-- What `refreshSet` of apps/server/src/epochguard/refresh-planner.ts selects.
use epochguard.Prelude.{
  ℕ, String, ◌≡◌, ◌↔◌, refl, sym, ◌∙◌, inl, inr, false, not, List, [], ◌∷◌, map, arith, string_eq,
  filter, includes, ok, Result-cases, Member, Member-map, Member-filter, filter-Member, or_left,
  ◌≢◌, ◌==◌,
}
use text.Mathlib.TextEquality.{eq_iff}
use epochguard.Contract.States.{Role, roles}
use epochguard.Refresh.{RefreshEvidenceInterval}
use epochguard.Refresh.Owners.{interval_contains, check_evidence, refresh_set}

abbrev pub agents_of : List RefreshEvidenceInterval → List String
agents_of is = map (λ i. i.agent_id) is

abbrev pub missing : ℕ → List RefreshEvidenceInterval → List RefreshEvidenceInterval
missing head is = filter (λ i. not (interval_contains head i)) is

check_step :
    (r : Role) (rs : List Role) (seen : List String) (i : RefreshEvidenceInterval)
    (is : List RefreshEvidenceInterval)
    → check_evidence (r ∷ rs) seen (i ∷ is) ≡ ok tt
    → (includes seen i.agent_id ≡ false) × (check_evidence rs (i.agent_id ∷ seen) is ≡ ok tt)
unfolding check_evidence
check_step r rs seen i is h = ground arith

-- No agent of the evidence was seen before it.
unseen :
    (rs : List Role) (seen : List String) (is : List RefreshEvidenceInterval)
    (j : RefreshEvidenceInterval)
    → check_evidence rs seen is ≡ ok tt
    → Member j is
    → includes seen j.agent_id ≡ false
unfolding check_evidence
unseen rs seen [] j h m = absurd m
unseen [] seen (i ∷ is) j h m = cc
unseen (r ∷ rs) seen (i ∷ is) j h (inl same) = rw same ((check_step r rs seen i is h).0)
unseen (r ∷ rs) seen (i ∷ is) j h (inr m) =
    let later = unseen rs (i.agent_id ∷ seen) is j ((check_step r rs seen i is h).1) m in
    ground arith

seen_apart : (a b : String) (seen : List String) → includes (a ∷ seen) b ≡ false → a ≢ b
seen_apart a b seen h e =
    let differ = or_left (a == b) (includes seen b) h in let alike = (eq_iff a b).1 e in cc

-- Evidence that the loop admits has one interval to an agent.
pub one_interval :
    (rs : List Role) (seen : List String) (is : List RefreshEvidenceInterval)
    (i j : RefreshEvidenceInterval)
    → check_evidence rs seen is ≡ ok tt
    → Member i is
    → Member j is
    → i.agent_id ≡ j.agent_id
    → i ≡ j
unfolding check_evidence
one_interval rs seen [] i j h m n e = absurd m
one_interval [] seen (x ∷ is) i j h m n e = cc
one_interval (r ∷ rs) seen (x ∷ is) i j h (inl a) (inl b) e = a ∙ sym b
one_interval (r ∷ rs) seen (x ∷ is) i j h (inl a) (inr n) e =
    let fresh = unseen rs (x.agent_id ∷ seen) is j ((check_step r rs seen x is h).1) n in
    absurd (seen_apart x.agent_id j.agent_id seen fresh (rw (← a) e))
one_interval (r ∷ rs) seen (x ∷ is) i j h (inr m) (inl b) e =
    let fresh = unseen rs (x.agent_id ∷ seen) is i ((check_step r rs seen x is h).1) m in
    absurd (seen_apart x.agent_id i.agent_id seen fresh (rw (← b) (sym e)))
one_interval (r ∷ rs) seen (x ∷ is) i j h (inr m) (inr n) e =
    one_interval rs (x.agent_id ∷ seen) is i j ((check_step r rs seen x is h).1) m n e

Member-unmap :
    (is : List RefreshEvidenceInterval) (a : String)
    → Member a (agents_of is)
    → (i : RefreshEvidenceInterval) × Member i is × (a ≡ i.agent_id)
Member-unmap [] a m = absurd m
Member-unmap (i ∷ is) a (inl e) = (i, inl refl, e)
Member-unmap (i ∷ is) a (inr m) = let (j, n, e) = Member-unmap is a m in (j, inr n, e)

-- What `refresh_set` returns, and that its loop admitted the evidence.
pub refresh_set_facts :
    (head : ℕ) (evidence : List RefreshEvidenceInterval) (ids : List String)
    → refresh_set head evidence ≡ ok ids
    → (ids ≡ agents_of (missing head evidence)) × (check_evidence roles [] evidence ≡ ok tt)
unfolding refresh_set
refresh_set_facts head evidence ids h = elim (Result-cases (check_evidence roles [] evidence)) [
  | inr (_, e) ↦ absurd (ground arith)
  | inl (_, checked) ↦ (returned checked, checked)
]
  where
    returned : check_evidence roles [] evidence ≡ ok tt → ids ≡ agents_of (missing head evidence)
    returned checked = ground arith

-- Where refreshSet returns, an agent of the evidence is selected exactly if the interval of its
-- evidence does not contain the head, and every selected agent is an agent of the evidence.
pub refresh_set-Member :
    (head : ℕ) (evidence : List RefreshEvidenceInterval) (ids : List String)
    → refresh_set head evidence ≡ ok ids
    → ((i : RefreshEvidenceInterval)
        → Member i evidence
        → (Member i.agent_id ids ↔ (interval_contains head i ≡ false)))
      × ((a : String)
          → Member a ids
          → (i : RefreshEvidenceInterval) × Member i evidence × (a ≡ i.agent_id))
refresh_set-Member head evidence ids h =
    let (selected, checked) = refresh_set_facts head evidence ids h in
    (
      λ i m. (
        λ chosen.
            let (j, n, e) =
              Member-unmap (missing head evidence) i.agent_id (rw (← selected) chosen) in
            let (there, missed) =
              Member-filter (λ i. not (interval_contains head i)) j evidence n in
            let same = one_interval roles [] evidence i j checked m there e in
            rw same (ground (arith, missed)),
        λ missed. rw selected (
            Member-map (λ i. i.agent_id) (missing head evidence) i
              (filter-Member (λ i. not (interval_contains head i)) i evidence m (rw missed))),
      ),
      λ a m.
          let (j, n, e) = Member-unmap (missing head evidence) a (rw (← selected) m) in
          let (there, _) = Member-filter (λ i. not (interval_contains head i)) j evidence n in
          (j, there, e),
    )
