-- ===== src/View/Backed.antt =====
-- What the session view has checked of the Effects that it shows:
-- `assertEffectLedgerClosure` in apps/server/src/epochguard/session-view-builder.ts.
use epochguard.Prelude.{
  Bool, ◌≡◌, refl, inl, inr, true, false, some, List, [], ◌∷◌, sym, single-filter, arith,
  Bool-cases, filter, any, length, ok, ◌==◌, string_eq, nat_eq, option_eq, eq_of_beq, Member,
  filter-Member, single_of_Member, not_selected, filter_of_any,
}
use epochguard.Platform.{Platform}
use epochguard.Contract.RecordStates.{PermitState, permit_state_eq}
use epochguard.Contract.Records.{EpochSession}
use epochguard.Contract.Database.{EffectPermit, EffectRecord, EpochDatabase}
use epochguard.View.{
  assert_effect_ledger_closure, is_unclosed, is_stray, session_permits, session_effects,
  linked_effects, effect_mismatch,
}

-- The Permit behind an Effect that is shown.
pub record IsBacked (db : EpochDatabase) (s : EpochSession) (e : EffectRecord) (m : EffectPermit)
    : Type 0 where
  pub only_permit :
      filter
        (λ c. c.permit_id == e.permit_id)
        (filter (λ c. c.session_id == s.session_id) db.permits)
      ≡ m ∷ []
  pub only_effect : filter (λ c. c.permit_id == m.permit_id) db.effects ≡ e ∷ []
  pub status : m.status ≡ PermitState.consumed
  pub consumed : m.consumed_at ≡ some e.created_at
  pub action : e.action_hash ≡ s.action_hash
  pub key : e.idempotency_key ≡ s.action.idempotency_key
  pub dependencies : e.dependency_set_hash ≡ m.dependency_set_hash
  pub certificate : e.joint_validity_certificate_id ≡ m.joint_validity_certificate_id

module _ {A : Type 0} where
  none_of_Member :
      (q : A → Bool) (xs : List A) (x : A) → any q xs ≡ false → Member x xs → q x ≡ false
  none_of_Member q xs x h m = not_selected q xs x (filter_of_any q xs h) m

  one_of_length : (xs : List A) → length xs ≡ 1 → (x : A) × (xs ≡ x ∷ [])
  one_of_length [] h = absurd (omega arith)
  one_of_length (x ∷ []) h = (x, refl)
  one_of_length (x ∷ y ∷ xs) h = absurd (omega arith)

  linked_length : (xs : List A) (x : A) → length xs ≡ 0 → Member x xs → ⊥
  linked_length [] x h m = absurd m
  linked_length (y ∷ xs) x h m = absurd (omega (arith, h))

module _ (p : Platform) (db : EpochDatabase) (s : EpochSession) where
  -- One linked Effect of a Permit that the loop passes.
  closed_effect :
      (e : EffectRecord) (m : EffectPermit)
      → is_unclosed p db s m ≡ false
      → Member e (linked_effects p db s m)
      → (m.status ≡ PermitState.consumed) × (linked_effects p db s m ≡ e ∷ [])
  unfolding is_unclosed
  closed_effect e m h linked = elim (Bool-cases (m.status == PermitState.consumed)) [
    | inl c ↦
        let one : length (linked_effects p db s m) ≡ 1 = ground arith in
        (
          (permit_state_eq.beq_iff m.status PermitState.consumed).0 c,
          single_of_Member _ e one linked,
        )
    | inr c ↦
        let zero : length (linked_effects p db s m) ≡ 0 = ground arith in
        absurd (linked_length _ e zero linked)
  ]

  closed_effect-eq :
      (e : EffectRecord) (m : EffectPermit)
      → is_unclosed p db s m ≡ false
      → linked_effects p db s m ≡ e ∷ []
      → effect_mismatch p db s m (e ∷ []) ≡ false
  unfolding is_unclosed
  closed_effect-eq e m h one =
      let last : effect_mismatch p db s m (linked_effects p db s m) ≡ false = ground arith in
      rw one at last

  closure_checks :
      assert_effect_ledger_closure p db s ≡ ok tt
      → (any (is_unclosed p db s) (session_permits p db s) ≡ false)
        × (any (is_stray p db s) (session_effects p db s) ≡ false)
  unfolding assert_effect_ledger_closure
  closure_checks h = elim (Bool-cases (any (is_unclosed p db s) (session_permits p db s))) [
    | inl bad ↦ absurd (ground arith)
    | inr fine ↦ elim (Bool-cases (any (is_stray p db s) (session_effects p db s))) [
      | inl bad ↦ absurd (ground arith)
      | inr none_stray ↦ (fine, none_stray)
    ]
  ]

  not_stray :
      (e : EffectRecord)
      → is_stray p db s e ≡ false
      → length (filter (λ c. c.permit_id == e.permit_id) (session_permits p db s)) ≡ 1
  unfolding is_stray
  not_stray e h = ground arith

  -- The facts that the comparison with its Permit gives of an Effect.
  backed :
      (e : EffectRecord) (m : EffectPermit)
      → effect_mismatch p db s m (e ∷ []) ≡ false
      → filter (λ c. c.permit_id == e.permit_id) (session_permits p db s) ≡ m ∷ []
      → linked_effects p db s m ≡ e ∷ []
      → m.status ≡ PermitState.consumed
      → IsBacked db s e m
  backed e m h permits effects status = record {
    only_permit = permits;
    only_effect = effects;
    status = status;
    consumed = sym (eq_of_beq (some e.created_at) m.consumed_at (ground arith));
    action = eq_of_beq e.action_hash s.action_hash (ground arith);
    key = eq_of_beq e.idempotency_key s.action.idempotency_key (ground arith);
    dependencies = eq_of_beq e.dependency_set_hash m.dependency_set_hash (ground arith);
    certificate =
        eq_of_beq e.joint_validity_certificate_id m.joint_validity_certificate_id (ground arith);
  }

  -- Where `assertEffectLedgerClosure` returns, every Effect of the Session is backed: of the Permits
  -- of the Session exactly one has the Effect's Permit identifier, that Permit is CONSUMED at the
  -- time at which the Effect was created, the Effect is the only one of that Permit in the database,
  -- it is of the Session's Action and idempotency key, and it has the Permit's dependencies and
  -- certificate.
  pub closure-IsBacked :
      (e : EffectRecord)
      → assert_effect_ledger_closure p db s ≡ ok tt
      → Member e db.effects
      → e.session_id ≡ s.session_id
      → (m : EffectPermit) × IsBacked db s e m
  closure-IsBacked e h listed own =
      let (closed, rest) = closure_checks h in
      let owned : (e.session_id == s.session_id) ≡ true =
        (string_eq.beq_iff e.session_id s.session_id).1 own in
      let stray =
        none_of_Member (is_stray p db s) (session_effects p db s) e rest
          (filter-Member (λ c. c.session_id == s.session_id) e db.effects listed owned) in
      let (m, only) = one_of_length _ (not_stray e stray) in
      let (held, same) =
        single-filter (λ c. c.permit_id == e.permit_id) (session_permits p db s) m (rw only refl) in
      let passed = none_of_Member (is_unclosed p db s) (session_permits p db s) m closed held in
      let link : (e.permit_id == m.permit_id) ≡ true =
        (string_eq.beq_iff e.permit_id m.permit_id).1
          (sym (eq_of_beq m.permit_id e.permit_id same)) in
      let (status, one) =
        closed_effect e m passed
          (filter-Member (λ c. c.permit_id == m.permit_id) e db.effects listed link) in
      (m, backed e m (closed_effect-eq e m passed one) only one status)
