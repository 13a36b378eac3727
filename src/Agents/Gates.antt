-- ===== src/Agents/Gates.antt =====
-- The tests of `runAgentPreflight`, each as a condition on the request, the contract and the skills.
use eauto_ai.Prelude.{
  String, Bool, true, false, not, ◌&&◌, ◌||◌, List, [], ◌∷◌, ◌++◌, includes, includes-append, any,
  unique, All, All-append, ◌==◌, string_eq, ◌≡◌, ◌≢◌, ◌↔◌, refl, arith, eq_of_==, ◌⊎◌, inl, inr,
}
use eauto_ai.Prelude.Int.{ℤ, pos, negsuc, ◌+ℤ◌, ◌≤ℤ◌, leb_ℤ, is_safe}
use eauto_ai.Prelude.Tested.{
  Any, any-Any, Any-any, any-All, All-any, filter-nil, filter-All, All-parts, All-unique,
}
use eauto_ai.Agents.{
  AgentSkillManifest, AgentLevel, ceo, director, specialist, AgentAutonomyLevel, ask, inform,
  autonomous, AgentRiskLevel, critical,
}
use eauto_ai.Agents.Preflight.{
  AgentPreflightInput, missing_evidence_kinds, is_action_allowed, is_budget_allowed,
  is_delegation_allowed, needs_human, is_ask, is_autonomous, is_critical, is_own_depth, flat_map,
}

-- The depth at which an agent of a level may be called.
abbrev pub depth_of : AgentLevel → ℤ
depth_of ceo = pos 0
depth_of director = pos 1
depth_of specialist = pos 2

neither : (a b : Bool) → (a || b) ≡ false → (a ≡ false) × (b ≡ false)
neither a b h = (ground arith, ground arith)

un_not : (b : Bool) → not b ≡ false → b ≡ true
un_not b h = ground arith

leb_ℤ_iff : (a b : ℤ) → (leb_ℤ a b ≡ true) ↔ (a ≤ℤ b)
leb_ℤ_iff a b = (λ h. ground arith, λ h. ground arith)

is_critical_iff : (r : AgentRiskLevel) → (is_critical r ≡ false) ↔ (r ≢ critical)
is_critical_iff critical = (λ h. cc, λ n. absurd (n refl))
is_critical_iff r = (λ h e. cc, λ n. refl)

includes-flat_map :
    (f : AgentSkillManifest → List String) (ss : List AgentSkillManifest) (a : String)
    → includes (flat_map f ss) a ≡ any (λ s. includes (f s) a) ss
includes-flat_map f [] a = refl
includes-flat_map f (s ∷ ss) a =
    rw (includes-append (f s) (flat_map f ss) a, includes-flat_map f ss a) refl

All-flat_map_iff :
    (P : String → Type 0) (f : AgentSkillManifest → List String) (ss : List AgentSkillManifest)
    → All P (flat_map f ss) ↔ All (λ s. All P (f s)) ss
All-flat_map_iff P f [] = (λ h. tt, λ h. tt)
All-flat_map_iff P f (s ∷ ss) = (
  λ h. let (p, q) = All-parts P (f s) (flat_map f ss) h in (p, (All-flat_map_iff P f ss).0 q),
  λ (p, q). All-append P (f s) (flat_map f ss) p ((All-flat_map_iff P f ss).1 q),
)

module _ (input : AgentPreflightInput) (skills : List AgentSkillManifest) where
  abbrev act : String
  act = input.requested_action

  -- The capabilities, as one list has them, of the contract and of each skill.
  action_parts : is_action_allowed input skills ≡ (
      (includes input.contract.allowed_capabilities act
        || any (λ s. includes s.allowed_capabilities act) skills)
      && not (
          includes input.contract.forbidden_capabilities act
          || any (λ s. includes s.forbidden_capabilities act) skills))
  unfolding is_action_allowed
  action_parts =
      rw
        (
          includes-append input.contract.allowed_capabilities
              (flat_map (λ s. s.allowed_capabilities) skills) act,
          includes-append input.contract.forbidden_capabilities
              (flat_map (λ s. s.forbidden_capabilities) skills) act,
          includes-flat_map (λ s. s.allowed_capabilities) skills act,
          includes-flat_map (λ s. s.forbidden_capabilities) skills act,
        )
        refl

  pub evidence_iff : (missing_evidence_kinds input skills ≡ []) ↔ (
      All
        (λ k. includes input.available_evidence_kinds k ≡ true)
        input.contract.required_evidence_kinds
      × All
          (λ s.
            All (λ k. includes input.available_evidence_kinds k ≡ true) s.required_evidence_kinds)
          skills)
  unfolding missing_evidence_kinds
  evidence_iff =
      let p = includes input.available_evidence_kinds in
      let P = λ (k : String). p k ≡ true in
      let own = input.contract.required_evidence_kinds in
      let theirs = flat_map (λ s. s.required_evidence_kinds) skills in
      (
        λ h.
            let (a, b) =
              All-parts P own theirs
                ((All-unique P (own ++ theirs)).0 (filter-nil p (unique (own ++ theirs)) h)) in
            (a, (All-flat_map_iff P (λ s. s.required_evidence_kinds) skills).0 b),
        λ (a, b). filter-All p (unique (own ++ theirs)) (
            (All-unique P (own ++ theirs)).1 (
              All-append P own theirs a
                ((All-flat_map_iff P (λ s. s.required_evidence_kinds) skills).1 b))),
      )

  pub delegated_iff :
      (is_delegation_allowed input skills ≡ true)
      ↔ (input.delegation_depth ≡ depth_of input.contract.level)
  delegated_iff = go input.contract.level input.delegation_depth
    where
      go :
          (level : AgentLevel) (depth : ℤ)
          → ((leb_ℤ (pos 0) depth && (leb_ℤ depth (pos 2) && is_own_depth level depth)) ≡ true)
            ↔ (depth ≡ depth_of level)
      go ceo (pos n) = (λ h. ground arith, λ h. ground arith)
      go director (pos n) = (λ h. ground arith, λ h. ground arith)
      go specialist (pos n) = (λ h. ground arith, λ h. ground arith)
      go ceo (negsuc n) = (λ h. ground arith, λ h. cc)
      go director (negsuc n) = (λ h. ground arith, λ h. cc)
      go specialist (negsuc n) = (λ h. ground arith, λ h. cc)

  pub budget_iff : (is_budget_allowed input skills ≡ true) ↔ (
      (is_safe input.requested_budget_minor_clp ≡ true)
      × (pos 0 ≤ℤ input.requested_budget_minor_clp)
      × ((input.spent_today_minor_clp +ℤ input.requested_budget_minor_clp)
          ≤ℤ input.contract.maximum_daily_budget_minor_clp))
  unfolding is_budget_allowed
  budget_iff =
      let sum = input.spent_today_minor_clp +ℤ input.requested_budget_minor_clp in
      let most = input.contract.maximum_daily_budget_minor_clp in
      let requested = input.requested_budget_minor_clp in
      let every = and_three (is_safe requested) (leb_ℤ (pos 0) requested) (leb_ℤ sum most) in
      (
        λ h.
            let (a, b, c) = every.0 h in
            (a, (leb_ℤ_iff (pos 0) requested).0 b, (leb_ℤ_iff sum most).0 c),
        λ (a, b, c). every.1 (a, (leb_ℤ_iff (pos 0) requested).1 b, (leb_ℤ_iff sum most).1 c),
      )
    where
      and_three : (a b c : Bool) → ((a && (b && c)) ≡ true) ↔ ((a ≡ true) × (b ≡ true) × (c ≡ true))
      and_three a b c =
          (λ h. (ground arith, ground arith, ground arith), λ (h, k, l). ground (arith, h, k, l))

  pub capable_iff : (is_action_allowed input skills ≡ true) ↔ (
      ((includes input.contract.allowed_capabilities act ≡ true)
        ⊎ Any (λ s. includes s.allowed_capabilities act ≡ true) skills)
      × (includes input.contract.forbidden_capabilities act ≡ false)
      × All (λ s. includes s.forbidden_capabilities act ≡ false) skills)
  capable_iff =
      let may = λ (s : AgentSkillManifest). includes s.allowed_capabilities act in
      let may_not = λ (s : AgentSkillManifest). includes s.forbidden_capabilities act in
      rw action_parts (
        λ h.
            let (a, b, c) = (parts _ _ _ _).0 h in
            (
              elim a [
                | inl e ↦ inl e
                | inr e ↦ inr (any-Any (λ s. may s ≡ true) may (λ s k. k) skills e)
              ],
              b,
              any-All (λ s. may_not s ≡ false) may_not (λ s k. k) skills c,
            ),
        λ (a, b, c). (parts _ _ _ _).1 (
          elim a [
            | inl e ↦ inl e
            | inr e ↦ inr (Any-any (λ s. may s ≡ true) may (λ s k. k) skills e)
          ],
          b,
          All-any (λ s. may_not s ≡ false) may_not (λ s k. k) skills c,
        ),
      )
    where
      parts :
          (a b c d : Bool)
          → (((a || b) && not (c || d)) ≡ true)
            ↔ (((a ≡ true) ⊎ (b ≡ true)) × (c ≡ false) × (d ≡ false))
      parts true b c d =
          (λ h. (inl refl, ground arith, ground arith), λ (h, k, l). ground (arith, k, l))
      parts false true c d =
          (λ h. (inr refl, ground arith, ground arith), λ (h, k, l). ground (arith, k, l))
      parts false false c d = (λ h. cc, λ (h, k, l). elim h [ inl e ↦ cc | inr e ↦ cc ])

  pub unattended_iff : (needs_human input skills ≡ false) ↔ (
      (input.autonomy ≢ autonomous)
      ⊎ (All (λ s. s.requires_human_approval ≡ false) skills
          × (input.contract.risk_level ≢ critical)))
  unfolding needs_human
  unattended_iff = go input.autonomy input.contract.risk_level
    where
      go :
          (a : AgentAutonomyLevel) (r : AgentRiskLevel)
          → ((is_autonomous a && (any (λ s. s.requires_human_approval) skills || is_critical r))
              ≡ false)
            ↔ ((a ≢ autonomous)
                ⊎ (All (λ s. s.requires_human_approval ≡ false) skills × (r ≢ critical)))
      go autonomous r = (
        λ h.
            let (a, b) = neither _ _ h in
            inr (
              any-All (λ s. s.requires_human_approval ≡ false) (λ s. s.requires_human_approval)
                  (λ s k. k) skills a,
              (is_critical_iff r).0 b,
            ),
        λ h. elim h [
          | inl n ↦ absurd (n refl)
          | inr (a, b) ↦
              rw
                (
                  All-any (λ s. s.requires_human_approval ≡ false) (λ s. s.requires_human_approval)
                      (λ s k. k) skills a,
                  (is_critical_iff r).1 b,
                )
                refl
        ],
      )
      go ask r = (λ h. inl (λ e. cc), λ h. refl)
      go inform r = (λ h. inl (λ e. cc), λ h. refl)

  pub spoken_iff :
      ((is_ask input.autonomy && not (input.requested_action == "evidence.request")) ≡ false)
      ↔ ((input.autonomy ≢ ask) ⊎ (input.requested_action ≡ "evidence.request"))
  spoken_iff = go input.autonomy input.requested_action
    where
      go :
          (a : AgentAutonomyLevel) (t : String)
          → ((is_ask a && not (t == "evidence.request")) ≡ false)
            ↔ ((a ≢ ask) ⊎ (t ≡ "evidence.request"))
      go ask t = (
        λ h. inr (eq_of_== (un_not _ h)),
        λ h. elim h [ inl n ↦ absurd (n refl) | inr e ↦ rw e refl ],
      )
      go inform t = (λ h. inl (λ e. cc), λ h. refl)
      go autonomous t = (λ h. inl (λ e. cc), λ h. refl)
