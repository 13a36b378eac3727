-- ===== src/Agents/Hierarchy.antt =====
-- A company that passes the check is a tree of three levels.
use eauto_ai.Prelude.{
  All-imp, ℕ, suc, String, none, some, Bool, true, false, not, ◌&&◌, ◌||◌, List, [], ◌∷◌, All,
  length, filter, ◌==◌, string_eq, eqb, ◌≡◌, inl, inr, refl, Bool-cases, Option-cases,
}
use mathlib.Core.Path.{subst}
use eauto_ai.Prelude.Assoc.{Assoc, lookup, set, lookup-set}
use eauto_ai.Prelude.Int.{pos, ltb_ℤ, is_safe}
use eauto_ai.Prelude.Strings.{is_blank}
use eauto_ai.Prelude.Result.{Result, ok, err, err-ne-ok}
use eauto_ai.Prelude.Result.Pure.{◌>>◌, throw_if}
use eauto_ai.Agents.{
  AgentRoleContract, AgentLevel, ceo, director, specialist, AgentError, assert_valid_agent_contract,
  index_from, check_levels, check_parent, check_all, assert_valid_agent_hierarchy, is_ceo,
  is_director, is_specialist, is_missing, is_executive, incomplete, bad_iterations, bad_timeout,
  bad_budget, ceo_has_parent, parent_missing, ceo_outside_executive, not_one_ceo,
  director_not_under_ceo, specialist_not_under_director,
}

-- `Reports m n c`: from `c`, after `n` steps to the parent that `m` has, stands a CEO.
pub data Reports (m : Assoc AgentRoleContract) : ℕ → AgentRoleContract → Type 0 where
  top : {c : AgentRoleContract} → c.level ≡ ceo → c.parent_agent_id ≡ none → Reports m 0 c
  under :
      {n : ℕ} {c p : AgentRoleContract} {id : String}
      → c.parent_agent_id ≡ some id
      → lookup id m ≡ some p
      → Reports m n p
      → Reports m (suc n) c

abbrev pub rank : AgentLevel → ℕ
rank ceo = 0
rank director = 1
rank specialist = 2

-- What the loop checks of one agent.
abbrev IsPlaced : Assoc AgentRoleContract → AgentRoleContract → AgentLevel → Type 0
IsPlaced m c ceo = c.parent_agent_id ≡ none
IsPlaced m c director =
    (id : String) × (p : AgentRoleContract) × (c.parent_agent_id ≡ some id)
    × (lookup id m ≡ some p)
    × (p.level ≡ ceo)
IsPlaced m c specialist =
    (id : String) × (p : AgentRoleContract) × (c.parent_agent_id ≡ some id)
    × (lookup id m ≡ some p)
    × (p.level ≡ director)

passes : (bad : Bool) (e : AgentError) (u : Unit {0}) → throw_if bad e ≡ ok u → bad ≡ false
passes true e u h = cc
passes false e u h = refl

tests :
    (a b c d e f g : Bool) (x1 x2 x3 x4 x5 x6 x7 : AgentError)
    → (throw_if a x1
        >> (throw_if b x2
            >> (throw_if c x3
                >> (throw_if d x4 >> (throw_if e x5 >> (throw_if f x6 >> throw_if g x7))))))
      ≡ ok (tt {0})
    → (e ≡ false) × (f ≡ false)
tests false false false false false false g x1 x2 x3 x4 x5 x6 x7 h = (refl, refl)
tests false false false false false true g x1 x2 x3 x4 x5 x6 x7 h = cc
tests false false false false true f g x1 x2 x3 x4 x5 x6 x7 h = cc
tests false false false true e f g x1 x2 x3 x4 x5 x6 x7 h = cc
tests false false true d e f g x1 x2 x3 x4 x5 x6 x7 h = cc
tests false true c d e f g x1 x2 x3 x4 x5 x6 x7 h = cc
tests true b c d e f g x1 x2 x3 x4 x5 x6 x7 h = cc

parent_rule :
    (c : AgentRoleContract)
    → assert_valid_agent_contract c ≡ ok tt
    → ((is_ceo c.level && not (is_missing c.parent_agent_id)) ≡ false)
      × ((not (is_ceo c.level) && is_missing c.parent_agent_id) ≡ false)
unfolding assert_valid_agent_contract
parent_rule c h =
    tests (is_blank c.id || (is_blank c.version || is_blank c.mission))
      (ltb_ℤ c.maximum_iterations (pos 1)) (ltb_ℤ c.timeout_ms (pos 1000))
      (not (is_safe c.maximum_daily_budget_minor_clp)
        || ltb_ℤ c.maximum_daily_budget_minor_clp (pos 0))
      (is_ceo c.level && not (is_missing c.parent_agent_id))
      (not (is_ceo c.level) && is_missing c.parent_agent_id)
      (is_ceo c.level && not (is_executive c.department_id)) incomplete (bad_iterations c.id)
      (bad_timeout c.id) (bad_budget c.id) ceo_has_parent (parent_missing c.id)
      ceo_outside_executive h

levels_rule :
    (c p : AgentRoleContract)
    → check_levels c p ≡ ok tt
    → ((is_director c.level && not (is_ceo p.level)) ≡ false)
      × ((is_specialist c.level && not (is_director p.level)) ≡ false)
levels_rule c p h =
    two (is_director c.level && not (is_ceo p.level))
      (is_specialist c.level && not (is_director p.level)) (director_not_under_ceo c.id)
      (specialist_not_under_director c.id) h
  where
    two :
        (a b : Bool) (x y : AgentError)
        → (throw_if a x >> throw_if b y) ≡ ok (tt {0})
        → (a ≡ false) × (b ≡ false)
    two false false x y h = (refl, refl)
    two false true x y h = cc
    two true b x y h = cc

no_parent :
    (m : Assoc AgentRoleContract) (c : AgentRoleContract) (level : AgentLevel)
    → c.parent_agent_id ≡ none
    → (not (is_ceo level) && true) ≡ false
    → IsPlaced m c level
no_parent m c ceo e h = e
no_parent m c director e h = cc
no_parent m c specialist e h = cc

ceo_level : (l : AgentLevel) → (true && not (is_ceo l)) ≡ false → l ≡ ceo
ceo_level ceo h = refl
ceo_level director h = cc
ceo_level specialist h = cc

director_level : (l : AgentLevel) → (true && not (is_director l)) ≡ false → l ≡ director
director_level director h = refl
director_level ceo h = cc
director_level specialist h = cc

with_parent :
    (m : Assoc AgentRoleContract) (c p : AgentRoleContract) (id : String) (level : AgentLevel)
    → c.parent_agent_id ≡ some id
    → lookup id m ≡ some p
    → (is_ceo level && true) ≡ false
    → (is_director level && not (is_ceo p.level)) ≡ false
    → (is_specialist level && not (is_director p.level)) ≡ false
    → IsPlaced m c level
with_parent m c p id ceo e f g h k = cc
with_parent m c p id director e f g h k = (id, p, e, f, ceo_level p.level h)
with_parent m c p id specialist e f g h k = (id, p, e, f, director_level p.level k)

check-IsPlaced :
    (m : Assoc AgentRoleContract) (c : AgentRoleContract)
    → assert_valid_agent_contract c ≡ ok tt
    → check_parent m c c.parent_agent_id ≡ ok tt
    → IsPlaced m c c.level
check-IsPlaced m c h k = elim (Option-cases c.parent_agent_id) [
  | inl e ↦ no_parent m c c.level e (rw e at (parent_rule c h).1)
  | inr (id, e) ↦ elim (Option-cases (lookup id m)) [
    | inl missing ↦ absurd (err-ne-ok _ tt (rw (e, missing) at k))
    | inr (p, found) ↦
        let rules = levels_rule c p (rw (e, found) at k) in
        with_parent m c p id c.level e found (rw e at (parent_rule c h).0) rules.0 rules.1
  ]
]

check_all-IsPlaced :
    (m : Assoc AgentRoleContract) (cs : List AgentRoleContract)
    → check_all m cs ≡ ok tt
    → All (λ c. IsPlaced m c c.level) cs
unfolding check_all
check_all-IsPlaced m [] h = tt
check_all-IsPlaced m (c ∷ cs) h =
    let (a, b, d) =
      three (assert_valid_agent_contract c) (check_parent m c c.parent_agent_id) (check_all m cs)
        h in
    (check-IsPlaced m c a b, check_all-IsPlaced m cs d)
  where
    three :
        (a b c : Result AgentError (Unit {0}))
        → (a >> b >> c) ≡ ok tt
        → (a ≡ ok tt) × (b ≡ ok tt) × (c ≡ ok tt)
    three (ok a) (ok b) (ok c) h = (refl, refl, refl)
    three (ok a) (ok b) (err c) h = cc
    three (ok a) (err b) c h = cc
    three (err a) b c h = cc

lookup-index_from :
    (P : AgentRoleContract → Type 0) (m : Assoc AgentRoleContract) (cs : List AgentRoleContract)
    → ((id : String) (p : AgentRoleContract) → lookup id m ≡ some p → P p)
    → All P cs
    → (id : String) (p : AgentRoleContract) → lookup id (index_from m cs) ≡ some p
    → P p
unfolding index_from
lookup-index_from P m [] h all id p found = h id p found
lookup-index_from P m (c ∷ cs) h (first, rest) id p found =
    lookup-index_from P (set c.id c m) cs
      (λ k q there. elim (Bool-cases (c.id == k)) [
        | inl same ↦
            let e : some c ≡ some q = rw (lookup-set c.id k c m, same) at there in
            subst P (some-injective c q e) first
        | inr other ↦ h k q (rw (lookup-set c.id k c m, other) at there)
      ])
      rest id p found
  where
    some-injective : (a b : AgentRoleContract) → some a ≡ some b → a ≡ b
    some-injective a b h = cc

module _ (m : Assoc AgentRoleContract)
    (h : (id : String) (p : AgentRoleContract) → lookup id m ≡ some p → IsPlaced m p p.level) where
  climb_director :
      (c : AgentRoleContract) → c.level ≡ director → IsPlaced m c director → Reports m 1 c
  climb_director c e (id, p, parent, found, up) =
      under parent found (top up (rw up at (h id p found)))

  climb :
      (c : AgentRoleContract) (level : AgentLevel)
      → c.level ≡ level
      → IsPlaced m c level
      → Reports m (rank level) c
  climb c ceo e placed = top e placed
  climb c director e placed = climb_director c e placed
  climb c specialist e (id, p, parent, found, up) =
      under parent found (climb_director p up (rw up at (h id p found)))

nothing :
    (m : Assoc AgentRoleContract) (id : String) (p : AgentRoleContract)
    → lookup id [] ≡ some p
    → IsPlaced m p p.level
unfolding lookup
nothing m id p h = cc

second :
    (bad : Bool) (e : AgentError) (k : Result AgentError (Unit {0}))
    → (throw_if bad e >> k) ≡ ok tt
    → k ≡ ok tt
second true e k h = cc
second false e k h = h

-- In a company that passes the check, whatever ids repeat, each agent reaches a CEO through the
-- parents on the index: the CEO itself at once, a director in one step, a specialist in two.
pub assert_valid_agent_hierarchy-Reports :
    (contracts : List AgentRoleContract)
    → assert_valid_agent_hierarchy contracts ≡ ok tt
    → All (λ c. Reports (index_from [] contracts) (rank c.level) c) contracts
unfolding assert_valid_agent_hierarchy
assert_valid_agent_hierarchy-Reports contracts h =
    let m = index_from [] contracts in
    let placed = check_all-IsPlaced m contracts (
      second (not (eqb (length (filter (λ c. is_ceo c.level) contracts)) 1)) not_one_ceo
        (check_all m contracts) h) in
    let on_index = lookup-index_from (λ c. IsPlaced m c c.level) [] contracts (nothing m) placed in
    All-imp (λ c. IsPlaced m c c.level) (λ c. Reports m (rank c.level) c)
      (λ c here. climb m on_index c c.level refl here) contracts placed
