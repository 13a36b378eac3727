-- ===== src/Access/Duties.antt =====
-- What the roles keep apart, and exactly who passes `assertAuthorized`.
use eauto_ai.Prelude.{
  String, Option, none, some, Bool, true, false, not, ◌||◌, List, [], ◌∷◌, any, includes, ◌≡◌, ◌↔◌,
  ◌⊎◌, inl, inr, refl, sym, ◌∙◌, arith, Bool-cases, string_eq,
}
use eauto_ai.Prelude.Result.{ok}
use eauto_ai.Prelude.Result.Pure.{◌>>◌, throw_if}
use eauto_ai.Access.{
  Role, owner, admin, operator, reviewer, viewer, agent, Permission, action_approve, action_execute,
  permission_eq, ActorIdentity, role_permissions, has_permission, can_access_account, outside,
  assert_authorized, AccessError,
}

-- Some element of the list satisfies `P`.
pub data Some {ℓ} {A : Type ℓ} (P : A → Type 0) : List A → Type ℓ where
  first : {x : A} {xs : List A} → P x → Some P (x ∷ xs)
  further : {x : A} {xs : List A} → Some P xs → Some P (x ∷ xs)

module _ {ℓ} {A : Type ℓ} where
  any-Some : (f : A → Bool) (xs : List A) → any f xs ≡ true → Some (λ x. f x ≡ true) xs
  any-Some f [] h = cc
  any-Some f (x ∷ xs) h = elim (Bool-cases (f x)) [
    | inl e ↦ first e
    | inr e ↦ further (any-Some f xs (rw e at h))
  ]

  Some-any : (f : A → Bool) (xs : List A) → Some (λ x. f x ≡ true) xs → any f xs ≡ true
  Some-any f [] h = elim h [ ]
  Some-any f (x ∷ xs) (first h) = rw h refl
  Some-any f (x ∷ xs) (further h) = rw (Some-any f xs h) (ground arith)

-- A role of the actor that has the permission.
abbrev pub IsPermitted : ActorIdentity → Permission → Type 0
IsPermitted actor p = Some (λ role. includes (role_permissions role) p ≡ true) actor.roles

-- The request names no account, or one that the actor's list covers.
abbrev pub IsWithin : ActorIdentity → Option String → Type 0
IsWithin actor none = Unit
IsWithin actor (some account_id) =
    (includes actor.account_ids "*" ≡ true) ⊎ (includes actor.account_ids account_id ≡ true)

passed :
    (a b : Bool) (e e' : AccessError)
    → (throw_if (not a) e >> throw_if b e') ≡ ok (tt {0})
    → (a ≡ true) × (b ≡ false)
passed true false e e' h = (refl, refl)
passed true true e e' h = cc
passed false b e e' h = cc

or_true : (a b : Bool) → not (a || b) ≡ false → (a ≡ true) ⊎ (b ≡ true)
or_true true b h = inl refl
or_true false true h = inr refl
or_true false false h = cc

within :
    (actor : ActorIdentity) (account : Option String)
    → outside actor account ≡ false
    → IsWithin actor account
unfolding can_access_account
within actor none h = tt
within actor (some id) h =
    or_true (includes actor.account_ids "*") (includes actor.account_ids id) h

within_back :
    (actor : ActorIdentity) (account : Option String)
    → IsWithin actor account
    → outside actor account ≡ false
unfolding can_access_account
within_back actor none h = refl
within_back actor (some id) (inl e) = rw e refl
within_back actor (some id) (inr e) = rw e (ground arith)

-- `assertAuthorized` passes exactly where a role of the actor has the permission and the account,
-- if one is named, is the actor's or the actor has all.
pub assert_authorized_iff :
    (actor : ActorIdentity) (p : Permission) (account : Option String)
    → (assert_authorized actor p account ≡ ok tt) ↔ (IsPermitted actor p × IsWithin actor account)
unfolding assert_authorized has_permission
assert_authorized_iff actor p account = (
  λ h.
      let (a, b) = passed (has_permission actor p) (outside actor account) _ _ h in
      (any-Some _ actor.roles a, within actor account b),
  λ (a, b).
      rw
        (
          Some-any (λ role. includes (role_permissions role) p) actor.roles a,
          within_back actor account b,
        )
        refl,
)

-- The roles that may decide.
abbrev pub runs : Role → Bool
runs owner = true
runs admin = true
runs _ = false

abbrev pub decides : Role → Bool
decides owner = true
decides admin = true
decides reviewer = true
decides _ = false

only_runs : (r : Role) → includes (role_permissions r) action_execute ≡ runs r
unfolding role_permissions
only_runs owner = refl
only_runs admin = refl
only_runs operator = refl
only_runs reviewer = refl
only_runs viewer = refl
only_runs agent = refl

only_decides : (r : Role) → includes (role_permissions r) action_approve ≡ decides r
unfolding role_permissions
only_decides owner = refl
only_decides admin = refl
only_decides operator = refl
only_decides reviewer = refl
only_decides viewer = refl
only_decides agent = refl

Some-imp :
    (f g : Role → Bool) (xs : List Role)
    → ((x : Role) → f x ≡ g x)
    → Some (λ x. f x ≡ true) xs
    → Some (λ x. g x ≡ true) xs
Some-imp f g [] e h = elim h [ ]
Some-imp f g (x ∷ xs) e (first h) = first (sym (e x) ∙ h)
Some-imp f g (x ∷ xs) e (further h) = further (Some-imp f g xs e h)

-- Only an owner or an admin passes the check of an execution.
pub execute_duty :
    (actor : ActorIdentity) (account : Option String)
    → assert_authorized actor action_execute account ≡ ok tt
    → Some (λ r. runs r ≡ true) actor.roles
execute_duty actor account h =
    Some-imp (λ r. includes (role_permissions r) action_execute) runs actor.roles only_runs
      ((assert_authorized_iff actor action_execute account).0 h).0

-- Only an owner, an admin or a reviewer passes the check of an approval: an actor with no other
-- roles than operator, viewer and agent does not.
pub approve_duty :
    (actor : ActorIdentity) (account : Option String)
    → assert_authorized actor action_approve account ≡ ok tt
    → Some (λ r. decides r ≡ true) actor.roles
approve_duty actor account h =
    Some-imp (λ r. includes (role_permissions r) action_approve) decides actor.roles only_decides
      ((assert_authorized_iff actor action_approve account).0 h).0
