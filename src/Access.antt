-- ===== src/Access.antt =====
-- Who may do what: packages/domain/src/access.ts.
pub mod Duties
use eauto_ai.Prelude.{
  ◌-◌, ℕ, suc, String, Option, none, some, Bool, true, false, not, ◌&&◌, ◌||◌, List, [], ◌∷◌, any,
  includes, Eq, eqb, eqb_iff, index_eq_iff, string_eq, ◌≡◌, ◌↔◌, refl, sym, ap, ◌∙◌, if◌then◌else◌,
}
use eauto_ai.Prelude.Result.{Result, ok, err, ok-injective}
use eauto_ai.Prelude.Result.Pure.{◌>>◌, throw_if}

pub data Role : Type 0 where
  owner admin operator reviewer viewer agent : Role

pub data Permission : Type 0 where
  dashboard_read inbox_read catalog_read catalog_acquire catalog_review : Permission
  content_create action_propose action_review action_approve action_execute : Permission
  receipts_read operations_read operations_manage integrations_read : Permission
  integrations_manage integrations_sync agents_read agents_manage agents_run : Permission

abbrev pub permissions : List Permission
permissions =
    dashboard_read ∷ inbox_read ∷ catalog_read ∷ catalog_acquire ∷ catalog_review ∷ content_create
    ∷ action_propose ∷ action_review ∷ action_approve ∷ action_execute ∷ receipts_read
    ∷ operations_read ∷ operations_manage ∷ integrations_read ∷ integrations_manage
    ∷ integrations_sync ∷ agents_read ∷ agents_manage ∷ agents_run ∷ []

abbrev position : Permission → ℕ
position dashboard_read = 0
position inbox_read = 1
position catalog_read = 2
position catalog_acquire = 3
position catalog_review = 4
position content_create = 5
position action_propose = 6
position action_review = 7
position action_approve = 8
position action_execute = 9
position receipts_read = 10
position operations_read = 11
position operations_manage = 12
position integrations_read = 13
position integrations_manage = 14
position integrations_sync = 15
position agents_read = 16
position agents_manage = 17
position agents_run = 18

abbrev nth : ℕ → List Permission → Option Permission
nth n [] = none
nth n (p ∷ ps) = if eqb n 0 then some p else nth (n - 1) ps

nth-position : (p : Permission) → nth (position p) permissions ≡ some p
nth-position dashboard_read = refl
nth-position inbox_read = refl
nth-position catalog_read = refl
nth-position catalog_acquire = refl
nth-position catalog_review = refl
nth-position content_create = refl
nth-position action_propose = refl
nth-position action_review = refl
nth-position action_approve = refl
nth-position action_execute = refl
nth-position receipts_read = refl
nth-position operations_read = refl
nth-position operations_manage = refl
nth-position integrations_read = refl
nth-position integrations_manage = refl
nth-position integrations_sync = refl
nth-position agents_read = refl
nth-position agents_manage = refl
nth-position agents_run = refl

some-injective : (p q : Permission) → some p ≡ some q → p ≡ q
some-injective p q h = cc

position-injective : (p q : Permission) → position p ≡ position q → p ≡ q
position-injective p q h =
    some-injective p q (sym (nth-position p) ∙ ap (λ n. nth n permissions) h ∙ nth-position q)

pub permission_eq_iff : (p q : Permission) → (eqb (position p) (position q) ≡ true) ↔ (p ≡ q)
permission_eq_iff = index_eq_iff position position-injective

instance abbrev pub permission_eq : Eq Permission
permission_eq = record { beq = λ p q. eqb (position p) (position q); beq_iff = permission_eq_iff }

pub record ActorIdentity : Type 0 where
  pub id : String
  pub organization_id : String
  pub roles : List Role
  pub account_ids : List String

unfoldable pub role_permissions : Role → List Permission
role_permissions owner = permissions
role_permissions admin = permissions
role_permissions operator =
    dashboard_read ∷ inbox_read ∷ catalog_read ∷ catalog_acquire ∷ catalog_review ∷ content_create
    ∷ action_propose ∷ action_review ∷ receipts_read ∷ operations_read ∷ integrations_read
    ∷ integrations_sync ∷ agents_read ∷ agents_run ∷ []
role_permissions reviewer =
    dashboard_read ∷ inbox_read ∷ catalog_read ∷ catalog_review ∷ action_review ∷ action_approve
    ∷ receipts_read ∷ integrations_read ∷ agents_read ∷ []
role_permissions viewer =
    dashboard_read ∷ inbox_read ∷ catalog_read ∷ receipts_read ∷ integrations_read ∷ agents_read
    ∷ []
role_permissions agent =
    dashboard_read ∷ catalog_read ∷ catalog_acquire ∷ content_create ∷ action_propose
    ∷ receipts_read ∷ integrations_read ∷ agents_read ∷ agents_run ∷ []

pub data AccessError : Type 0 where
  lacks_permission : (actor_id : String) → Permission → AccessError
  cannot_access : (actor_id : String) → (account_id : String) → AccessError

unfoldable pub has_permission : ActorIdentity → Permission → Bool
has_permission actor permission =
    any (λ role. includes (role_permissions role) permission) actor.roles

unfoldable pub can_access_account : ActorIdentity → String → Bool
can_access_account actor account_id =
    includes actor.account_ids "*" || includes actor.account_ids account_id

abbrev pub outside : ActorIdentity → Option String → Bool
outside actor none = false
outside actor (some account_id) = not (can_access_account actor account_id)

abbrev pub named : Option String → String
named none = ""
named (some account_id) = account_id

unfoldable pub assert_authorized :
    ActorIdentity → Permission → Option String → Result AccessError (Unit {0})
assert_authorized actor permission account_id =
    throw_if (not (has_permission actor permission)) (lacks_permission actor.id permission)
    >> throw_if (outside actor account_id) (cannot_access actor.id (named account_id))
