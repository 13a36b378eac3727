-- ===== src/Outbox/Stats.antt =====
-- `listDead` and `stats`: what an operator sees of the accounts that are allowed.
use eauto_ai.Prelude.{
  ℕ, suc, String, Option, none, some, Bool, true, ◌&&◌, List, [], ◌∷◌, filter, take, map,
  if◌then◌else◌,
}
use eauto_ai.Prelude.Assoc.{Assoc}
use eauto_ai.Outbox.{Outbox, StoredOutboxEvent, OutboxStatus, pending, processing, processed, dead}
use eauto_ai.Outbox.Claim.{by_age}
use eauto_ai.Outbox.Settle.{is_dead, allowed_account}

pub record OutboxStats : Type 0 where
  pub pending : ℕ
  pub processing : ℕ
  pub processed : ℕ
  pub dead : ℕ

abbrev pub bump : OutboxStatus → OutboxStats → OutboxStats
bump pending r = record r { pending = suc r.pending }
bump processing r = record r { processing = suc r.processing }
bump processed r = record r { processed = suc r.processed }
bump dead r = record r { dead = suc r.dead }

-- No list of accounts stands for all of them.
abbrev pub visible : Option (List String) → Option String → Bool
visible none account = true
visible (some accounts) account = allowed_account accounts account

module _ {P : Type 0} where
  unfoldable pub list_dead : List String → ℕ → Outbox P → List (StoredOutboxEvent P)
  list_dead accounts limit s =
      map (λ e. e.1)
        (take limit (
          by_age (
            filter (λ e. is_dead (e.1).status && allowed_account accounts (e.1).event.account_id)
              s.events)))

  unfoldable pub count_events :
      Option (List String) → Assoc (StoredOutboxEvent P) → OutboxStats → OutboxStats
  count_events accounts [] r = r
  count_events accounts ((k, e) ∷ m) r =
      count_events accounts m (if visible accounts e.event.account_id then bump e.status r else r)

  unfoldable pub stats : Option (List String) → Outbox P → OutboxStats
  unfolding count_events
  stats accounts s =
      count_events accounts s.events
        (record { pending = 0; processing = 0; processed = 0; dead = 0 })
