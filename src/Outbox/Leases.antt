-- ===== src/Outbox/Leases.antt =====
-- Leases of the outbox: what holds of every stored event, and who may touch it.
use eauto_ai.Prelude.{
  ℕ, ◌<◌, String, Option, none, some, Bool, true, false, ◌≡◌, inl, inr, [], ◌∷◌, map, All, All-imp,
  All-take, All-filter, ltb, includes, string_eq, includes-map_elim, arith, eq_iff, Bool-cases,
}
use mathlib.Core.Path.{subst}
use eauto_ai.Prelude.Assoc.{Assoc, lookup, HasUniqueKeys}
use eauto_ai.Outbox.{Outbox, StoredOutboxEvent, processing}
use eauto_ai.Outbox.Claim.{is_claimable, insert_by_age, by_age, claimable}
use eauto_ai.Outbox.Settle.{is_processing}

abbrev pub is_some {ℓ} : {A : Type ℓ} → Option A → Bool
is_some none = false
is_some (some a) = true

module _ {P : Type 0} where
  -- An event is locked exactly while it is processed, and carries the id that it is stored under.
  pub record IsGood (id : String) (e : StoredOutboxEvent P) : Type 0 where
    pub keyed : e.event.id ≡ id
    pub owner : is_some e.locked_by ≡ is_processing e.status
    pub deadline : is_some e.locked_until ≡ is_processing e.status
    pub tried : e.status ≡ processing → 0 < e.attempts

  abbrev pub IsGoodAt : String → Option (StoredOutboxEvent P) → Type 0
  IsGoodAt id none = Unit
  IsGoodAt id (some e) = IsGood id e

  pub record IsConsistent (s : Outbox P) : Type 0 where
    pub unique : HasUniqueKeys s.events
    pub good : (id : String) → IsGoodAt id (lookup id s.events)

  insert_by_age-All :
      (Q : String × StoredOutboxEvent P → Type 0) (e : String × StoredOutboxEvent P)
      (es : Assoc (StoredOutboxEvent P))
      → Q e
      → All Q es
      → All Q (insert_by_age e es)
  unfolding insert_by_age
  insert_by_age-All Q e [] q h = (q, tt)
  insert_by_age-All Q e (g ∷ gs) q (r, h) =
      elim (Bool-cases (ltb (g.1).created_at (e.1).created_at)) [
        | inl b ↦ rw b (r, insert_by_age-All Q e gs q h)
        | inr b ↦ rw b (q, (r, h))
      ]

  pub by_age-All :
      (Q : String × StoredOutboxEvent P → Type 0) (es : Assoc (StoredOutboxEvent P))
      → All Q es
      → All Q (by_age es)
  unfolding by_age
  by_age-All Q [] h = tt
  by_age-All Q (e ∷ es) (q, h) = insert_by_age-All Q e (by_age es) q (by_age-All Q es h)

  abbrev pub IsEntry : Assoc (StoredOutboxEvent P) → String × StoredOutboxEvent P → Type 0
  IsEntry m e = lookup e.0 m ≡ some e.1

  lookup_tail :
      (j k : String) (w : StoredOutboxEvent P) (m : Assoc (StoredOutboxEvent P))
      {v : StoredOutboxEvent P}
      → lookup j m ≡ none
      → lookup k m ≡ some v
      → lookup k ((j, w) ∷ m) ≡ some v
  unfolding lookup
  lookup_tail j k w m absent here = ground (arith, eq_iff j k)

  entries-IsEntry : (m : Assoc (StoredOutboxEvent P)) → HasUniqueKeys m → All (IsEntry m) m
  unfolding lookup
  entries-IsEntry [] u = tt
  entries-IsEntry ((j, v) ∷ m) (new, u) = (
    ground (arith, eq_iff j j),
    All-imp (IsEntry m) (IsEntry ((j, v) ∷ m)) (λ e h. lookup_tail j e.0 v m new h) m
        (entries-IsEntry m u),
  )

  pub claimable-All :
      (limit now : ℕ) (s : Outbox P)
      → HasUniqueKeys s.events
      → All (λ e. IsEntry s.events e × (is_claimable now e.1 ≡ true)) (claimable limit now s)
  unfolding claimable
  claimable-All limit now s u =
      let found : String × StoredOutboxEvent P → Bool = λ e. is_claimable now e.1 in
      let Q : String × StoredOutboxEvent P → Type 0 =
        λ e. IsEntry s.events e × (is_claimable now e.1 ≡ true) in
      All-take Q limit _
        (by_age-All Q _ (All-filter (IsEntry s.events) found _ (entries-IsEntry s.events u)))

  -- What a batch leases was claimable.
  pub claimed-is_claimable :
      (limit now : ℕ) (s : Outbox P) (id : String)
      → HasUniqueKeys s.events
      → includes (map (λ e. e.0) (claimable limit now s)) id ≡ true
      → (e : StoredOutboxEvent P) × (lookup id s.events ≡ some e) × (is_claimable now e ≡ true)
  claimed-is_claimable limit now s id u i =
      let (e, (here, open_), same) =
        includes-map_elim _ (λ e. e.0) (claimable limit now s) id (claimable-All limit now s u) i in
      (e.1, subst (λ k. lookup k s.events ≡ some e.1) same here, open_)
