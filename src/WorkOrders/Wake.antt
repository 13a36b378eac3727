-- ===== src/WorkOrders/Wake.antt =====
-- When `decideWake` wakes an agent.
use eauto_ai.Prelude.{
  ℕ, ◌≤◌, String, Option, none, some, Bool, true, false, List, string_eq, ==_refl, ==-false,
  if◌then◌else◌, ◌≡◌, ◌≢◌, ◌⊎◌, ◌↔◌, inl, inr, refl, ap, sym, ◌∙◌, arith,
}
use mathlib.Core.Bool.{false≢true}
use eauto_ai.Time.{Timestamp, at, unreadable}
use eauto_ai.WorkOrders.{
  Doubles, manual, cooldown, unchanged, negative_utility, new_signals, Signal, total_utility,
  is_cooling, is_same_hash, decision, decide_wake,
}

-- The pause is over; a text that is no date is none.
abbrev pub IsOver : Option Timestamp → ℕ → Type 0
IsOver none now = Unit
IsOver (some (at t)) now = t ≤ now
IsOver (some unreadable) now = Unit

module _ (D : Doubles) where
  -- Somebody asks for it, or there is no pause, other signals than before, and a utility that is not
  -- zero or less.
  abbrev pub IsWanted :
      (hash : String)
      → List (Signal D)
      → (previous : Option String) (cooldown_until : Option Timestamp) (now : ℕ)
      → (estimated_cost : D.Double) (is_manual : Bool) → Type 0
  IsWanted hash signals previous cooldown_until now cost is_manual =
      (is_manual ≡ true)
      ⊎ (IsOver cooldown_until now
          × (previous ≢ some hash)
          × (D.is_at_most_zero (D.subtract (total_utility D D.zero signals) cost) ≡ false))

  is_cooling_iff : (o : Option Timestamp) (now : ℕ) → (is_cooling D o now ≡ false) ↔ IsOver o now
  is_cooling_iff none now = (λ h. tt, λ h. refl)
  is_cooling_iff (some (at t)) now = (λ h. ground arith, λ h. ground arith)
  is_cooling_iff (some unreadable) now = (λ h. tt, λ h. refl)

  is_same_hash_iff :
      (o : Option String) (hash : String) → (is_same_hash D o hash ≡ false) ↔ (o ≢ some hash)
  is_same_hash_iff none hash = (λ h e. cc, λ h. refl)
  is_same_hash_iff (some p) hash = (
    λ h e. let same : p ≡ hash = cc in false≢true (sym h ∙ rw same (==_refl hash)),
    λ n. ==-false (λ e. n (ap some e)),
  )

  gates :
      (m c s z : Bool) (hash : String) (u : D.Double)
      → ((if m
            then decision D true manual hash u
            else if c
            then decision D false cooldown hash u
            else if s
            then decision D false unchanged hash u
            else if z
            then decision D false negative_utility hash u
            else decision D true new_signals hash u).should_wake
          ≡ true)
        ↔ ((m ≡ true) ⊎ ((c ≡ false) × (s ≡ false) × (z ≡ false)))
  gates true c s z hash u = (λ h. inl refl, λ h. refl)
  gates false false false false hash u = (λ h. inr (refl, refl, refl), λ h. refl)
  gates false true s z hash u = (λ h. cc, λ h. elim h [ inl e ↦ cc | inr (e, _, _) ↦ cc ])
  gates false false true z hash u = (λ h. cc, λ h. elim h [ inl e ↦ cc | inr (_, e, _) ↦ cc ])
  gates false false false true hash u = (λ h. cc, λ h. elim h [ inl e ↦ cc | inr (_, _, e) ↦ cc ])

  -- An agent is woken exactly when somebody asks for it, or its pause is over or is no date, the
  -- hash of the signals is not the one before, and the utility, the weighted signals less the cost,
  -- is not zero or less.
  pub decide_wake_iff :
      (hash : String) (signals : List (Signal D)) (previous : Option String)
      (cooldown_until : Option Timestamp) (now : ℕ) (cost : D.Double) (is_manual : Bool)
      → ((decide_wake D hash signals previous cooldown_until now cost is_manual).should_wake ≡ true)
        ↔ IsWanted hash signals previous cooldown_until now cost is_manual
  unfolding decide_wake
  decide_wake_iff hash signals previous cooldown_until now cost is_manual =
      let g =
        gates is_manual (is_cooling D cooldown_until now) (is_same_hash D previous hash)
          (D.is_at_most_zero (D.subtract (total_utility D D.zero signals) cost)) hash
          (D.subtract (total_utility D D.zero signals) cost) in
      (
        λ h. elim (g.0 h) [
          | inl e ↦ inl e
          | inr (c, s, z) ↦
              inr ((is_cooling_iff cooldown_until now).0 c, (is_same_hash_iff previous hash).0 s, z)
        ],
        λ h. g.1 (elim h [
          | inl e ↦ inl e
          | inr (c, s, z) ↦
              inr ((is_cooling_iff cooldown_until now).1 c, (is_same_hash_iff previous hash).1 s, z)
        ]),
      )
