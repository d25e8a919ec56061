-- ===== src/Core/Dial/Retry.antt =====
-- The retries of src/core/link.go after a dialled link has ended.
use v6space.Base.{
  ℕ, zero, suc, ◌+◌, ◌≤◌, ◌≡◌, ◌≢◌, ◌⊎◌, true, false, Option, none, some, List, [], ◌∷◌, ltb, arith,
}

-- How a call ends for the retries: an error of call, an error of dialling, or neither.
pub data Attempt : Type 0 where
  not_called dial_error done : Attempt

-- retry at the end of the handler: the attempts that it makes, `none` where the fuel ends.
abbrev pub prepend : ℕ → Option (List ℕ) → Option (List ℕ)
prepend attempt none = none
prepend attempt (some attempts) = some (attempt ∷ attempts)

unfoldable pub retry : ℕ → (ℕ → Attempt) → ℕ → Option (List ℕ)
retry zero outcome attempt = none
retry (suc fuel) outcome attempt = elim (outcome attempt) [
  | not_called ↦ some (attempt ∷ [])
  | done ↦ some (attempt ∷ [])
  | dial_error ↦ elim (ltb attempt 3) [
    | true ↦ prepend attempt (retry fuel outcome (attempt + 1))
    | false ↦ some (attempt ∷ [])
  ]
]

-- The retries always end: with fuel for three rounds or more there is a list of attempts, which
-- starts with the first, and it is the attempt alone, or else the first two, or all three, each
-- but the last having ended in an error of dialling.
pub retry_ends :
    (fuel : ℕ) (outcome : ℕ → Attempt)
    → 3 ≤ fuel
    → ((retry fuel outcome 1 ≡ some (1 ∷ [])) × (outcome 1 ≢ dial_error))
      ⊎ ((retry fuel outcome 1 ≡ some (1 ∷ 2 ∷ []))
          × (outcome 1 ≡ dial_error)
          × (outcome 2 ≢ dial_error))
      ⊎ ((retry fuel outcome 1 ≡ some (1 ∷ 2 ∷ 3 ∷ []))
          × (outcome 1 ≡ dial_error)
          × (outcome 2 ≡ dial_error))
unfolding retry
retry_ends zero outcome h = absurd (omega arith)
retry_ends (suc zero) outcome h = absurd (omega arith)
retry_ends (suc (suc zero)) outcome h = absurd (omega arith)
retry_ends (suc (suc (suc fuel))) outcome h = ground arith
