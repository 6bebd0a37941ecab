-- ===== src/Dims/Tables.antt =====
-- Hash maps as association lists: the last entry of a key stands first.
use paco.Prelude.{◌≡◌, refl, ◌≢◌, ◌⊎◌, inl, inr, Option, none, some, List, [], ◌∷◌, arith}

module _ {K V : Type 0} (dec : Discrete K) where
  unfoldable pub find : K → List (K × V) → Option V
  find k [] = none
  find k ((k', v) ∷ m) = elim (dec k k') [ yes _ ↦ some v | no _ ↦ find k m ]

  pub find-same : (k : K) (v : V) (m : List (K × V)) → find k ((k, v) ∷ m) ≡ some v
  unfolding find
  find-same k v m =
      elim (dec k k) as (λ d. (elim d [ yes _ ↦ some v | no _ ↦ find k m ]) ≡ some v) [
        | yes _ ↦ refl
        | no n ↦ absurd (n refl)
      ]

  pub find-other : (k k' : K) (v : V) (m : List (K × V)) → k ≢ k' → find k ((k', v) ∷ m) ≡ find k m
  unfolding find
  find-other k k' v m ne =
      elim (dec k k') as (λ d. (elim d [ yes _ ↦ some v | no _ ↦ find k m ]) ≡ find k m) [
        | yes e ↦ absurd (ne e)
        | no _ ↦ refl
      ]

  -- a key is found in the first entry or behind it
  pub find-cases :
      (k k' : K) (v u : V) (m : List (K × V))
      → find k ((k', v) ∷ m) ≡ some u
      → ((k ≡ k') × (v ≡ u)) ⊎ (find k m ≡ some u)
  unfolding find
  find-cases k k' v u m =
      elim (dec k k')
        as (λ d.
          (elim d [ yes _ ↦ some v | no _ ↦ find k m ]) ≡ some u
          → ((k ≡ k') × (v ≡ u)) ⊎ (find k m ≡ some u)) [
            | yes e ↦ (λ h. inl (e, ground arith))
            | no _ ↦ (λ h. inr h)
          ]
