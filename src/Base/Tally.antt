-- ===== src/Base/Tally.antt =====
-- Counting by keys: what `GROUP BY` with `COUNT` and a dictionary of counters give.
use Prim.Native.Nat.{ℕ, ◌+◌}
use mathlib.Core.Bool.{Bool, true}
use mathlib.Core.List.{List, [], ◌∷◌}
use mathlib.Core.Logic.{◌↔◌}
use mathlib.Core.Path.{◌≡◌, refl}
use native.Mathlib.Omega.{arith}
use tmask_tt.Base.Tests.{if◌then◌else◌}
use tmask_tt.Base.Lists.{length}

module _ {K : Type 0} (eq : K → K → Bool) where
  -- `counts[k] = counts.get(k, 0) + n`
  unfoldable pub add_count : K → ℕ → List (K × ℕ) → List (K × ℕ)
  add_count k n [] = (k, n) ∷ []
  add_count k n ((j, m) ∷ rest) =
      let others = add_count k n rest in if eq j k then (j, m + n) ∷ rest else (j, m) ∷ others

  -- `counts.get(k, 0)`
  unfoldable pub count_of : K → List (K × ℕ) → ℕ
  count_of k [] = 0
  count_of k ((j, m) ∷ rest) = let other = count_of k rest in if eq j k then m else other

  unfoldable pub tally : List K → List (K × ℕ)
  unfolding add_count
  tally [] = []
  tally (k ∷ ks) = add_count k 1 (tally ks)

  -- How often a key stands in a list.
  unfoldable pub occurrences : K → List K → ℕ
  occurrences k [] = 0
  occurrences k (j ∷ ks) = (if eq j k then 1 else 0) + occurrences k ks

  module _ (law : (a b : K) → (eq a b ≡ true) ↔ (a ≡ b)) where
    pub count_of-add_count :
        (k j : K) (n : ℕ) (counts : List (K × ℕ))
        → count_of k (add_count j n counts) ≡ (if eq j k then n else 0) + count_of k counts
    unfolding count_of add_count
    count_of-add_count k j n [] = ground arith
    count_of-add_count k j n ((i, m) ∷ rest) =
        ground (arith, law i j, law i k, law j k, count_of-add_count k j n rest)

    -- The counter of a key is the number of its occurrences.
    pub count_of-tally : (k : K) (ks : List K) → count_of k (tally ks) ≡ occurrences k ks
    unfolding tally count_of occurrences
    count_of-tally k [] = refl
    count_of-tally k (j ∷ ks) =
        ground (arith, count_of-add_count k j 1 (tally ks), count_of-tally k ks)

  -- The sum of the counters.
  unfoldable pub total : List (K × ℕ) → ℕ
  total [] = 0
  total ((k, n) ∷ rest) = n + total rest

  pub total-add_count :
      (k : K) (n : ℕ) (counts : List (K × ℕ)) → total (add_count k n counts) ≡ n + total counts
  unfolding total add_count
  total-add_count k n [] = omega arith
  total-add_count k n ((j, m) ∷ rest) = ground (arith, total-add_count k n rest)

  pub total-tally : (ks : List K) → total (tally ks) ≡ length ks
  unfolding total tally
  total-tally [] = refl
  total-tally (k ∷ ks) = omega (arith, total-add_count k 1 (tally ks), total-tally ks)
