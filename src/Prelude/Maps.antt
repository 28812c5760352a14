-- ===== src/Prelude/Maps.antt =====
-- Go's maps as association lists: `m[k]`, `m[k] = v` and `delete(m, k)`.
use Prim.Native.Nat.{◌+◌, ◌≤◌}
use mathlib.Core.Path.{◌≡◌, refl, subst}
use mathlib.Core.Logic.{inl, inr}
use mathlib.Core.Option.{Option, none, some}
use mathlib.Core.List.{List, [], ◌∷◌}
use native.Mathlib.Omega.{arith}
use esignet_relay_authentica.Prelude.Tests.{Bool-cases, Eq, ◌==◌, ==_iff, if◌then◌else◌}
use esignet_relay_authentica.Prelude.Lists.{length, All}

module _ {K : Type 0} ⦃e : Eq K⦄ {V : Type 0} where
  unfoldable pub lookup : K → List (K × V) → Option V
  lookup k [] = none
  lookup k (entry ∷ m) = if entry.0 == k then some entry.1 else lookup k m

  unfoldable pub insert : K → V → List (K × V) → List (K × V)
  insert k v [] = (k, v) ∷ []
  insert k v ((j, w) ∷ m) = if j == k then (k, v) ∷ m else (j, w) ∷ insert k v m

  -- Every entry of the key goes, so that a repeated key cannot come back.
  unfoldable pub erase : K → List (K × V) → List (K × V)
  erase k [] = []
  erase k ((j, w) ∷ m) = if j == k then erase k m else (j, w) ∷ erase k m

  pub lookup-insert :
      (key other : K) (new : V) (m : List (K × V))
      → lookup other (insert key new m) ≡ (if key == other then some new else lookup other m)
  unfolding lookup insert
  lookup-insert key other new [] = refl
  lookup-insert key other new (entry ∷ m) = ground (
    arith,
    lookup-insert key other new m,
    ==_iff entry.0 other,
    ==_iff key other,
    ==_iff entry.0 key,
  )

  pub lookup-erase :
      (k j : K) (m : List (K × V)) → lookup j (erase k m) ≡ (if k == j then none else lookup j m)
  unfolding lookup erase
  lookup-erase k j [] = ground arith
  lookup-erase k j ((i, w) ∷ m) =
      ground (arith, ==_iff k j, ==_iff i k, ==_iff i j, lookup-erase k j m)

  pub length-insert-le : (k : K) (v : V) (m : List (K × V)) → length (insert k v m) ≤ length m + 1
  unfolding insert
  length-insert-le k v [] = omega arith
  length-insert-le k v ((j, w) ∷ m) = ground (arith, length-insert-le k v m)

  pub length-erase-le : (k : K) (m : List (K × V)) → length (erase k m) ≤ length m
  unfolding erase
  length-erase-le k [] = omega arith
  length-erase-le k ((j, w) ∷ m) = ground (arith, length-erase-le k m)

  -- What holds of every value holds after each operation.
  pub All-insert :
      (P : V → Type 0) (k : K) (v : V) (m : List (K × V))
      → P v
      → All (λ b. P b.1) m
      → All (λ b. P b.1) (insert k v m)
  unfolding insert
  All-insert P k v [] p h = (p, tt)
  All-insert P k v ((j, w) ∷ m) p h = ground (arith, All-insert P k v m p h.1)

  pub All-erase :
      (P : V → Type 0) (k : K) (m : List (K × V))
      → All (λ b. P b.1) m
      → All (λ b. P b.1) (erase k m)
  unfolding erase
  All-erase P k [] h = tt
  All-erase P k ((j, w) ∷ m) h = ground (arith, All-erase P k m h.1)

  pub All-lookup :
      (P : V → Type 0) (k : K) (m : List (K × V)) {v : V}
      → All (λ b. P b.1) m
      → lookup k m ≡ some v
      → P v
  unfolding lookup
  All-lookup P k [] h q = cc
  All-lookup P k ((j, w) ∷ m) {v} h q = elim (Bool-cases (j == k)) [
    | inl same ↦ subst P (ground arith) h.0
    | inr other ↦ All-lookup P k m h.1 (ground arith)
  ]

  -- Overwriting a key that is there adds no entry.
  pub length-insert_found :
      (k : K) (v : V) (m : List (K × V)) {w : V}
      → lookup k m ≡ some w
      → length (insert k v m) ≡ length m
  unfolding lookup insert
  length-insert_found k v [] h = cc
  length-insert_found k v ((j, u) ∷ m) {w} h = ground (arith, length-insert_found k v m {w = w})
