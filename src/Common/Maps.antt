-- ===== src/Common/Maps.antt =====
-- Go maps as association lists over a key with decidable equality. The iteration order of `range`
-- is the order of the list, which is the order of insertion.
pub mod Erase
pub mod Entries
use Prim.Native.Nat.{suc, ◌≤◌}
use mathlib.Core.Path.{◌≡◌, refl}
use mathlib.Core.Logic.{◌≢◌, inl, inr, ite, if_pos, if_neg}
use mathlib.Core.Bool.{Bool, true, false}
use mathlib.Core.List.{List, [], ◌∷◌}
use mathlib.Core.Option.{Option, none, some}
use native.Mathlib.Omega.{arith}
use netobserv_spcg.Common.Tests.{Option-cases}
use netobserv_spcg.Common.Lists.{length}

abbrev pub is_some {ℓ} : {A : Type ℓ} → Option A → Bool
is_some none = false
is_some (some a) = true

-- `map[K]V`.
abbrev pub Map {ℓ} : Type ℓ → Type ℓ → Type ℓ
Map K V = List (K × V)

module _ {ℓ} {K V : Type ℓ} (dec : Discrete K) where
  -- `v, ok := m[k]`.
  unfoldable pub lookup : K → Map K V → Option V
  lookup k [] = none
  lookup k ((j, v) ∷ m) = ite (dec j k) (some v) (lookup k m)

  -- `m[k] = v`.
  unfoldable pub insert : K → V → Map K V → Map K V
  insert k v [] = (k, v) ∷ []
  insert k v ((j, w) ∷ m) = ite (dec j k) ((k, v) ∷ m) ((j, w) ∷ insert k v m)

  -- `delete(m, k)`.
  unfoldable pub erase : K → Map K V → Map K V
  erase k [] = []
  erase k ((j, w) ∷ m) = ite (dec j k) (erase k m) ((j, w) ∷ erase k m)

  -- `_, ok := m[k]`.
  unfoldable pub contains : K → Map K V → Bool
  contains k m = is_some (lookup k m)

  pub lookup-insert :
      (k j : K) (v : V) (m : Map K V)
      → lookup j (insert k v m) ≡ ite (dec k j) (some v) (lookup j m)
  unfolding lookup insert
  lookup-insert k j v [] = refl
  lookup-insert k j v ((i, w) ∷ m) = ground (arith, lookup-insert k j v m)

  pub lookup-insert_self : (k : K) (v : V) (m : Map K V) → lookup k (insert k v m) ≡ some v
  lookup-insert_self k v m = rw lookup-insert (if_pos (dec k k) refl _ _)

  pub lookup-insert_ne :
      (k j : K) (v : V) (m : Map K V) → k ≢ j → lookup j (insert k v m) ≡ lookup j m
  lookup-insert_ne k j v m h = rw lookup-insert (if_neg (dec k j) h _ _)

  pub lookup-erase :
      (k j : K) (m : Map K V) → lookup j (erase k m) ≡ ite (dec k j) none (lookup j m)
  unfolding lookup erase
  lookup-erase k j [] = ground arith
  lookup-erase k j ((i, w) ∷ m) = ground (arith, lookup-erase k j m)

  pub contains-insert :
      (k j : K) (v : V) (m : Map K V)
      → contains j (insert k v m) ≡ ite (dec k j) true (contains j m)
  unfolding contains
  contains-insert k j v m = rw lookup-insert (elim (dec k j) [
    | yes p ↦ rw (if_pos (dec k j) p, if_pos (dec k j) p)
    | no p ↦ rw (if_neg (dec k j) p, if_neg (dec k j) p)
  ])

  pub contains-erase :
      (k j : K) (m : Map K V) → contains j (erase k m) ≡ ite (dec k j) false (contains j m)
  unfolding contains
  contains-erase k j m = rw lookup-erase (elim (dec k j) [
    | yes p ↦ rw (if_pos (dec k j) p, if_pos (dec k j) p)
    | no p ↦ rw (if_neg (dec k j) p, if_neg (dec k j) p)
  ])

  pub contains-insert_self : (k : K) (v : V) (m : Map K V) → contains k (insert k v m) ≡ true
  unfolding contains
  contains-insert_self k v m = rw (lookup-insert_self k v m)

  pub contains_of_lookup : (k : K) (m : Map K V) (v : V) → lookup k m ≡ some v → contains k m ≡ true
  unfolding contains
  contains_of_lookup k m v e = rw e

  pub lookup_of_contains :
      (k : K) (m : Map K V) → contains k m ≡ true → (v : V) × (lookup k m ≡ some v)
  unfolding contains
  lookup_of_contains k m h = elim (Option-cases (lookup k m)) [
    | inl e ↦ absurd (ground (arith, e))
    | inr e ↦ e
  ]

  -- A write adds one key at most.
  pub length-insert-le : (k : K) (v : V) (m : Map K V) → length (insert k v m) ≤ suc (length m)
  unfolding insert
  length-insert-le k v [] = omega arith
  length-insert-le k v ((j, w) ∷ m) = elim (dec j k) [
    | yes p ↦ rw (if_pos (dec j k) p) (omega arith)
    | no p ↦ rw (if_neg (dec j k) p) (omega (arith, length-insert-le k v m))
  ]

  pub length-erase-le : (k : K) (m : Map K V) → length (erase k m) ≤ length m
  unfolding erase
  length-erase-le k [] = omega arith
  length-erase-le k ((j, w) ∷ m) = elim (dec j k) [
    | yes p ↦ rw (if_pos (dec j k) p) (omega (arith, length-erase-le k m))
    | no p ↦ rw (if_neg (dec j k) p) (omega (arith, length-erase-le k m))
  ]

  -- The keys of a longer map.
  pub contains-cons :
      (k j : K) (v : V) (m : Map K V) → contains k ((j, v) ∷ m) ≡ ite (dec j k) true (contains k m)
  unfolding contains lookup
  contains-cons k j v m = elim (dec j k) [
    | yes p ↦ rw (if_pos (dec j k) p, if_pos (dec j k) p)
    | no p ↦ rw (if_neg (dec j k) p, if_neg (dec j k) p)
  ]
