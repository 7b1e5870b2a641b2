-- ===== src/Common/Maps/Entries.antt =====
-- The entries of a map, and sums over them.
use Prim.Native.Nat.{ℕ, ◌+◌}
use mathlib.Core.Path.{◌≡◌, subst}
use mathlib.Core.Logic.{◌⊎◌, inl, inr, if_pos, if_neg}
use mathlib.Core.List.{[], ◌∷◌}
use mathlib.Core.Option.{Option, none, some, some-injective}
use native.Mathlib.Omega.{arith}
use netobserv_spcg.Common.Lists.{Elem, here, there}
use netobserv_spcg.Common.Maps.{Map, lookup, insert}

module _ {ℓ} {K V : Type ℓ} (dec : Discrete K) where
  -- An entry that is found stands in the map.
  pub lookup-Elem : (k : K) (v : V) (m : Map K V) → lookup dec k m ≡ some v → Elem (k, v) m
  unfolding lookup
  lookup-Elem k v [] e = cc
  lookup-Elem k v ((j, w) ∷ m) e = elim (dec j k) [
    | yes p ↦ here λ i. (p i, some-injective w v (rw (if_pos (dec j k) p) at e) i)
    | no ne ↦ there (lookup-Elem k v m (rw (if_neg (dec j k) ne) at e))
  ]

  -- An entry after an assignment is the assigned one or was there.
  pub Elem-insert :
      (k : K) (v : V) {e : K × V} (m : Map K V)
      → Elem e (insert dec k v m)
      → ((k, v) ≡ e) ⊎ Elem e m
  unfolding insert
  Elem-insert k v [] (here q) = inl q
  Elem-insert k v [] (there m) = elim m [ ]
  Elem-insert k v {e = e} ((j, w) ∷ m) el = elim (dec j k) [
    | yes p ↦
        let n : Elem e ((k, v) ∷ m) = rw (if_pos (dec j k) p) at el in
        elim n [ here q ↦ inl q | there t ↦ inr (there t) ]
    | no ne ↦
        let n : Elem e ((j, w) ∷ insert dec k v m) = rw (if_neg (dec j k) ne) at el in
        elim n [
          | here q ↦ inr (here q)
          | there t ↦ elim (Elem-insert k v m t) [ inl q ↦ inl q | inr t' ↦ inr (there t') ]
        ]
  ]

  -- A property of all entries is kept by an assignment that has it.
  abbrev pub AllEntries : (K → V → Type ℓ) → Map K V → Type ℓ
  AllEntries P m = (e : K × V) → Elem e m → P e.0 e.1

  pub insert-AllEntries :
      (P : K → V → Type ℓ) (k : K) (v : V) (m : Map K V)
      → AllEntries P m
      → P k v
      → AllEntries P (insert dec k v m)
  insert-AllEntries P k v m all p e el = elim (Elem-insert k v m el) [
    | inl q ↦ subst (λ (x : K × V). P x.0 x.1) q p
    | inr t ↦ all e t
  ]

  abbrev pub value_or {κ} : {A : Type κ} → (V → A) → A → Option V → A
  value_or f a none = a
  value_or f a (some v) = f v

  abbrev pub sum_of : (V → ℕ) → Map K V → ℕ
  sum_of f [] = 0
  sum_of f ((k, v) ∷ m) = f v + sum_of f m

  -- An assignment replaces the entry's part of a sum.
  pub sum_of-insert :
      (f : V → ℕ) (k : K) (v : V) (m : Map K V)
      → sum_of f (insert dec k v m) + value_or f 0 (lookup dec k m) ≡ sum_of f m + f v
  unfolding insert lookup
  sum_of-insert f k v [] = omega arith
  sum_of-insert f k v ((j, w) ∷ m) = elim (dec j k) [
    | yes p ↦ rw (if_pos (dec j k) p, if_pos (dec j k) p) (omega arith)
    | no ne ↦ rw (if_neg (dec j k) ne, if_neg (dec j k) ne) (omega (arith, sum_of-insert f k v m))
  ]
