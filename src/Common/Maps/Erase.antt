-- ===== src/Common/Maps/Erase.antt =====
-- Deleting the keys that hold a given kind of value, as loops over Go maps do.
use netobserv_spcg.Common.Tests.{Bool-cases, if◌then◌else◌}
use netobserv_spcg.Common.Lists.{Elem, here, there}
use netobserv_spcg.Common.Maps.{Map, lookup, erase, contains, lookup-erase, contains_of_lookup}
use mathlib.Core.Path.{◌≡◌, refl, sym, ◌∙◌, ap}
use mathlib.Core.Logic.{◌≢◌, ◌⊎◌, inl, inr, if_pos, if_neg}
use mathlib.Core.Bool.{Bool, true, false}
use mathlib.Core.List.{List, [], ◌∷◌}
use mathlib.Core.Option.{none, some, some-injective}

module _ {ℓ} {K V : Type ℓ} (dec : Discrete K) where
  -- Each key stands once, as in a Go map.
  abbrev pub Distinct : Map K V → Type 0
  Distinct [] = Unit
  Distinct ((k, v) ∷ m) = (contains dec k m ≡ false) × Distinct m

  -- The keys whose value passes the test.
  unfoldable pub keys_where : (V → Bool) → Map K V → List K
  keys_where p [] = []
  keys_where p ((k, v) ∷ m) = let rest = keys_where p m in if p v then k ∷ rest else rest

  unfoldable pub erase_all : List K → Map K V → Map K V
  erase_all [] m = m
  erase_all (k ∷ ks) m = erase_all ks (erase dec k m)

  lookup-cons_self : (k : K) (v : V) (m : Map K V) → lookup dec k ((k, v) ∷ m) ≡ some v
  unfolding lookup
  lookup-cons_self k v m = if_pos (dec k k) refl _ _

  lookup-cons_ne :
      (j k : K) (v : V) (m : Map K V) → j ≢ k → lookup dec k ((j, v) ∷ m) ≡ lookup dec k m
  unfolding lookup
  lookup-cons_ne j k v m h = if_neg (dec j k) h _ _

  keys_where-lookup :
      (p : V → Bool) (m : Map K V) (k : K)
      → Distinct m
      → Elem k (keys_where p m)
      → (v : V) × (lookup dec k m ≡ some v) × (p v ≡ true)
  unfolding keys_where
  keys_where-lookup p [] k d j = elim j [ ]
  keys_where-lookup p ((i, w) ∷ m) k d j = elim (Bool-cases (p w)) [
    | inl e ↦ elim (if_keys e j) [
      | inl q ↦ (w, rw (← q) (lookup-cons_self i w m), e)
      | inr j' ↦ later (keys_where-lookup p m k d.1 j')
    ]
    | inr e ↦ later (keys_where-lookup p m k d.1 (rw e at j))
  ]
    where
      if_keys :
          p w ≡ true
          → Elem k (if p w then i ∷ keys_where p m else keys_where p m)
          → (i ≡ k) ⊎ Elem k (keys_where p m)
      if_keys e j = split (rw e at j)
        where
          split : Elem k (i ∷ keys_where p m) → (i ≡ k) ⊎ Elem k (keys_where p m)
          split (here q) = inl q
          split (there l) = inr l

      later :
          (v : V) × (lookup dec k m ≡ some v) × (p v ≡ true)
          → (v : V) × (lookup dec k ((i, w) ∷ m) ≡ some v) × (p v ≡ true)
      later (v, e, q) = let ne : i ≢ k = λ s. absent s e in (v, lookup-cons_ne i k w m ne ∙ e, q)
        where
          absent : {v : V} → i ≡ k → lookup dec k m ≡ some v → ⊥
          absent {v} s e = cc (sym d.0 ∙ contains_of_lookup dec i m v (rw (← s) at e))

  -- A key whose value passes the test is selected.
  pub lookup-keys_where :
      (p : V → Bool) (m : Map K V) (k : K) {v : V}
      → lookup dec k m ≡ some v
      → p v ≡ true
      → Elem k (keys_where p m)
  unfolding keys_where lookup
  lookup-keys_where p [] k e q = cc
  lookup-keys_where p ((i, w) ∷ m) k {v} e q = elim (dec i k) [
    | yes s ↦
        let same : w ≡ v = some-injective _ _ (sym (if_pos (dec i k) s _ _) ∙ e) in
        rw (ap p same ∙ q) (here s)
    | no s ↦
        let j = lookup-keys_where p m k (sym (if_neg (dec i k) s _ _) ∙ e) q in
        elim (Bool-cases (p w)) [ inl t ↦ rw t (there j) | inr t ↦ rw t j ]
  ]

  pub lookup-erase_all_other :
      (ks : List K) (m : Map K V) (k : K)
      → ¬ Elem k ks
      → lookup dec k (erase_all ks m) ≡ lookup dec k m
  unfolding erase_all
  lookup-erase_all_other [] m k h = refl
  lookup-erase_all_other (i ∷ ks) m k h =
      lookup-erase_all_other ks (erase dec i m) k (λ j. h (there j))
      ∙ lookup-erase dec i k m
      ∙ if_neg (dec i k) (λ s. h (here s)) _ _

  erase_all-none :
      (ks : List K) (m : Map K V) (k : K)
      → lookup dec k m ≡ none
      → lookup dec k (erase_all ks m) ≡ none
  unfolding erase_all
  erase_all-none [] m k h = h
  erase_all-none (i ∷ ks) m k h = erase_all-none ks (erase dec i m) k (elim (dec i k) [
    | yes s ↦ lookup-erase dec i k m ∙ if_pos (dec i k) s _ _
    | no s ↦ lookup-erase dec i k m ∙ if_neg (dec i k) s _ _ ∙ h
  ])

  pub lookup-erase_all-Elem :
      (ks : List K) (m : Map K V) (k : K) → Elem k ks → lookup dec k (erase_all ks m) ≡ none
  unfolding erase_all
  lookup-erase_all-Elem (i ∷ ks) m k (here s) =
      erase_all-none ks (erase dec i m) k (lookup-erase dec i k m ∙ if_pos (dec i k) s _ _)
  lookup-erase_all-Elem (i ∷ ks) m k (there j) = lookup-erase_all-Elem ks (erase dec i m) k j
  lookup-erase_all-Elem [] m k j = elim j [ ]

  -- A key whose value fails the test is not selected.
  pub not-Elem-keys_where :
      (p : V → Bool) (m : Map K V) (k : K) {v : V}
      → Distinct m
      → lookup dec k m ≡ some v
      → p v ≡ false
      → ¬ Elem k (keys_where p m)
  not-Elem-keys_where p m k {v} d e q j =
      let (w, e', q') = keys_where-lookup p m k d j in
      let same : v ≡ w = some-injective _ _ (sym e ∙ e') in cc (sym q ∙ ap p same ∙ q')
