-- ===== src/Common/Apart.antt =====
-- Lists whose elements are told apart.
use mathlib.Core.Path.{◌≡◌, refl, ap, subst, ◌∙◌, sym}
use mathlib.Core.Logic.{◌≢◌, inl, inr}
use mathlib.Core.List.{List, [], ◌∷◌, ◌++◌, map}
use mathlib.Core.Bool.{Bool}
use netobserv_spcg.Common.Tests.{Bool-cases}
use netobserv_spcg.Common.Lists.{Elem, here, there, Elem-append, Elem-map, Elem-keep, keep}

module _ {ℓ} {A : Type ℓ} where
  -- Every element stands in the relation to all that follow.
  abbrev pub AreApart {κ} : (A → A → Type κ) → List A → Type (ℓ ⊔ κ)
  AreApart R [] = Unit
  AreApart R (x ∷ xs) = ((y : A) → Elem y xs → R x y) × AreApart R xs

  pub AreApart-append {κ} :
      (R : A → A → Type κ) (xs : List A) (y : A)
      → AreApart R xs
      → ((x : A) → Elem x xs → R x y)
      → AreApart R (xs ++ (y ∷ []))
  AreApart-append R [] y apart new = ((λ x m. elim m [ ]), tt)
  AreApart-append R (x ∷ xs) y apart new = (
    (λ z m. elim (Elem-append xs (y ∷ []) m) [
      | inl old ↦ apart.0 z old
      | inr last ↦ elim last [
        | here q ↦ subst (R x) q (new x (here refl))
        | there off ↦ elim off [ ]
      ]
    ]),
    AreApart-append R xs y apart.1 (λ w m. new w (there m)),
  )

  pub AreApart-keep {κ} :
      (R : A → A → Type κ) (p : A → Bool) (xs : List A) → AreApart R xs → AreApart R (keep p xs)
  AreApart-keep R p [] apart = tt
  AreApart-keep R p (x ∷ xs) apart = elim (Bool-cases (p x)) [
    | inl t ↦ rw t ((λ y m. apart.0 y (Elem-keep p xs m).0), AreApart-keep R p xs apart.1)
    | inr t ↦ rw t (AreApart-keep R p xs apart.1)
  ]

-- No two elements have the same key.
abbrev pub AreApartBy : {A K : Type 0} → (A → K) → List A → Type 0
AreApartBy key xs = AreApart (λ x y. key x ≢ key y) xs

-- A function that changes no key keeps the elements apart.
pub AreApartBy-map :
    {A K : Type 0} (key : A → K) (f : A → A) (xs : List A)
    → ((x : A) → key (f x) ≡ key x)
    → AreApartBy key xs
    → AreApartBy key (map f xs)
AreApartBy-map key f [] same apart = tt
AreApartBy-map key f (x ∷ xs) same apart = (
  (λ y m.
      let (z, inside, made) = Elem-map f xs m in
      λ e. apart.0 z inside (sym (same x) ∙ (e ∙ (sym (ap key made) ∙ same z)))),
  AreApartBy-map key f xs same apart.1,
)
