-- ===== src/Common/Sort.antt =====
-- Go's `sort.Slice(xs, less)` as an insertion sort. Go leaves the order of elements that are
-- equal under `less` open; here they keep their order.
use Prim.Native.Nat.{ℕ, suc, ◌+◌}
use Prim.Native.Char.{code}
use Prim.Native.String.{String}
use mathlib.Core.Path.{◌≡◌, refl, ap, subst, ◌∙◌}
use mathlib.Core.Logic.{◌⊎◌, inl, inr}
use mathlib.Core.Bool.{Bool, true, false}
use mathlib.Core.List.{List, [], ◌∷◌, Perm}
use mathlib.Core.List.Perm
use native.Mathlib.Omega.{arith}
use netobserv_spcg.Common.Tests.{ltb, ◌==◌, if◌then◌else◌, Bool-cases}
use netobserv_spcg.Common.Lists.{sum_by, length, Elem, here, there}

-- `s < t` on strings: by code points, which UTF-8 bytes follow.
unfoldable pub str_lt : String → String → Bool
str_lt String.[] String.[] = false
str_lt String.[] (String.◌∷◌ d t) = true
str_lt (String.◌∷◌ c s) String.[] = false
str_lt (String.◌∷◌ c s) (String.◌∷◌ d t) =
    if ltb (code c) (code d) then true else if code c == code d then str_lt s t else false

module _ {ℓ} {A : Type ℓ} (less : A → A → Bool) where
  unfoldable pub insert_sorted : A → List A → List A
  insert_sorted x [] = x ∷ []
  insert_sorted x (y ∷ ys) = if less y x then y ∷ insert_sorted x ys else x ∷ y ∷ ys

  unfoldable pub sort_slice : List A → List A
  sort_slice [] = []
  sort_slice (x ∷ xs) = insert_sorted x (sort_slice xs)

  pub insert_sorted-perm : (x : A) (ys : List A) → Perm (insert_sorted x ys) (x ∷ ys)
  unfolding insert_sorted
  insert_sorted-perm x [] = Perm.refl (x ∷ [])
  insert_sorted-perm x (y ∷ ys) = elim (Bool-cases (less y x)) [
    | inl e ↦ rw e (Perm.trans (Perm.cons y (insert_sorted-perm x ys)) (Perm.swap x y ys))
    | inr e ↦ rw e (Perm.refl (x ∷ y ∷ ys))
  ]

  -- Sorting loses and invents no element.
  pub sort_slice-perm : (xs : List A) → Perm (sort_slice xs) xs
  unfolding sort_slice
  sort_slice-perm [] = Perm.refl []
  sort_slice-perm (x ∷ xs) =
      Perm.trans (insert_sorted-perm x (sort_slice xs)) (Perm.cons x (sort_slice-perm xs))

  length-insert_sorted : (x : A) (ys : List A) → length (insert_sorted x ys) ≡ suc (length ys)
  unfolding insert_sorted
  length-insert_sorted x [] = refl
  length-insert_sorted x (y ∷ ys) = ground (arith, length-insert_sorted x ys)

  pub length-sort_slice : (xs : List A) → length (sort_slice xs) ≡ length xs
  unfolding sort_slice
  length-sort_slice [] = refl
  length-sort_slice (x ∷ xs) =
      length-insert_sorted x (sort_slice xs) ∙ ap suc (length-sort_slice xs)

  pub Elem-insert_sorted :
      {f : A} (x : A) (ys : List A) → Elem f (insert_sorted x ys) → (x ≡ f) ⊎ Elem f ys
  unfolding insert_sorted
  Elem-insert_sorted x [] (here e) = inl e
  Elem-insert_sorted x [] (there m) = elim m [ ]
  Elem-insert_sorted {f = f} x (y ∷ ys) m = elim (Bool-cases (less y x)) [
    | inl t ↦
        let n : Elem f (y ∷ insert_sorted x ys) = rw t at m in
        elim n [
          | here e ↦ inr (here e)
          | there m' ↦ elim (Elem-insert_sorted x ys m') [ inl e ↦ inl e | inr k ↦ inr (there k) ]
        ]
    | inr t ↦
        let n : Elem f (x ∷ y ∷ ys) = rw t at m in elim n [ here e ↦ inl e | there m' ↦ inr m' ]
  ]

  pub Elem-sort_slice : {f : A} (xs : List A) → Elem f (sort_slice xs) → Elem f xs
  unfolding sort_slice
  Elem-sort_slice [] m = m
  Elem-sort_slice (x ∷ xs) m = elim (Elem-insert_sorted x (sort_slice xs) m) [
    | inl e ↦ here e
    | inr k ↦ there (Elem-sort_slice xs k)
  ]

  insert_sorted-here : (x : A) (ys : List A) → Elem x (insert_sorted x ys)
  unfolding insert_sorted
  insert_sorted-here x [] = here refl
  insert_sorted-here x (y ∷ ys) = elim (Bool-cases (less y x)) [
    | inl t ↦ rw t (there (insert_sorted-here x ys))
    | inr t ↦ rw t (here refl)
  ]

  insert_sorted-there : {f : A} (x : A) (ys : List A) → Elem f ys → Elem f (insert_sorted x ys)
  unfolding insert_sorted
  insert_sorted-there x [] m = elim m [ ]
  insert_sorted-there x (y ∷ ys) m = elim (Bool-cases (less y x)) [
    | inr t ↦ rw t (there m)
    | inl t ↦ rw t (elim m [ here e ↦ here e | there k ↦ there (insert_sorted-there x ys k) ])
  ]

  pub sort_slice-Elem : {f : A} (xs : List A) → Elem f xs → Elem f (sort_slice xs)
  unfolding sort_slice
  sort_slice-Elem (x ∷ xs) (here e) =
      subst (λ a. Elem a (insert_sorted x (sort_slice xs))) e (insert_sorted-here x (sort_slice xs))
  sort_slice-Elem (x ∷ xs) (there m) = insert_sorted-there x (sort_slice xs) (sort_slice-Elem xs m)
  sort_slice-Elem [] m = elim m [ ]

  insert_sorted-sum_by :
      (f : A → ℕ) (x : A) (ys : List A) → sum_by f (insert_sorted x ys) ≡ f x + sum_by f ys
  unfolding insert_sorted
  insert_sorted-sum_by f x [] = refl
  insert_sorted-sum_by f x (y ∷ ys) = elim (Bool-cases (less y x)) [
    | inl t ↦ rw t (omega (arith, insert_sorted-sum_by f x ys))
    | inr t ↦ rw t
  ]

  pub sort_slice-sum_by : (f : A → ℕ) (xs : List A) → sum_by f (sort_slice xs) ≡ sum_by f xs
  unfolding sort_slice
  sort_slice-sum_by f [] = refl
  sort_slice-sum_by f (x ∷ xs) =
      omega (arith, insert_sorted-sum_by f x (sort_slice xs), sort_slice-sum_by f xs)
