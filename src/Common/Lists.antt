-- ===== src/Common/Lists.antt =====
-- Lists measured and indexed by native numbers, under the library's names.
use Prim.Native.Nat.{ℕ, zero, suc, ◌+◌, ◌-◌, ◌≤◌, ◌<◌, min}
use mathlib.Core.Path.{◌≡◌, refl, ap, subst, ◌∙◌}
use mathlib.Core.Logic.{◌⊎◌, inl, inr}
use mathlib.Core.List.{List, [], ◌∷◌, ◌++◌, map}
use mathlib.Core.Option.{Option, none, some}
use mathlib.Core.Bool.{Bool, true}
use native.Mathlib.Omega.{arith}
use netobserv_spcg.Common.Tests.{if◌then◌else◌, Bool-cases}

module _ {ℓ} {A : Type ℓ} where
  abbrev pub length : List A → ℕ
  length [] = 0
  length (x ∷ xs) = suc (length xs)

  abbrev pub get_elem? : List A → ℕ → Option A
  get_elem? [] i = none
  get_elem? (x ∷ xs) zero = some x
  get_elem? (x ∷ xs) (suc i) = get_elem? xs i

  abbrev pub take : ℕ → List A → List A
  take zero xs = []
  take (suc n) [] = []
  take (suc n) (x ∷ xs) = x ∷ take n xs

  abbrev pub drop : ℕ → List A → List A
  drop zero xs = xs
  drop (suc n) [] = []
  drop (suc n) (x ∷ xs) = drop n xs

  abbrev pub replicate : ℕ → A → List A
  replicate zero a = []
  replicate (suc n) a = a ∷ replicate n a

  -- `for … if p(x) { out = append(out, x) }`.
  abbrev pub keep : (A → Bool) → List A → List A
  keep p [] = []
  keep p (x ∷ xs) = if p x then x ∷ keep p xs else keep p xs

module _ {ℓ} {A : Type ℓ} where
  pub length-append : (xs ys : List A) → length (xs ++ ys) ≡ length xs + length ys
  length-append [] ys = omega arith
  length-append (x ∷ xs) ys = omega (arith, length-append xs ys)

  pub length-take : (n : ℕ) (xs : List A) → length (take n xs) ≡ min n (length xs)
  length-take zero xs = omega arith
  length-take (suc n) [] = omega arith
  length-take (suc n) (x ∷ xs) = omega (arith, length-take n xs)

  pub length-drop : (n : ℕ) (xs : List A) → length (drop n xs) ≡ length xs - n
  length-drop zero xs = omega arith
  length-drop (suc n) [] = omega arith
  length-drop (suc n) (x ∷ xs) = omega (arith, length-drop n xs)

  pub length-replicate : (n : ℕ) (a : A) → length (replicate n a) ≡ n
  length-replicate zero a = refl
  length-replicate (suc n) a = ap suc (length-replicate n a)

  pub take-length-append : (xs ys : List A) → take (length xs) (xs ++ ys) ≡ xs
  take-length-append [] ys = refl
  take-length-append (x ∷ xs) ys = ap (◌∷◌ x) (take-length-append xs ys)

  pub drop-length-append : (xs ys : List A) → drop (length xs) (xs ++ ys) ≡ ys
  drop-length-append [] ys = refl
  drop-length-append (x ∷ xs) ys = drop-length-append xs ys

  -- A read within the bounds yields an element.
  pub get_elem?_of_lt : (xs : List A) (i : ℕ) → i < length xs → (a : A) × (get_elem? xs i ≡ some a)
  get_elem?_of_lt [] i h = elim h [ ]
  get_elem?_of_lt (x ∷ xs) zero h = (x, refl)
  get_elem?_of_lt (x ∷ xs) (suc i) h = get_elem?_of_lt xs i (omega arith)

  pub get_elem?-eq-none : (xs : List A) (i : ℕ) → length xs ≤ i → get_elem? xs i ≡ none
  get_elem?-eq-none [] i h = refl
  get_elem?-eq-none (x ∷ xs) zero h = absurd (omega arith)
  get_elem?-eq-none (x ∷ xs) (suc i) h = get_elem?-eq-none xs i (omega arith)

  pub length-keep-le : (p : A → Bool) (xs : List A) → length (keep p xs) ≤ length xs
  length-keep-le p [] = omega arith
  length-keep-le p (x ∷ xs) = ground (arith, length-keep-le p xs)

  pub length-map {κ} : {B : Type κ} (xs : List A) (f : A → B) → length (map f xs) ≡ length xs
  length-map [] f = refl
  length-map (x ∷ xs) f = ap suc (length-map xs f)

module _ {ℓ} {A : Type ℓ} where
  -- `x` stands in the list; a sum, which proofs take apart.
  pub data Elem (x : A) : List A → Type ℓ where
    here : {y : A} {ys : List A} → y ≡ x → Elem x (y ∷ ys)
    there : {y : A} {ys : List A} → Elem x ys → Elem x (y ∷ ys)

  abbrev pub All {κ} : (A → Type κ) → List A → Type κ
  All P [] = Unit
  All P (x ∷ xs) = P x × All P xs

module _ {ℓ} {A : Type ℓ} where
  pub Elem-append_left : {x : A} {xs : List A} (ys : List A) → Elem x xs → Elem x (xs ++ ys)
  Elem-append_left ys (here e) = here e
  Elem-append_left ys (there m) = there (Elem-append_left ys m)

  pub Elem-append_right : {x : A} (xs : List A) {ys : List A} → Elem x ys → Elem x (xs ++ ys)
  Elem-append_right [] m = m
  Elem-append_right (y ∷ xs) m = there (Elem-append_right xs m)

  pub Elem-append : {x : A} (xs ys : List A) → Elem x (xs ++ ys) → Elem x xs ⊎ Elem x ys
  Elem-append [] ys m = inr m
  Elem-append (y ∷ xs) ys (here e) = inl (here e)
  Elem-append (y ∷ xs) ys (there m) = elim (Elem-append xs ys m) [
    | inl l ↦ inl (there l)
    | inr r ↦ inr r
  ]

  pub All-append {κ} : (P : A → Type κ) (xs ys : List A) → All P xs → All P ys → All P (xs ++ ys)
  All-append P [] ys hx hy = hy
  All-append P (x ∷ xs) ys hx hy = (hx.0, All-append P xs ys hx.1 hy)

  pub All-Elem {κ} : (P : A → Type κ) {x : A} (xs : List A) → All P xs → Elem x xs → P x
  All-Elem P (y ∷ xs) h (here e) = subst P e h.0
  All-Elem P (y ∷ xs) h (there m) = All-Elem P xs h.1 m
  All-Elem P [] h m = elim m [ ]

module _ {ℓ} {A : Type ℓ} (p : A → Bool) where
  -- `keep` keeps the elements that pass, and no other.
  pub Elem-keep : {x : A} (xs : List A) → Elem x (keep p xs) → Elem x xs × (p x ≡ true)
  Elem-keep [] m = elim m [ ]
  Elem-keep {x = x} (y ∷ xs) m = elim (Bool-cases (p y)) [
    | inr t ↦ let k = Elem-keep xs (rw t at m) in (there k.0, k.1)
    | inl t ↦
        let n : Elem x (y ∷ keep p xs) = rw t at m in
        elim n [
          | here e ↦ (here e, subst (λ a. p a ≡ true) e t)
          | there j ↦ let k = Elem-keep xs j in (there k.0, k.1)
        ]
  ]

  pub keep-Elem : {x : A} (xs : List A) → Elem x xs → p x ≡ true → Elem x (keep p xs)
  keep-Elem [] m e = elim m [ ]
  keep-Elem (y ∷ xs) (here q) e = rw (ap p q ∙ e) (here q)
  keep-Elem (y ∷ xs) (there m) e = elim (Bool-cases (p y)) [
    | inl t ↦ rw t (there (keep-Elem xs m e))
    | inr t ↦ rw t (keep-Elem xs m e)
  ]

module _ {ℓ} {A : Type ℓ} where
  pub Elem-take : {x : A} (n : ℕ) (xs : List A) → Elem x (take n xs) → Elem x xs
  Elem-take zero xs m = elim m [ ]
  Elem-take (suc n) [] m = elim m [ ]
  Elem-take (suc n) (y ∷ xs) (here e) = here e
  Elem-take (suc n) (y ∷ xs) (there m) = there (Elem-take n xs m)

  pub length-take-le : (n : ℕ) (xs : List A) → length (take n xs) ≤ n
  length-take-le n xs = omega (arith, length-take n xs)

module _ {ℓ} {A : Type ℓ} where
  -- The sum of a number of each element.
  abbrev pub sum_by : (A → ℕ) → List A → ℕ
  sum_by f [] = 0
  sum_by f (x ∷ xs) = f x + sum_by f xs

module _ {ℓ κ} {A : Type ℓ} {B : Type κ} where
  pub Elem-map :
      (f : A → B) {y : B} (xs : List A) → Elem y (map f xs) → (x : A) × Elem x xs × (f x ≡ y)
  Elem-map f [] m = elim m [ ]
  Elem-map f (x ∷ xs) (here e) = (x, here refl, e)
  Elem-map f (x ∷ xs) (there m) = let (a, j, e) = Elem-map f xs m in (a, there j, e)

  pub map-Elem : (f : A → B) {x : A} (xs : List A) → Elem x xs → Elem (f x) (map f xs)
  map-Elem f [] m = elim m [ ]
  map-Elem f (y ∷ xs) (here e) = here (ap f e)
  map-Elem f (y ∷ xs) (there m) = there (map-Elem f xs m)
