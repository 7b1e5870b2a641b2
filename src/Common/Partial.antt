-- ===== src/Common/Partial.antt =====
-- Go code that may panic: `none` is a run-time panic (an index or a slice out of range).
use Prim.Native.Nat.{◌+◌, ℕ, ◌-◌, ◌≤◌, ◌<◌}
use mathlib.Core.Path.{◌≡◌, refl, ap}
use mathlib.Core.Bool.{Bool, true, false, ◌&&◌, ◌||◌}
use mathlib.Core.Logic.{◌⊎◌, inl, inr}
use mathlib.Core.List.{List, [], ◌∷◌, ◌++◌}
use mathlib.Core.Option.{Option, none, some, some-injective}
use native.Mathlib.Omega.{arith}
use netobserv_spcg.Common.Tests.{leb, le→leb, leb→le, Bool-cases, if◌then◌else◌}
use netobserv_spcg.Common.Lists.{
  length, get_elem?, take, drop, length-take, length-drop, get_elem?_of_lt, length-append,
  take-length-append, drop-length-append,
}

infixl 5 ◌>>=◌
abbrev pub ◌>>=◌ {ℓ κ} : {A : Type ℓ} {B : Type κ} → Option A → (A → Option B) → Option B
none >>= f = none
some a >>= f = f a

-- `b[i]`.
abbrev pub at {ℓ} : {A : Type ℓ} → List A → ℕ → Option A
at b i = get_elem? b i

pub and_left : (a b : Bool) → (a && b) ≡ true → a ≡ true
and_left true b h = refl
and_left false b h = h

pub and_right : (a b : Bool) → (a && b) ≡ true → b ≡ true
and_right true b h = h
and_right false b h = cc

pub or_left : (a b : Bool) → (a || b) ≡ false → a ≡ false
or_left true b h = cc
or_left false b h = refl

pub or_right : (a b : Bool) → (a || b) ≡ false → b ≡ false
or_right true b h = cc
or_right false b h = h

pub none≢some {ℓ} : {A : Type ℓ} {a : A} → none ≡ some a → ⊥
none≢some e = cc

module _ {ℓ} {A : Type ℓ} where
  -- `b[lo:hi]`, for a slice whose capacity is its length.
  unfoldable pub slice : List A → ℕ → ℕ → Option (List A)
  slice b lo hi = if leb lo hi && leb hi (length b) then some (take (hi - lo) (drop lo b)) else none

  -- `b[lo:]`.
  unfoldable pub slice_from : List A → ℕ → Option (List A)
  slice_from b lo = if leb lo (length b) then some (drop lo b) else none

  pub length-slice :
      (b : List A) (lo hi : ℕ) {c : List A}
      → slice b lo hi ≡ some c
      → (length c ≡ hi - lo) × (lo ≤ hi) × (hi ≤ length b)
  unfolding slice
  length-slice b lo hi {c} e = elim (Bool-cases (leb lo hi && leb hi (length b))) [
    | inl h ↦
        let p : lo ≤ hi = leb→le lo hi (and_left (leb lo hi) (leb hi (length b)) h) in
        let q : hi ≤ length b =
          leb→le hi (length b) (and_right (leb lo hi) (leb hi (length b)) h) in
        let eq : take (hi - lo) (drop lo b) ≡ c = some-injective _ _ (rw h at e) in
        (omega (arith, ap length eq, length-take (hi - lo) (drop lo b), length-drop lo b), p, q)
    | inr h ↦ absurd (none≢some (rw h at e))
  ]

  pub length-slice_from :
      (b : List A) (lo : ℕ) {c : List A} → slice_from b lo ≡ some c → length c ≡ length b - lo
  unfolding slice_from
  length-slice_from b lo {c} e = elim (Bool-cases (leb lo (length b))) [
    | inl h ↦
        let eq : drop lo b ≡ c = some-injective _ _ (rw h at e) in
        omega (arith, ap length eq, length-drop lo b)
    | inr h ↦ absurd (none≢some (rw h at e))
  ]

-- The computation does not panic.
abbrev pub Returns {ℓ} : {A : Type ℓ} → Option A → Type ℓ
Returns {A} o = (a : A) × (o ≡ some a)

module _ {ℓ} {A : Type ℓ} where
  pub at-Returns : (b : List A) (i : ℕ) → i < length b → Returns (at b i)
  at-Returns b i h = get_elem?_of_lt b i h

  pub slice-Returns : (b : List A) (lo hi : ℕ) → lo ≤ hi → hi ≤ length b → Returns (slice b lo hi)
  unfolding slice
  slice-Returns b lo hi p q =
      (take (hi - lo) (drop lo b), rw (le→leb lo hi p, le→leb hi (length b) q))

  pub slice_from-Returns : (b : List A) (lo : ℕ) → lo ≤ length b → Returns (slice_from b lo)
  unfolding slice_from
  slice_from-Returns b lo p = (drop lo b, rw (le→leb lo (length b) p))

  pub if-Returns :
      (b : Bool) (x y : Option A)
      → (b ≡ true → Returns x)
      → (b ≡ false → Returns y)
      → Returns (if b then x else y)
  if-Returns true x y f g = f refl
  if-Returns false x y f g = g refl

  pub bind-Returns {κ} :
      {B : Type κ} (m : Option A) (f : A → Option B)
      → Returns m
      → ((a : A) → m ≡ some a → Returns (f a))
      → Returns (m >>= f)
  bind-Returns m f (a, e) k = rw e (k a e)

  -- A sequence returns exactly if both parts do.
  pub bind-eq-some {κ} :
      {B : Type κ} (m : Option A) (f : A → Option B) {b : B}
      → (m >>= f) ≡ some b
      → (a : A) × (m ≡ some a) × (f a ≡ some b)
  bind-eq-some none f e = absurd (none≢some e)
  bind-eq-some (some a) f e = (a, refl, e)

  -- If the first part returns and the sequence panics, the second part panics.
  pub bind-eq-none {κ} :
      {B : Type κ} (m : Option A) (f : A → Option B)
      → Returns m
      → (m >>= f) ≡ none
      → (a : A) × (m ≡ some a) × (f a ≡ none)
  bind-eq-none m f (a, e) h = (a, e, (rw e at h))

  pub if-eq-none :
      (b : Bool) (x y : Option A)
      → (if b then x else y) ≡ none
      → ((b ≡ true) × (x ≡ none)) ⊎ ((b ≡ false) × (y ≡ none))
  if-eq-none true x y h = inl (refl, h)
  if-eq-none false x y h = inr (refl, h)

  pub at-append_length :
      (xs : List A) (y : A) (ys : List A) → at (xs ++ (y ∷ ys)) (length xs) ≡ some y
  at-append_length [] y ys = refl
  at-append_length (x ∷ xs) y ys = at-append_length xs y ys

  -- The middle part of a text is cut out by its bounds.
  pub slice-append :
      (xs ys zs : List A) → slice (xs ++ (ys ++ zs)) (length xs) (length xs + length ys) ≡ some ys
  unfolding slice
  slice-append xs ys zs =
      let total = length-append xs (ys ++ zs) in
      let part = length-append ys zs in
      let e : length xs + length ys - length xs ≡ length ys = omega arith in
      rw (
        le→leb (length xs) (length xs + length ys) (omega arith),
        le→leb (length xs + length ys) (length (xs ++ (ys ++ zs))) (omega arith),
        drop-length-append xs (ys ++ zs),
        e,
        take-length-append ys zs,
      )
