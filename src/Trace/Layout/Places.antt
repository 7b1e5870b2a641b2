-- ===== src/Trace/Layout/Places.antt =====
-- The places that internal/trace/layout.go gives to nodes.
use netobserv_spcg.Common.{
  ℕ, ◌+◌, ◌/◌, ◌≤◌, ◌<◌, ◌≡◌, ◌≢◌, refl, ◌⊎◌, inl, inr, ltb, Bool-cases, arith, ltb-false, ltb→lt,
}
use netobserv_spcg.Trace.Layout.{
  Sizes, Place, Track, ingress, anchor, shared, egress, context, place_at, larger,
}

-- How many nodes the track has.
abbrev pub count_of : Sizes → Track → ℕ
count_of n ingress = n.ingress
count_of n anchor = n.anchor
count_of n shared = n.shared
count_of n egress = n.egress
count_of n context = n.context

abbrev IsLeftOf : Place → Place → Type 0
IsLeftOf p q = p.x + p.width ≤ q.x

abbrev IsAbove : Place → Place → Type 0
IsAbove p q = p.y + p.height ≤ q.y

-- The rectangles do not overlap.
abbrev pub IsApart : Place → Place → Type 0
IsApart p q = (IsLeftOf p q ⊎ IsLeftOf q p) ⊎ (IsAbove p q ⊎ IsAbove q p)

larger-le : (a b : ℕ) → (a ≤ larger a b) × (b ≤ larger a b)
larger-le a b = (ground arith, ground arith)

order : (i j : ℕ) → i ≢ j → (i < j) ⊎ (j < i)
order i j ne = elim (Bool-cases (ltb i j)) [
  | inl less ↦ inl (ltb→lt i j less)
  | inr more ↦ elim (Bool-cases (ltb j i)) [
    | inl less ↦ inr (ltb→lt j i less)
    | inr same ↦ absurd (ne (omega (arith, ltb-false i j more, ltb-false j i same)))
  ]
]

-- Two nodes of a track.
same_track : (n : Sizes) (t : Track) (i j : ℕ) → i < j → IsApart (place_at n t i) (place_at n t j)
unfolding place_at
same_track n ingress i j less = inl (inl (omega arith))
same_track n anchor i j less = inl (inl (omega arith))
same_track n shared i j less = inl (inl (omega arith))
same_track n egress i j less = inl (inl (omega arith))
same_track n context i j less = elim (Bool-cases (ltb (i / 6) (j / 6))) [
  | inl rows ↦ let above = ltb→lt (i / 6) (j / 6) rows in inr (inl (omega arith))
  | inr row ↦ let level = ltb-false (i / 6) (j / 6) row in inl (inl (omega arith))
]

flip : (p q : Place) → IsApart p q → IsApart q p
flip p q (inl (inl h)) = inl (inr h)
flip p q (inl (inr h)) = inl (inl h)
flip p q (inr (inl h)) = inr (inr h)
flip p q (inr (inr h)) = inr (inl h)

-- The node of an anchor and one of the host track stand in the same row.
anchor_shared :
    (n : Sizes) (i j : ℕ) → i < n.anchor → IsApart (place_at n anchor i) (place_at n shared j)
unfolding place_at
anchor_shared n i j less = let (enough, one) = larger-le n.anchor 1 in inl (inl (omega arith))

abbrev row_of : Track → ℕ
row_of ingress = 0
row_of anchor = 1
row_of shared = 1
row_of egress = 2
row_of context = 3

lower_row :
    (n : Sizes) (t u : Track) (i j : ℕ)
    → row_of t < row_of u
    → IsApart (place_at n t i) (place_at n u j)
unfolding place_at
lower_row n ingress anchor i j h = inr (inl (omega arith))
lower_row n ingress shared i j h = inr (inl (omega arith))
lower_row n ingress egress i j h = inr (inl (omega arith))
lower_row n ingress context i j h = inr (inl (omega arith))
lower_row n anchor egress i j h = inr (inl (omega arith))
lower_row n anchor context i j h = inr (inl (omega arith))
lower_row n shared egress i j h = inr (inl (omega arith))
lower_row n shared context i j h = inr (inl (omega arith))
lower_row n egress context i j h = inr (inl (omega arith))
lower_row n ingress ingress i j h = absurd (omega arith)
lower_row n anchor ingress i j h = absurd (omega arith)
lower_row n anchor anchor i j h = absurd (omega arith)
lower_row n anchor shared i j h = absurd (omega arith)
lower_row n shared ingress i j h = absurd (omega arith)
lower_row n shared anchor i j h = absurd (omega arith)
lower_row n shared shared i j h = absurd (omega arith)
lower_row n egress ingress i j h = absurd (omega arith)
lower_row n egress anchor i j h = absurd (omega arith)
lower_row n egress shared i j h = absurd (omega arith)
lower_row n egress egress i j h = absurd (omega arith)
lower_row n context ingress i j h = absurd (omega arith)
lower_row n context anchor i j h = absurd (omega arith)
lower_row n context shared i j h = absurd (omega arith)
lower_row n context egress i j h = absurd (omega arith)
lower_row n context context i j h = absurd (omega arith)

same_track-IsApart :
    (n : Sizes) (t : Track) (i j : ℕ) → i ≢ j → IsApart (place_at n t i) (place_at n t j)
same_track-IsApart n t i j ne = elim (order i j ne) [
  | inl less ↦ same_track n t i j less
  | inr more ↦ flip (place_at n t j) (place_at n t i) (same_track n t j i more)
]

same_row :
    (n : Sizes) (t u : Track) (i j : ℕ)
    → row_of t ≡ row_of u
    → i < count_of n t
    → j < count_of n u
    → (t ≡ u → i ≢ j)
    → IsApart (place_at n t i) (place_at n u j)
same_row n ingress ingress i j r hi hj ne = same_track-IsApart n ingress i j (ne refl)
same_row n anchor anchor i j r hi hj ne = same_track-IsApart n anchor i j (ne refl)
same_row n shared shared i j r hi hj ne = same_track-IsApart n shared i j (ne refl)
same_row n egress egress i j r hi hj ne = same_track-IsApart n egress i j (ne refl)
same_row n context context i j r hi hj ne = same_track-IsApart n context i j (ne refl)
same_row n anchor shared i j r hi hj ne = anchor_shared n i j hi
same_row n shared anchor i j r hi hj ne =
    flip (place_at n anchor j) (place_at n shared i) (anchor_shared n j i hj)
same_row n ingress anchor i j r hi hj ne = absurd (omega (arith, r))
same_row n ingress shared i j r hi hj ne = absurd (omega (arith, r))
same_row n ingress egress i j r hi hj ne = absurd (omega (arith, r))
same_row n ingress context i j r hi hj ne = absurd (omega (arith, r))
same_row n anchor ingress i j r hi hj ne = absurd (omega (arith, r))
same_row n anchor egress i j r hi hj ne = absurd (omega (arith, r))
same_row n anchor context i j r hi hj ne = absurd (omega (arith, r))
same_row n shared ingress i j r hi hj ne = absurd (omega (arith, r))
same_row n shared egress i j r hi hj ne = absurd (omega (arith, r))
same_row n shared context i j r hi hj ne = absurd (omega (arith, r))
same_row n egress ingress i j r hi hj ne = absurd (omega (arith, r))
same_row n egress anchor i j r hi hj ne = absurd (omega (arith, r))
same_row n egress shared i j r hi hj ne = absurd (omega (arith, r))
same_row n egress context i j r hi hj ne = absurd (omega (arith, r))
same_row n context ingress i j r hi hj ne = absurd (omega (arith, r))
same_row n context anchor i j r hi hj ne = absurd (omega (arith, r))
same_row n context shared i j r hi hj ne = absurd (omega (arith, r))
same_row n context egress i j r hi hj ne = absurd (omega (arith, r))

-- On a layout with so many nodes on each track, two different places do not overlap.
pub place_at-IsApart :
    (n : Sizes) (t u : Track) (i j : ℕ)
    → i < count_of n t
    → j < count_of n u
    → (t ≡ u → i ≢ j)
    → IsApart (place_at n t i) (place_at n u j)
place_at-IsApart n t u i j hi hj ne = elim (Bool-cases (ltb (row_of t) (row_of u))) [
  | inl above ↦ lower_row n t u i j (ltb→lt _ _ above)
  | inr not_above ↦ elim (Bool-cases (ltb (row_of u) (row_of t))) [
    | inl below ↦ flip (place_at n u j) (place_at n t i) (lower_row n u t j i (ltb→lt _ _ below))
    | inr level ↦
        same_row n t u i j (omega (arith, ltb-false _ _ not_above, ltb-false _ _ level)) hi hj ne
  ]
]
