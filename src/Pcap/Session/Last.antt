-- ===== src/Pcap/Session/Last.antt =====
-- What `trimPodBuffer` of internal/pcap/session.go leaves of a list, told without its arithmetic.
use netobserv_spcg.Common.{
  ℕ, zero, suc, ◌+◌, ◌-◌, ◌≤◌, ◌≡◌, refl, sym, ◌∙◌, true, false, List, [], ◌∷◌, ◌++◌, ltb, min,
  length, take, drop, length-append, length-drop, drop-length-append, Bool-cases, inl, inr, arith,
  ltb→lt, ltb-false, lt→ltb, ap, le→ltb-false,
}
use netobserv_spcg.Pcap.Session.{trim}

module _ {ℓ} {A : Type ℓ} where
  -- The second list is the end of the first: its last `n` elements, or all if it has fewer.
  abbrev pub IsLast : ℕ → List A → List A → Type ℓ
  IsLast n xs ys = (before : List A) × (xs ≡ before ++ ys) × (length ys ≡ min n (length xs))

  drop-drop-snoc :
      (k : ℕ) (xs : List A) (ys : List A) → k ≤ length xs → drop k xs ++ ys ≡ drop k (xs ++ ys)
  drop-drop-snoc zero xs ys h = refl
  drop-drop-snoc (suc k) [] ys h = absurd (omega arith)
  drop-drop-snoc (suc k) (x ∷ xs) ys h = drop-drop-snoc k xs ys (omega arith)

  drop-one : (k : ℕ) (xs : List A) → drop 1 (drop k xs) ≡ drop (suc k) xs
  drop-one zero xs = refl
  drop-one (suc k) [] = refl
  drop-one (suc k) (x ∷ xs) = drop-one k xs

  -- Trimming before an element is added changes nothing in the window after it.
  pub trim-snoc :
      (max : ℕ) (xs : List A) (x : A)
      → trim max (trim max xs ++ (x ∷ [])) ≡ trim max (xs ++ (x ∷ []))
  unfolding trim
  trim-snoc max xs x = elim (Bool-cases (ltb max (length xs))) [
    | inr fits ↦ rw fits
    | inl over ↦
        let more = ltb→lt max (length xs) over in
        let k = length xs - max in
        let size = length-append xs (x ∷ []) in
        let e : drop k xs ++ (x ∷ []) ≡ drop k (xs ++ (x ∷ [])) =
          drop-drop-snoc k xs (x ∷ []) (omega arith) in
        let n : length (drop k (xs ++ (x ∷ []))) ≡ max + 1 =
          omega (arith, length-drop k (xs ++ (x ∷ []))) in
        let one : max + 1 - max ≡ 1 = omega arith in
        let rest : length (xs ++ (x ∷ [])) - max ≡ suc k = omega arith in
        let t1 : ltb max (max + 1) ≡ true = ground arith in
        let t2 : ltb max (length (xs ++ (x ∷ []))) ≡ true = lt→ltb _ _ (omega arith) in
        rw (over, e, n, t1, t2, one, rest) (drop-one k (xs ++ (x ∷ [])))
  ]

  pub length-trim-le : (max : ℕ) (xs : List A) → length (trim max xs) ≤ max
  unfolding trim
  length-trim-le max xs = elim (Bool-cases (ltb max (length xs))) [
    | inr fits ↦ rw fits (ltb-false max (length xs) fits)
    | inl over ↦
        rw over (omega (arith, length-drop (length xs - max) xs, ltb→lt max (length xs) over))
  ]

  take-drop : (k : ℕ) (xs : List A) → xs ≡ take k xs ++ drop k xs
  take-drop zero xs = refl
  take-drop (suc k) [] = refl
  take-drop (suc k) (x ∷ xs) = ap (◌∷◌ x) (take-drop k xs)

  pub trim-IsLast : (max : ℕ) (xs : List A) → IsLast max xs (trim max xs)
  unfolding trim
  trim-IsLast max xs = elim (Bool-cases (ltb max (length xs))) [
    | inr fits ↦ rw fits ([], refl, omega (arith, ltb-false max (length xs) fits))
    | inl over ↦
        let more = ltb→lt max (length xs) over in
        let k = length xs - max in
        rw over (take k xs, take-drop k xs, omega (arith, length-drop k xs))
  ]

  trim-append :
      (max : ℕ) (before ys : List A)
      → length ys ≡ min max (length (before ++ ys))
      → trim max (before ++ ys) ≡ ys
  unfolding trim
  trim-append max [] ys size =
      let fits : ltb max (length ys) ≡ false = le→ltb-false _ _ (omega arith) in rw fits refl
  trim-append max (b ∷ before) ys size =
      let n = length-append before ys in
      let over : ltb max (length (b ∷ before ++ ys)) ≡ true = lt→ltb _ _ (omega arith) in
      let k : length (b ∷ before ++ ys) - max ≡ length (b ∷ before) = omega arith in
      rw (over, k) (drop-length-append (b ∷ before) ys)

  pub IsLast-trim : (max : ℕ) (xs ys : List A) → IsLast max xs ys → ys ≡ trim max xs
  IsLast-trim max xs ys (before, joined, size) =
      rw joined (sym (trim-append max before ys (rw joined at size)))

  pub IsLast-unique : (max : ℕ) (xs ys zs : List A) → IsLast max xs ys → IsLast max xs zs → ys ≡ zs
  IsLast-unique max xs ys zs first second =
      IsLast-trim max xs ys first ∙ sym (IsLast-trim max xs zs second)
