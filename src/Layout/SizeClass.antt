-- ===== src/Layout/SizeClass.antt =====
-- `size_class_for` of layout.rs and `SlabAllocator::size_class_idx` of slab.rs.
use django_channels_shm.Prelude.{
  ℕ, zero, suc, ◌+◌, ◌≤◌, ◌<◌, Bool, true, Option, none, some, List, [], ◌∷◌, leb, if◌then◌else◌,
  find, position_from, get_or, length, All, Bool-cases, ◌≡◌, refl, ap, ◌∙◌, arith, ◌⊎◌, inl, inr,
}
use django_channels_shm.Layout.{size_classes}

-- `strictly_ascending`: the loop compares each element with the one before it.
unfoldable pub strictly_ascending : List ℕ → Bool
strictly_ascending [] = true
strictly_ascending (x ∷ []) = true
strictly_ascending (x ∷ y ∷ r) = if leb y x then Bool.false else strictly_ascending (y ∷ r)

unfoldable pub size_class_for : ℕ → Option ℕ
unfolding find
size_class_for size = find (λ sc. leb size sc) size_classes

unfoldable pub size_class_idx : ℕ → Option ℕ
unfolding position_from
size_class_idx size = position_from 0 (λ sc. leb size sc) size_classes

abbrev pub class_size : ℕ → ℕ
class_size i = get_or size_classes i 0

-- A class that the search returns is big enough, and no bigger than any other that is.
abbrev IsLeast : ℕ → ℕ → List ℕ → Type 0
IsLeast size c cs = (size ≤ c) × All (λ x. size ≤ x → c ≤ x) cs

All-trans : (c x : ℕ) (xs : List ℕ) → c ≤ x → All (λ y. x ≤ y) xs → All (λ y. c ≤ y) xs
All-trans c x [] h a = tt
All-trans c x (y ∷ ys) h a = (omega arith, All-trans c x ys h a.1)

-- In an ascending list the first element is the least.
ascending-All : (x : ℕ) (xs : List ℕ) → strictly_ascending (x ∷ xs) ≡ true → All (λ y. x ≤ y) xs
unfolding strictly_ascending
ascending-All x [] a = tt
ascending-All x (y ∷ ys) a = elim (Bool-cases (leb y x)) [
  | inl bad ↦ absurd (ground arith)
  | inr good ↦ (ground arith, All-trans x y ys (ground arith) (ascending-All y ys (rw good at a)))
]

All-weaken : (size c : ℕ) (xs : List ℕ) → All (λ y. c ≤ y) xs → All (λ y. size ≤ y → c ≤ y) xs
All-weaken size c [] a = tt
All-weaken size c (y ∷ ys) a = (λ _. a.0, All-weaken size c ys a.1)

ascending-tail :
    (x : ℕ) (xs : List ℕ) → strictly_ascending (x ∷ xs) ≡ true → strictly_ascending xs ≡ true
unfolding strictly_ascending
ascending-tail x [] a = refl
ascending-tail x (y ∷ ys) a = ground arith

module _ (size : ℕ) where
  find-IsLeast :
      (cs : List ℕ) (c : ℕ)
      → strictly_ascending cs ≡ true
      → find (λ sc. leb size sc) cs ≡ some c
      → IsLeast size c cs
  unfolding find
  find-IsLeast [] c a h = ground arith
  find-IsLeast (x ∷ xs) c a h = elim (Bool-cases (leb size x)) [
    | inl fits ↦
        let below = All-trans c x xs (ground arith) (ascending-All x xs a) in
        (ground arith, ((λ _. ground arith), All-weaken size c xs below))
    | inr more ↦
        let (big, least) = find-IsLeast xs c (ascending-tail x xs a) (rw more at h) in
        (big, ((λ p. ground arith), least))
  ]

  find-none : (cs : List ℕ) → find (λ sc. leb size sc) cs ≡ none → All (λ x. x < size) cs
  unfolding find
  find-none [] h = tt
  find-none (x ∷ xs) h = ground (arith, find-none xs)

  -- The two searches stop at the same element.
  find-position :
      (cs : List ℕ) (i k : ℕ)
      → position_from i (λ sc. leb size sc) cs ≡ some k
      → (j : ℕ) × (k ≡ i + j)
        × (j < length cs)
        × (find (λ sc. leb size sc) cs ≡ some (get_or cs j 0))
  unfolding find position_from
  find-position [] i k h = ground arith
  find-position (x ∷ xs) i k h = elim (Bool-cases (leb size x)) [
    | inl fits ↦ (0, ground arith, ground arith, rw fits)
    | inr more ↦
        let (j, e, l, f) = find-position xs (i + 1) k (rw more at h) in
        (suc j, omega arith, omega arith, rw more f)
  ]

  find-position-none :
      (cs : List ℕ) (i : ℕ)
      → position_from i (λ sc. leb size sc) cs ≡ none
      → find (λ sc. leb size sc) cs ≡ none
  unfolding find position_from
  find-position-none [] i h = refl
  find-position-none (x ∷ xs) i h = ground (arith, find-position-none xs (i + 1))

-- The least size class that holds `size` bytes, or none if even the last class is too small.
pub size_class_for_lem :
    (size : ℕ)
    → ((c : ℕ) × (size_class_for size ≡ some c) × IsLeast size c size_classes)
      ⊎ ((size_class_for size ≡ none) × All (λ x. x < size) size_classes)
unfolding size_class_for
size_class_for_lem size = go (find (λ sc. leb size sc) size_classes) refl
  where
    go :
        (o : Option ℕ)
        → find (λ sc. leb size sc) size_classes ≡ o
        → ((c : ℕ) × (find (λ sc. leb size sc) size_classes ≡ some c) × IsLeast size c size_classes)
          ⊎ ((find (λ sc. leb size sc) size_classes ≡ none) × All (λ x. x < size) size_classes)
    go none e = inr (e, find-none size size_classes e)
    go (some c) e =
        inl (c, e, find-IsLeast size size_classes c (unfold strictly_ascending in refl) e)

pub size_class_idx_lem :
    (size k : ℕ)
    → size_class_idx size ≡ some k
    → (k < 12) × (size_class_for size ≡ some (class_size k)) × (size ≤ class_size k)
unfolding size_class_idx size_class_for
size_class_idx_lem size k h =
    let (j, e, l, f) = find-position size size_classes 0 k h in
    let e' : j ≡ k = omega arith in
    (
      omega arith,
      rw (← e') f,
      rw (← e') (find-IsLeast size size_classes _ (unfold strictly_ascending in refl) f).0,
    )

before-next :
    (size x : ℕ) (xs : List ℕ) (k : ℕ)
    → x < size
    → ((j : ℕ) → j < k → get_or xs j 0 < size)
    → (j : ℕ) → j < suc k
    → get_or (x ∷ xs) j 0 < size
before-next size x xs k l h zero b = l
before-next size x xs k l h (suc j) b = h j (omega arith)

-- The search stops at the first element that is big enough.
position-First :
    (size : ℕ) (cs : List ℕ) (i p : ℕ)
    → position_from i (λ sc. leb size sc) cs ≡ some p
    → (k : ℕ) × (p ≡ i + k)
      × (k < length cs)
      × (size ≤ get_or cs k 0)
      × ((j : ℕ) → j < k → get_or cs j 0 < size)
unfolding position_from
position-First size [] i p h = ground arith
position-First size (x ∷ xs) i p h = elim (Bool-cases (leb size x)) [
  | inl fits ↦ (0, ground arith, ground arith, ground arith, (λ j l. absurd (omega (arith, l))))
  | inr more ↦
      let (k, e, l, big, before) = position-First size xs (i + 1) p (rw more at h) in
      (suc k, omega arith, omega arith, big, before-next size x xs k (ground arith) before)
]

-- The index of the least class that holds `size` bytes: it is big enough and every class before it
-- is too small. Or none, and then `size` is more than the 16 MiB of the last class.
pub size_class_idx-least :
    (size : ℕ)
    → ((k : ℕ) × (size_class_idx size ≡ some k)
        × (k < 12)
        × (size ≤ class_size k)
        × ((j : ℕ) → j < k → class_size j < size))
      ⊎ ((size_class_idx size ≡ none) × (16777216 < size))
unfolding size_class_idx
size_class_idx-least size = go (position_from 0 (λ sc. leb size sc) size_classes) refl
  where
    go :
        (o : Option ℕ)
        → position_from 0 (λ sc. leb size sc) size_classes ≡ o
        → ((k : ℕ) × (position_from 0 (λ sc. leb size sc) size_classes ≡ some k)
            × (k < 12)
            × (size ≤ class_size k)
            × ((j : ℕ) → j < k → class_size j < size))
          ⊎ ((position_from 0 (λ sc. leb size sc) size_classes ≡ none) × (16777216 < size))
    go none e =
        let small = find-none size size_classes (find-position-none size size_classes 0 e) in
        inr (e, omega (arith, small))
    go (some p) e =
        let (k, same, l, big, before) = position-First size size_classes 0 p e in
        inl (k, e ∙ ap some (omega (arith, same)), l, big, before)

pub size_class_idx-none : (size : ℕ) → size_class_idx size ≡ none → size_class_for size ≡ none
unfolding size_class_idx size_class_for
size_class_idx-none size h = find-position-none size size_classes 0 h

get_or-All :
    (xs : List ℕ) (i : ℕ)
    → i < length xs
    → All (λ x. (512 ≤ x) × (x ≤ 16777216)) xs
    → (512 ≤ get_or xs i 0) × (get_or xs i 0 ≤ 16777216)
get_or-All [] i h a = absurd (omega arith)
get_or-All (x ∷ xs) zero h a = a.0
get_or-All (x ∷ xs) (suc i) h a = get_or-All xs i (omega arith) a.1

pub class_size_bounds : (i : ℕ) → i < 12 → (512 ≤ class_size i) × (class_size i ≤ 16777216)
class_size_bounds i h = get_or-All size_classes i h (omega arith)
