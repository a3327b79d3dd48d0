-- ===== src/Prelude/Lists.antt =====
-- Lists of bytes and of records, measured and cut by native numbers.
use Prim.Native.Nat.{ℕ, zero, suc, ◌+◌, ◌≤◌, ◌<◌}
use mathlib.Core.Path.{◌≡◌, refl, ap, subst}
use mathlib.Core.Logic.{◌≢◌, ◌⊎◌, inl, inr}
use mathlib.Core.Bool.{Bool, true, false, ◌&&◌}
use mathlib.Core.List.{List, [], ◌∷◌, ◌++◌, map}
use mathlib.Core.Option.{Option, none, some}
use native.Mathlib.Omega.{arith}
use django_channels_shm.Prelude.Tests.{◌==◌, if◌then◌else◌}

module _ {ℓ} {A : Type ℓ} where
  abbrev pub length : List A → ℕ
  length [] = 0
  length (x ∷ xs) = suc (length xs)

  abbrev pub take : ℕ → List A → List A
  take zero xs = []
  take (suc n) [] = []
  take (suc n) (x ∷ xs) = x ∷ take n xs

  abbrev pub drop : ℕ → List A → List A
  drop zero xs = xs
  drop (suc n) [] = []
  drop (suc n) (x ∷ xs) = drop n xs

  pub take-length : (xs : List A) → take (length xs) xs ≡ xs
  take-length [] = refl
  take-length (x ∷ xs) = ap (λ r. x ∷ r) (take-length xs)

-- The first `n` bytes, filled up with zeros.
abbrev pub padded : ℕ → List ℕ → List ℕ
padded zero xs = []
padded (suc n) [] = 0 ∷ padded n []
padded (suc n) (x ∷ xs) = x ∷ padded n xs

-- The bytes of `new` over the first bytes of `old`.
abbrev pub overlay : List ℕ → List ℕ → List ℕ
overlay [] old = old
overlay (x ∷ new) [] = x ∷ overlay new []
overlay (x ∷ new) (y ∷ old) = x ∷ overlay new old

pub length-padded : (n : ℕ) (xs : List ℕ) → length (padded n xs) ≡ n
length-padded zero xs = refl
length-padded (suc n) [] = ap suc (length-padded n [])
length-padded (suc n) (x ∷ xs) = ap suc (length-padded n xs)

pub padded-overlay : (new old : List ℕ) → padded (length new) (overlay new old) ≡ new
padded-overlay [] old = refl
padded-overlay (x ∷ new) [] = ap (λ r. x ∷ r) (padded-overlay new [])
padded-overlay (x ∷ new) (y ∷ old) = ap (λ r. x ∷ r) (padded-overlay new old)

-- A buffer of `n` bytes that was written is read back.
pub padded-overlay-padded :
    (n : ℕ) (xs old : List ℕ) → padded n (overlay (padded n xs) old) ≡ padded n xs
padded-overlay-padded n xs old =
    subst (λ (k : ℕ). padded k (overlay (padded n xs) old) ≡ padded n xs) (length-padded n xs)
      (padded-overlay (padded n xs) old)

-- A slice comparison `a == b`.
unfoldable pub bytes_eq : List ℕ → List ℕ → Bool
bytes_eq [] [] = true
bytes_eq (x ∷ xs) (y ∷ ys) = x == y && bytes_eq xs ys
bytes_eq [] (y ∷ ys) = false
bytes_eq (x ∷ xs) [] = false

pub bytes_eq_refl : (xs : List ℕ) → bytes_eq xs xs ≡ true
unfolding bytes_eq
bytes_eq_refl [] = refl
bytes_eq_refl (x ∷ xs) = ground (arith, bytes_eq_refl xs)

pub bytes_eq→eq : (xs ys : List ℕ) → bytes_eq xs ys ≡ true → xs ≡ ys
unfolding bytes_eq
bytes_eq→eq [] [] h = refl
bytes_eq→eq (x ∷ xs) (y ∷ ys) h = ground (arith, bytes_eq→eq xs ys)
bytes_eq→eq [] (y ∷ ys) h = ground arith
bytes_eq→eq (x ∷ xs) [] h = ground arith

-- `buf.iter().position(|&b| b == 0).unwrap_or(buf.len())`: the bytes before the first NUL.
unfoldable pub until_nul : List ℕ → List ℕ
until_nul [] = []
until_nul (x ∷ xs) = if x == 0 then [] else x ∷ until_nul xs

-- No byte of the list is NUL.
abbrev pub HasNoNul : List ℕ → Type 0
HasNoNul [] = Unit
HasNoNul (x ∷ xs) = (x ≢ 0) × HasNoNul xs

until_nul-zeros : (n : ℕ) → until_nul (padded n []) ≡ []
unfolding until_nul
until_nul-zeros zero = refl
until_nul-zeros (suc n) = refl

-- A name without NUL that fits is read back from its zero-filled buffer.
pub until_nul-padded :
    (n : ℕ) (xs : List ℕ) → length xs ≤ n → HasNoNul xs → until_nul (padded n xs) ≡ xs
unfolding until_nul
until_nul-padded n [] h z = until_nul-zeros n
until_nul-padded zero (x ∷ xs) h z = absurd (omega arith)
until_nul-padded (suc n) (x ∷ xs) h z = ground (arith, until_nul-padded n xs (omega arith) z.1)

module _ {ℓ} {A : Type ℓ} where
  -- `iter().find(p)`
  unfoldable pub find : (A → Bool) → List A → Option A
  find p [] = none
  find p (x ∷ xs) = if p x then some x else find p xs

  -- `iter().position(p)`, counted from `i`
  unfoldable pub position_from : ℕ → (A → Bool) → List A → Option ℕ
  position_from i p [] = none
  position_from i p (x ∷ xs) = if p x then some i else position_from (i + 1) p xs

  abbrev pub get_or : List A → ℕ → A → A
  get_or [] i d = d
  get_or (x ∷ xs) zero d = x
  get_or (x ∷ xs) (suc i) d = get_or xs i d

-- Every element satisfies `P`.
abbrev pub All {ℓ κ} : {A : Type ℓ} → (A → Type κ) → List A → Type κ
All P [] = Unit
All P (x ∷ xs) = P x × All P xs

module _ {ℓ} {A : Type ℓ} where
  abbrev pub get_elem? : List A → ℕ → Option A
  get_elem? [] i = none
  get_elem? (x ∷ xs) zero = some x
  get_elem? (x ∷ xs) (suc i) = get_elem? xs i

  pub length-snoc : (xs : List A) (x : A) → length (xs ++ x ∷ []) ≡ length xs + 1
  length-snoc [] x = omega arith
  length-snoc (y ∷ xs) x = omega (arith, length-snoc xs x)

  -- An element of a list with one more at the end is an old one or the new one.
  pub get_elem?-snoc :
      (xs : List A) (x c : A) (i : ℕ)
      → get_elem? (xs ++ x ∷ []) i ≡ some c
      → ((i < length xs) × (get_elem? xs i ≡ some c)) ⊎ ((i ≡ length xs) × (x ≡ c))
  get_elem?-snoc [] x c zero h = inr (refl, ground arith)
  get_elem?-snoc [] x c (suc i) h = ground arith
  get_elem?-snoc (y ∷ xs) x c zero h = inl (omega arith, h)
  get_elem?-snoc (y ∷ xs) x c (suc i) h = elim (get_elem?-snoc xs x c i h) [
    | inl (l, e) ↦ inl (omega arith, e)
    | inr (l, e) ↦ inr (omega arith, e)
  ]

pub length-map {ℓ κ} :
    {A : Type ℓ} {B : Type κ} (f : A → B) (xs : List A) → length (map f xs) ≡ length xs
length-map f [] = refl
length-map f (x ∷ xs) = omega (arith, length-map f xs)
