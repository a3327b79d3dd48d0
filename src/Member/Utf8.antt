-- ===== src/Member/Utf8.antt =====
-- `std::str::from_utf8`, as a test on the bytes.
use django_channels_shm.Prelude.{
  ℕ, List, [], ◌∷◌, Bool, true, false, ◌&&◌, ◌||◌, leb, ◌==◌, if◌then◌else◌,
}

abbrev between : ℕ → ℕ → ℕ → Bool
between lo hi b = leb lo b && leb b hi

-- A byte that continues a sequence.
abbrev continues : ℕ → Bool
continues b = between 0x80 0xbf b

abbrev two : ℕ → ℕ → Bool
two a b = between 0xc2 0xdf a && continues b

-- The second byte excludes overlong forms and surrogates.
abbrev three : ℕ → ℕ → ℕ → Bool
three a b c =
    ((a == 0xe0 && between 0xa0 0xbf b)
      || (between 0xe1 0xec a && continues b)
      || (a == 0xed && between 0x80 0x9f b)
      || (between 0xee 0xef a && continues b))
    && continues c

abbrev four : ℕ → ℕ → ℕ → ℕ → Bool
four a b c d =
    ((a == 0xf0 && between 0x90 0xbf b)
      || (between 0xf1 0xf3 a && continues b)
      || (a == 0xf4 && between 0x80 0x8f b))
    && continues c
    && continues d

unfoldable pub is_utf8 : List ℕ → Bool
is_utf8 [] = true
is_utf8 (a ∷ []) = leb a 0x7f
is_utf8 (a ∷ b ∷ []) = elim (leb a 0x7f) [ true ↦ is_utf8 (b ∷ []) | false ↦ two a b ]
is_utf8 (a ∷ b ∷ c ∷ []) = elim (leb a 0x7f) [
  | true ↦ is_utf8 (b ∷ c ∷ [])
  | false ↦ (if two a b then is_utf8 (c ∷ []) else three a b c)
]
is_utf8 (a ∷ b ∷ c ∷ d ∷ r) = elim (leb a 0x7f) [
  | true ↦ is_utf8 (b ∷ c ∷ d ∷ r)
  | false ↦ elim (two a b) [
    | true ↦ is_utf8 (c ∷ d ∷ r)
    | false ↦ elim (three a b c) [
      | true ↦ is_utf8 (d ∷ r)
      | false ↦ elim (four a b c d) [ true ↦ is_utf8 r | false ↦ false ]
    ]
  ]
]
