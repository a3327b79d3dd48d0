-- ===== src/Slab/Chain.antt =====
-- The intrusive free lists: chains of free blocks through their first words.
use mathlib.Core.Path.{subst}
use django_channels_shm.Prelude.{ap, sym, ◌∙◌, ℕ, ◌≡◌, ◌≢◌, List, [], ◌∷◌, All, ◌==◌, if◌then◌else◌}
use django_channels_shm.Shm.{Memory}

-- What became of the block at an offset: not cut off yet, handed out, or in a free list, with the
-- index of its class.
pub data Status : Type 0 where
  unused : Status
  live : ℕ → Status
  free : ℕ → Status

abbrev pub update : (ℕ → Status) → ℕ → Status → ℕ → Status
update st a v b = if a == b then v else st b

-- `xs` are the blocks of the free list of class `c` that begins at `h`, each of them once.
abbrev pub Chain : Memory → (ℕ → Status) → ℕ → ℕ → List ℕ → Type 0
Chain m st c h [] = h ≡ 0
Chain m st c h (x ∷ xs) =
    (h ≡ x) × (x ≢ 0) × (st x ≡ free c) × All (λ y. x ≢ y) xs × Chain m st c (m.word x 0) xs

-- The words and statuses of `m` and `m'`, `st` and `st'` agree at a block.
abbrev pub Same : Memory → Memory → (ℕ → Status) → (ℕ → Status) → ℕ → Type 0
Same m m' st st' y = (m'.word y 0 ≡ m.word y 0) × (st' y ≡ st y)

-- A block that is not free in class `c` is in no free list of it.
pub Chain-avoids :
    (m : Memory) (st : ℕ → Status) (c h a : ℕ) (xs : List ℕ)
    → st a ≢ free c
    → Chain m st c h xs
    → All (λ y. a ≢ y) xs
Chain-avoids m st c h a [] n k = tt
Chain-avoids m st c h a (x ∷ xs) n k =
    ((λ e. n (ap st e ∙ k.2)), Chain-avoids m st c (m.word x 0) a xs n k.4)

-- A chain does not see what happens at a block `a` outside it.
pub Chain-frame :
    (m m' : Memory) (st st' : ℕ → Status) (a c h : ℕ) (xs : List ℕ)
    → ((y : ℕ) → st y ≡ free c → a ≢ y → Same m m' st st' y)
    → All (λ y. a ≢ y) xs
    → Chain m st c h xs
    → Chain m' st' c h xs
Chain-frame m m' st st' a c h [] same n k = k
Chain-frame m m' st st' a c h (x ∷ xs) same n k =
    let s = same x k.2 n.0 in
    (
      k.0,
      k.1,
      s.1 ∙ k.2,
      k.3,
      subst (λ w. Chain m' st' c w xs) (sym s.0)
          (Chain-frame m m' st st' a c (m.word x 0) xs same n.1 k.4),
    )
