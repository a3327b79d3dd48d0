-- ===== src/Slab/Handout.antt =====
-- Blocks that several processes get at the same time, all of one size class.
use django_channels_shm.Prelude.{
  ℕ, ◌+◌, ◌≤◌, ◌≡◌, ◌≢◌, sym, ap, ◌∙◌, ◌⊎◌, inl, inr, Option, some, List, arith,
}
use django_channels_shm.Shm.{Memory, ret, exec}
use django_channels_shm.Shm.Interleave.{System, Reach}
use django_channels_shm.Shm.Critical.{Serial, begin, runs, finish, finish-cases}
use django_channels_shm.Layout.SizeClass.{size_class_idx, size_class_idx_lem}
use django_channels_shm.Slab.{SlabAllocator, alloc}
use django_channels_shm.Slab.Chain.{Status, live, update}
use django_channels_shm.Slab.Update.{update_self, update_ne}
use django_channels_shm.Slab.Invariant.{IsPool, IsValid, size_of}
use django_channels_shm.Slab.FromClass.{Allocated, Exhausted, not_live, live_ne_unused}
use django_channels_shm.Slab.Blocks.{Unlocked, alloc_lem}
use django_channels_shm.Slab.Requests.{take, program}
use django_channels_shm.Slab.Concurrent.{requested, results}

module _ (slab : SlabAllocator) (p : IsPool slab) (c : ℕ) (size : ℕ → ℕ)
    (of_class : (i : ℕ) → size_class_idx (size i) ≡ some c) where
  -- After a serial run, each block that a process got is live, and no other process got it.
  record Handed (m : Memory) (res : ℕ → Option ℕ) : Type 0 where
    st : ℕ → Status
    blocks : ℕ → List ℕ
    valid : IsValid slab m st blocks
    free : Unlocked slab p c m
    mine : (i r : ℕ) → res i ≡ some r → r ≢ 0 → st r ≡ live c
    once : (i j r q : ℕ) → i ≢ j → res i ≡ some r → res j ≡ some q → r ≢ 0 → r ≢ q

  module _ (m : Memory) (res : ℕ → Option ℕ) (i : ℕ) (d : Handed m res) where
    -- The next process gets a block that none has, or none at all.
    Handed-taken :
        (r : ℕ) (m' : Memory)
        → exec (alloc slab 1 (size i)) m ≡ some (r, m')
        → ((a : Allocated slab (alloc slab 1 (size i)) m d.st c) × Unlocked slab p c a.after)
        → Handed m' (finish res i r)
    Handed-taken r m' ran (a, u) =
        let er : a.r ≡ r = cc (a.ran, ran) in
        let em : a.after ≡ m' = cc (a.ran, ran) in
        record {
          st = update d.st a.r (live c);
          blocks = a.blocks';
          valid = rw (← em) a.valid;
          free = rw (← em) u;
          mine = λ k q e nz. elim (finish-cases res i r k q e) [
            | inl (w, v) ↦ update_self d.st a.r q (live c) (er ∙ v)
            | inr v ↦
                update_ne d.st a.r q (live c)
                  (λ z. not_live d.st a.r q c c z a.available (d.mine k q v nz))
                ∙ d.mine k q v nz
          ];
          once = λ k j x y n e e' nz z. elim (finish-cases res i r k x e) [
            | inl (w, v) ↦ elim (finish-cases res i r j y e') [
              | inl (w', v') ↦ n (sym w ∙ w')
              | inr v' ↦
                  not_live d.st a.r y c c (er ∙ v ∙ z) a.available (d.mine j y v' (λ o. nz (z ∙ o)))
            ]
            | inr v ↦ elim (finish-cases res i r j y e') [
              | inl (w', v') ↦
                  not_live d.st a.r x c c (er ∙ v' ∙ sym z) a.available (d.mine k x v nz)
              | inr v' ↦ d.once k j x y n v v' nz z
            ]
          ];
        }

    Handed-none :
        (r : ℕ) (m' : Memory)
        → exec (alloc slab 1 (size i)) m ≡ some (r, m')
        → ((x : Exhausted slab (alloc slab 1 (size i)) m d.st d.blocks c) × Unlocked slab p c
              x.after)
        → Handed m' (finish res i r)
    Handed-none r m' ran (x, u) =
        let er : 0 ≡ r = cc (x.ran, ran) in
        let em : x.after ≡ m' = cc (x.ran, ran) in
        record {
          st = d.st;
          blocks = d.blocks;
          valid = rw (← em) x.valid;
          free = rw (← em) u;
          mine = λ k q e nz. elim (finish-cases res i r k q e) [
            | inl (w, v) ↦ absurd (nz (sym (er ∙ v)))
            | inr v ↦ d.mine k q v nz
          ];
          once = λ k j x y n e e' nz z. elim (finish-cases res i r k x e) [
            | inl (w, v) ↦ nz (sym (er ∙ v))
            | inr v ↦ elim (finish-cases res i r j y e') [
              | inl (w', v') ↦ nz (z ∙ sym (er ∙ v'))
              | inr v' ↦ d.once k j x y n v v' nz z
            ]
          ];
        }

  Serial-Handed :
      (m₀ : Memory) (st : ℕ → Status) (blocks : ℕ → List ℕ)
      → IsValid slab m₀ st blocks
      → Unlocked slab p c m₀
      → {m : Memory} {res : ℕ → Option ℕ} → Serial (λ i. program slab 1 (take (size i))) m₀ m res
      → Handed m res
  unfolding program
  Serial-Handed m₀ st blocks v u begin = record {
    st = st;
    blocks = blocks;
    valid = v;
    free = u;
    mine = λ i r e. absurd (cc e);
    once = λ i j r q n e. absurd (cc e);
  }
  Serial-Handed m₀ st blocks v u (runs {m} {m'} {res} i r s e ran) =
      let d = Serial-Handed m₀ st blocks v u s in
      elim (alloc_lem slab p m d.st d.blocks d.valid (size i) c 0 (of_class i) d.free) [
        | inl a ↦ Handed-taken m res i d r m' ran a
        | inr x ↦ Handed-none m res i d r m' ran x
      ]

  -- Processes each request a block, all of one size class, of a valid pool whose lock of the class is
  -- free: however their accesses are interleaved, two processes that have got blocks have got blocks
  -- that do not overlap.
  pub handout_apart :
      (m₀ : Memory) (st : ℕ → Status) (blocks : ℕ → List ℕ)
      → IsValid slab m₀ st blocks
      → Unlocked slab p c m₀
      → (rounds : ℕ) (t : System ℕ) → Reach (requested slab rounds (λ i. take (size i)) m₀) t
      → (i j r q : ℕ) → i ≢ j
      → t.procs i ≡ ret r
      → t.procs j ≡ ret q
      → r ≢ 0
      → q ≢ 0
      → (r + size i ≤ q) ⊎ (q + size j ≤ r)
  handout_apart m₀ st blocks v u rounds t reach i j r q n ei ej nr nq =
      let (m, res, s, got) =
        results slab p c (size_class_idx_lem (size i) c (of_class i)).0 (λ i. take (size i))
          of_class m₀ u rounds t reach in
      let d = Serial-Handed m₀ st blocks v u s in
      let one = d.mine i r (got i r ei) nr in
      let two = d.mine j q (got j q ej) nq in
      omega (
        arith,
        d.valid.apart r q (d.once i j r q n (got i r ei) (got j q ej) nr)
            (λ w. live_ne_unused c (sym one ∙ w)) (λ w. live_ne_unused c (sym two ∙ w)),
        ap size_of one,
        ap size_of two,
        (size_class_idx_lem (size i) c (of_class i)).2,
        (size_class_idx_lem (size j) c (of_class j)).2,
      )
