-- ===== src/Ring/Stream.antt =====
-- A producer and a consumer that call `try_enqueue` and `try_dequeue` in turn.
use django_channels_shm.Prelude.{
  ℕ, zero, suc, ◌+◌, ◌≤◌, ◌<◌, ◌≡◌, refl, sym, ◌∙◌, false, Option, some, List, [], ◌∷◌, ◌++◌, map,
  length, length-snoc, length-map, All, arith,
}
use mathlib.Core.Path.{subst}
use mathlib.Core.List.{append_assoc, append-nil}
use django_channels_shm.Shm.{Memory, Prog, ret, ◌>>=◌, u64_mod, exec}
use django_channels_shm.Shm.Exec.{exec-bind}
use django_channels_shm.Layout.{hdr_inline_size}
use django_channels_shm.Layout.Process.{Env}
use django_channels_shm.Slab.{SlabAllocator}
use django_channels_shm.Ring.{OwnerIdentity, EnqueueResult, ok}
use django_channels_shm.Ring.Enqueue.{try_enqueue}
use django_channels_shm.Ring.Dequeue.{Delivery, try_dequeue}
use django_channels_shm.Ring.Contents.{Message, IsRing}
use django_channels_shm.Ring.FifoEnqueue.{try_enqueue-ok}
use django_channels_shm.Ring.FifoDequeue.{next_live, try_dequeue_lem}

-- A message that fits a slot, and the configured inline size.
abbrev pub Fits : ℕ → Message → Type 0
Fits inline_size msg =
    (length msg.name ≤ 128) × (length msg.body ≤ 512) × (length msg.body ≤ inline_size)

abbrev pub delivery : Message → Option Delivery
delivery msg = some (msg.name, msg.body)

module _ (env : Env) (slab : SlabAllocator) (ring : ℕ) where
  -- The messages are enqueued one after the other, whatever the answers.
  unfoldable pub enqueue_all : OwnerIdentity → List Message → Prog (List EnqueueResult)
  enqueue_all owner [] = ret []
  enqueue_all owner (msg ∷ msgs) = do
    answer ← try_enqueue env slab ring msg.name msg.body msg.expiry owner
    answers ← enqueue_all owner msgs
    ret (answer ∷ answers)

  -- So many calls of `try_dequeue`.
  unfoldable pub dequeue_all : OwnerIdentity → ℕ → ℕ → Prog (List (Option Delivery))
  dequeue_all owner now zero = ret []
  dequeue_all owner now (suc n) = do
    answer ← try_dequeue env slab ring now owner
    answers ← dequeue_all owner now n
    ret (answer ∷ answers)

  module _ (cap : ℕ) (rounds : 0 < env.rounds) where
    enqueue_all_lem :
        (owner : OwnerIdentity) (msgs : List Message) (m : Memory) (deq enq : ℕ)
        (cells : List (Option Message))
        → IsRing m ring cap deq enq cells
        → length cells + length msgs ≤ cap
        → enq + length msgs < u64_mod
        → All (Fits (m.word 0 hdr_inline_size)) msgs
        → (m' : Memory) × (exec (enqueue_all owner msgs) m ≡ some (map (λ _. ok) msgs, m'))
          × IsRing m' ring cap deq (enq + length msgs) (cells ++ map some msgs)
    unfolding enqueue_all exec
    enqueue_all_lem owner [] m deq enq cells r room w fits = (
      m,
      refl,
      subst (λ l. IsRing m ring cap deq (enq + 0) l) (sym (append-nil cells))
          (subst (λ (n : ℕ). IsRing m ring cap deq n cells) (omega arith) r),
    )
    enqueue_all_lem owner (msg ∷ msgs) m deq enq cells r room w fits =
        let (m₁, ran, r₁, same) =
          try_enqueue-ok env slab m ring cap deq enq cells owner msg rounds r (omega arith)
            (omega arith) fits.0.0 fits.0.1 fits.0.2 in
        let (m', more, r') =
          enqueue_all_lem owner msgs m₁ deq (enq + 1) (cells ++ some msg ∷ []) r₁
            (omega (arith, length-snoc cells (some msg))) (omega arith)
            (subst (λ (i : ℕ). All (Fits i) msgs) (sym same) fits.1) in
        (
          m',
          exec-bind (try_enqueue env slab ring msg.name msg.body msg.expiry owner) _ m ran
              ∙ exec-bind (enqueue_all owner msgs) _ m₁ more,
          subst (λ (n : ℕ). IsRing m' ring cap deq n (cells ++ map some (msg ∷ msgs))) (omega arith)
              (subst (λ l. IsRing m' ring cap deq (enq + 1 + length msgs) l)
                (append_assoc cells (some msg ∷ []) (map some msgs)) r'),
        )

    dequeue_all_lem :
        (owner : OwnerIdentity) (now enq : ℕ) (msgs : List Message) (m : Memory) (deq : ℕ)
        → IsRing m ring cap deq enq (map some msgs)
        → length msgs < env.rounds
        → enq + cap < u64_mod
        → All (λ msg. env.later now msg.expiry ≡ false) msgs
        → (m' : Memory) × (deq' : ℕ) × (exec (dequeue_all owner now (length msgs)) m
            ≡ some (map delivery msgs, m'))
          × IsRing m' ring cap deq' enq []
    unfolding dequeue_all next_live exec
    dequeue_all_lem owner now enq [] m deq r few w live = (m, deq, refl, r)
    dequeue_all_lem owner now enq (msg ∷ msgs) m deq r few w live =
        let (m₁, deq₁, ran, r₁) =
          try_dequeue_lem env slab m ring cap deq enq (map some (msg ∷ msgs)) owner now
            (omega (arith, length-map some msgs)) r w in
        let (m', deq', more, r') =
          dequeue_all_lem owner now enq msgs m₁ deq₁ (rw live.0 at r₁) (omega arith) w live.1 in
        (
          m',
          deq',
          exec-bind (try_dequeue env slab ring now owner) _ m (rw live.0 at ran)
              ∙ exec-bind (dequeue_all owner now (length msgs)) _ m₁ more,
          r',
        )

    -- First in, first out, nothing lost and nothing twice: of an empty ring at rest, messages that are
    -- no more than its slots, with names of at most 128 bytes and bodies of at most 512 bytes and the
    -- configured inline size, are all enqueued with Ok, and as many dequeues, with none of the messages
    -- expired by then, deliver just these messages in their order and leave the ring empty. A dequeue
    -- may need one round more than there are messages; no counter may come near 2 ^ 64.
    pub fifo :
        (producer consumer : OwnerIdentity) (now : ℕ) (msgs : List Message) (m : Memory)
        (deq enq : ℕ)
        → IsRing m ring cap deq enq []
        → length msgs ≤ cap
        → length msgs < env.rounds
        → enq + length msgs + cap < u64_mod
        → All (Fits (m.word 0 hdr_inline_size)) msgs
        → All (λ msg. env.later now msg.expiry ≡ false) msgs
        → (m₁ : Memory) × (m' : Memory) × (deq' : ℕ) × (exec (enqueue_all producer msgs) m
            ≡ some (map (λ _. ok) msgs, m₁))
          × (exec (dequeue_all consumer now (length msgs)) m₁ ≡ some (map delivery msgs, m'))
          × IsRing m' ring cap deq' (enq + length msgs) []
    fifo producer consumer now msgs m deq enq r room few w fits live =
        let (m₁, ran, r₁) =
          enqueue_all_lem producer msgs m deq enq [] r (omega arith) (omega arith) fits in
        let (m', deq', ran', r') =
          dequeue_all_lem consumer now (enq + length msgs) msgs m₁ deq r₁ few w live in
        (m₁, m', deq', ran, ran', r')
