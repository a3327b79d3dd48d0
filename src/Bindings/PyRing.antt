-- ===== src/Bindings/PyRing.antt =====
-- `PyRing`: a ring as an object of Python.
use django_channels_shm.Prelude.{
  ℕ, Bool, true, false, Option, none, some, List, length, ltb, if◌then◌else◌,
}
use django_channels_shm.Shm.{Prog, ret, ◌>>=◌}
use django_channels_shm.Layout.Process.{Env}
use django_channels_shm.Ring
use django_channels_shm.Ring.{OwnerIdentity, EnqueueResult, ok, full}
use django_channels_shm.Ring.Enqueue
use django_channels_shm.Ring.Dequeue
use django_channels_shm.Ring.Dequeue.{Delivery}
use django_channels_shm.Ring.Repair
use django_channels_shm.Bindings.{
  PyResult, returned, raised, ok_of, capacity_below_two, channel_name_too_long, name_width,
}
use django_channels_shm.Bindings.PySlabAllocator.{PySlabAllocator}

pub record PyRing : Type 0 where
  pub inner : ℕ

unfoldable pub new : ℕ → PyRing
new ring_offset = record { inner = ring_offset }

-- `result == EnqueueResult::Ok`
abbrev pub is_ok : EnqueueResult → Bool
is_ok ok = true
is_ok full = false

module _ (ring : PyRing) where
  unfoldable pub init : ℕ → Prog (PyResult (Unit {0}))
  init capacity =
      if ltb capacity 2
      then ret (raised capacity_below_two)
      else ok_of (Ring.init ring.inner capacity)

  unfoldable pub offset : ℕ
  offset = ring.inner

  unfoldable pub capacity : Prog ℕ
  capacity = Ring.capacity ring.inner

  module _ (env : Env) (slab : PySlabAllocator) where
    -- `msg_data` is what `PyBuffer::as_slice` gives: no slice of a buffer that is not contiguous.
    unfoldable pub try_enqueue : List ℕ → Option (List ℕ) → ℕ → ℕ → ℕ → Prog (PyResult Bool)
    try_enqueue channel_name msg_data expiry_ts pid start_time =
        if ltb name_width (length channel_name)
        then ret (raised (channel_name_too_long (length channel_name)))
        else elim msg_data [
          | none ↦ ret (returned false)
          | some msg_slice ↦ do
            let owner : OwnerIdentity = record { pid = pid; start_time = start_time }
            result ←
                Enqueue.try_enqueue env slab.inner ring.inner channel_name msg_slice expiry_ts owner
            ret (returned (is_ok result))
        ]

    unfoldable pub try_dequeue : ℕ → ℕ → ℕ → Prog (Option Delivery)
    try_dequeue now pid start_time =
        Dequeue.try_dequeue env slab.inner ring.inner now
          (record { pid = pid; start_time = start_time })

    -- The start time is not used.
    unfoldable pub compact : ℕ → Prog (Unit {0})
    compact start_time = Repair.compact env.rounds slab.inner ring.inner

  unfoldable pub reset : Prog (Unit {0})
  reset = Ring.reset ring.inner
