-- ===== src/Bindings/Checked.antt =====
-- What the checks on the arguments are good for: a call that raises no error keeps its promise, and
-- one that raises an error has done nothing.
use django_channels_shm.Prelude.{
  ℕ, ◌+◌, ◌≤◌, ◌<◌, ◌≡◌, ◌≢◌, refl, sym, ap, ◌∙◌, ◌⊎◌, inl, inr, Bool, true, false, Option, none,
  some, List, [], ◌∷◌, length, ltb, if◌then◌else◌, Bool-cases, arith, HasNoNul,
}
use mathlib.Core.Path.{subst}
use django_channels_shm.Shm.{Memory, Prog, ret, exec, u64_mod}
use django_channels_shm.Shm.Exec.{exec-unbind, exec_unique}
use django_channels_shm.Layout.{hdr_inline_size}
use django_channels_shm.Layout.Process.{Env}
use django_channels_shm.Bindings.{
  PyResult, returned, raised, ok_of, ValueError, capacity_below_two, channel_name_too_long,
  group_name_too_long, name_width,
}
use django_channels_shm.Bindings.PySlabAllocator.{PySlabAllocator}
use django_channels_shm.Bindings.PyRing.{PyRing, is_ok, init, try_enqueue, try_dequeue}
use django_channels_shm.Bindings.Functions.{
  channel_index_create, group_index_create_or_find, group_member_add, group_members_read_all,
}
use django_channels_shm.Member.Joined.{read_all-add}
use django_channels_shm.Member.Utf8.{is_utf8}
use django_channels_shm.Ring.{EnqueueResult, OwnerIdentity}
use django_channels_shm.Ring
use django_channels_shm.Ring.Enqueue
use django_channels_shm.Ring.Contents.{Message, IsRing}
use django_channels_shm.Ring.Reset.{init-IsRing}
use django_channels_shm.Ring.FifoEnqueue.{try_enqueue-ok}
use django_channels_shm.Ring.FifoDequeue.{next_live, try_dequeue_lem}
use mathlib.Core.List.{Memᴰ}

-- The shape of a checked call.
abbrev checked : {A : Type 0} → Bool → ValueError → Prog A → Prog (PyResult A)
checked bad e p = if bad then ret (raised e) else ok_of p

-- A call that returns passed the check, and the operation gave the result.
checked-returned :
    {A : Type 0} (bad : Bool) (e : ValueError) (p : Prog A) (m m' : Memory) (a : A)
    → exec (checked bad e p) m ≡ some (returned a, m')
    → (bad ≡ false) × (exec p m ≡ some (a, m'))
unfolding exec
checked-returned true e p m m' a ran = cc ran
checked-returned false e p m m' a ran =
    let (b, m₁, one, two) = exec-unbind p _ m ran in (refl, cc (one, two))

-- A call that raises an error failed the check, and the region is as before.
checked-raised :
    {A : Type 0} (bad : Bool) (e e' : ValueError) (p : Prog A) (m m' : Memory)
    → exec (checked bad e p) m ≡ some (raised e', m')
    → (bad ≡ true) × (e' ≡ e) × (m' ≡ m)
unfolding exec
checked-raised true e e' p m m' ran = (refl, cc ran, cc ran)
checked-raised false e e' p m m' ran = let (b, m₁, one, two) = exec-unbind p _ m ran in cc two

-- Through the exports: a channel whose name is text without NUL, and that was added to a group
-- without an error and with the answer true, is in the list of the members that is read at the same
-- time, if the expiry does not overflow. No name that passes the check is cut off.
pub read_all-add-checked :
    (off grp now max_members expiry : ℕ) (name : List ℕ) (m m' : Memory)
    → HasNoNul name
    → is_utf8 name ≡ true
    → 0 < max_members
    → now + expiry < u64_mod
    → exec (group_member_add grp off name now max_members expiry) m ≡ some (returned true, m')
    → (out : List (List ℕ)) × (exec (group_members_read_all off max_members now expiry) m'
        ≡ some (out, m'))
      × Memᴰ name out
unfolding group_member_add group_members_read_all
read_all-add-checked off grp now max_members expiry name m m' z text some_room w ran =
    let (short, ran') =
      checked-returned (ltb name_width (length name)) (channel_name_too_long (length name)) _ m m' _
        ran in
    read_all-add off grp now max_members expiry name m m' (ground arith) z text some_room w ran'

module _ (env : Env) (slab : PySlabAllocator) (ring : PyRing) where
  -- A call of `try_enqueue` with a contiguous buffer that returns: its name fits, and it gives
  -- whether the operation's answer is Ok.
  enqueue-returned :
      (name body : List ℕ) (expiry pid start_time : ℕ) (m m' : Memory) (b : Bool)
      → exec (try_enqueue ring env slab name (some body) expiry pid start_time) m
        ≡ some (returned b, m')
      → (length name ≤ 128)
        × (result : EnqueueResult) × (b ≡ is_ok result)
        × (exec
              (Enqueue.try_enqueue env slab.inner ring.inner name body expiry
                (record { pid = pid; start_time = start_time }))
              m
            ≡ some (result, m'))
  unfolding try_enqueue exec
  enqueue-returned name body expiry pid start_time m m' b ran =
      elim (Bool-cases (ltb name_width (length name))) [
        | inl bad ↦ cc (rw bad at ran)
        | inr fits ↦
            let (result, m₁, one, two) =
              exec-unbind
                (Enqueue.try_enqueue env slab.inner ring.inner name body expiry
                  (record { pid = pid; start_time = start_time }))
                _ m (rw fits at ran) in
            (ground arith, result, cc two, cc (one, two))
      ]

  -- A contiguous or other buffer and a name that fits: the call raises no error.
  enqueue-not_raised :
      (name : List ℕ) (buffer : Option (List ℕ)) (expiry pid start_time : ℕ) (m m' : Memory)
      (e : ValueError)
      → ltb name_width (length name) ≡ false
      → exec (try_enqueue ring env slab name buffer expiry pid start_time) m ≢ some (raised e, m')
  unfolding try_enqueue exec
  enqueue-not_raised name none expiry pid start_time m m' e fits ran = cc (rw fits at ran)
  enqueue-not_raised name (some body) expiry pid start_time m m' e fits ran =
      let (result, m₁, one, two) =
        exec-unbind
          (Enqueue.try_enqueue env slab.inner ring.inner name body expiry
            (record { pid = pid; start_time = start_time }))
          _ m (rw fits at ran) in
      cc two

  -- The exports that store a name check it: if it has more than the 128 bytes of its field, then
  -- creating a channel, creating a group, adding a member and enqueueing all raise the error that names
  -- the length, and change nothing; and if it has no more, none of the four ever raises an error.
  pub refused :
      (name : List ℕ) (buffer : Option (List ℕ))
      (off grp ring_offset capacity now limit members expiry pid start_time : ℕ) (non_local : Bool)
      (e : ValueError) (m m' : Memory)
      → ((128 < length name)
          × (exec (channel_index_create name ring_offset capacity non_local limit) m
              ≡ some (raised (channel_name_too_long (length name)), m))
          × (exec (group_index_create_or_find name slab limit members) m
              ≡ some (raised (group_name_too_long (length name)), m))
          × (exec (group_member_add grp off name now members expiry) m
              ≡ some (raised (channel_name_too_long (length name)), m))
          × (exec (try_enqueue ring env slab name buffer expiry pid start_time) m
              ≡ some (raised (channel_name_too_long (length name)), m)))
        ⊎ ((length name ≤ 128)
            × (exec (channel_index_create name ring_offset capacity non_local limit) m
                ≢ some (raised e, m'))
            × (exec (group_index_create_or_find name slab limit members) m ≢ some (raised e, m'))
            × (exec (group_member_add grp off name now members expiry) m ≢ some (raised e, m'))
            × (exec (try_enqueue ring env slab name buffer expiry pid start_time) m
                ≢ some (raised e, m')))
  unfolding channel_index_create group_index_create_or_find group_member_add try_enqueue exec
  refused name buffer off grp ring_offset capacity now limit members expiry pid start_time non_local
        e m m' =
      elim (Bool-cases (ltb name_width (length name))) [
        | inl long ↦ inl (
          ground (arith, long),
          rw (long, exec),
          rw (long, exec),
          rw (long, exec),
          rw (long, exec),
        )
        | inr fits ↦ inr (
          ground (arith, fits),
          (λ ran. cc (fits, (checked-raised (ltb name_width (length name)) _ e _ m m' ran).0)),
          (λ ran. cc (fits, (checked-raised (ltb name_width (length name)) _ e _ m m' ran).0)),
          (λ ran. cc (fits, (checked-raised (ltb name_width (length name)) _ e _ m m' ran).0)),
          enqueue-not_raised name buffer expiry pid start_time m m' e fits,
        )
      ]

  -- What Python gets without an error is right: if `init` of a ring and then `try_enqueue` of a
  -- contiguous message, of at most 512 bytes and the configured inline size, return, the enqueue
  -- answered true, and `try_dequeue` of any consumer, the message not having expired, gives the name and the message. No hypothesis on the
  -- capacity from below or on the length of the name is needed.
  pub dequeue-enqueue-init :
      (name body : List ℕ) (capacity expiry now pid pid' start_time start_time' : ℕ)
      (m m₁ m₂ : Memory) (b : Bool)
      → 1 < env.rounds
      → exec (init ring capacity) m ≡ some (returned tt, m₁)
      → exec (try_enqueue ring env slab name (some body) expiry pid start_time) m₁
        ≡ some (returned b, m₂)
      → length body ≤ 512
      → length body ≤ m₁.word 0 hdr_inline_size
      → capacity + 1 < u64_mod
      → env.later now expiry ≡ false
      → (m₃ : Memory) × (b ≡ true)
        × (exec (try_dequeue ring env slab now pid' start_time') m₂ ≡ some (some (name, body), m₃))
  unfolding init try_dequeue next_live
  dequeue-enqueue-init name body capacity expiry now pid pid' start_time start_time' m m₁ m₂ b
        rounds made put short inline w live =
      let (two, ran) =
        checked-returned (ltb capacity 2) capacity_below_two (Ring.init ring.inner capacity) m m₁ tt
          made in
      let (n₁, ran', r) = init-IsRing ring.inner m capacity (ground (arith, two)) in
      let r₁ : IsRing m₁ ring.inner capacity 0 0 [] =
        subst (λ n. IsRing n ring.inner capacity 0 0 []) (exec_unique ran' ran).1 r in
      let (fits, result, answer, queued) =
        enqueue-returned name body expiry pid start_time m₁ m₂ b put in
      let owner : OwnerIdentity = record { pid = pid; start_time = start_time } in
      let msg : Message = record { name = name; body = body; expiry = expiry } in
      let (n₂, queued', r₂, same) =
        try_enqueue-ok env slab.inner m₁ ring.inner capacity 0 0 [] owner msg (omega arith) r₁
          (omega (arith, r₁.at_least_two)) (omega arith) fits short inline in
      let r₃ : IsRing m₂ ring.inner capacity 0 1 (some msg ∷ []) =
        subst (λ n. IsRing n ring.inner capacity 0 1 (some msg ∷ []))
          (sym (exec_unique queued queued').1) r₂ in
      let (m₃, deq', got, r₄) =
        try_dequeue_lem env slab.inner m₂ ring.inner capacity 0 1 (some msg ∷ [])
          (record { pid = pid'; start_time = start_time' }) now rounds r₃ (omega arith) in
      (m₃, answer ∙ ap is_ok (exec_unique queued queued').0, rw live at got)
