-- ===== src/Ring/Concurrent/Delivered.antt =====
-- Senders and receivers at one ring, from its start to any later state.
use django_channels_shm.Prelude.{
  ℕ, ◌+◌, ◌*◌, ◌^◌, ◌≤◌, ◌<◌, ◌≡◌, ◌≢◌, refl, sym, ap, ◌∙◌, inl, false, some, List, [], length,
  arith,
}
use django_channels_shm.Shm.{Memory, ret}
use django_channels_shm.Shm.Interleave.{System, run}
use django_channels_shm.Layout.{hdr_inline_size, ring_generation, slot_overflow_off}
use django_channels_shm.Layout.Process.{Env, pid_dead}
use django_channels_shm.Slab.{SlabAllocator}
use django_channels_shm.Ring.{full, slot_offset, OwnerIdentity}
use django_channels_shm.Ring.Contents.{Message, IsRing}
use django_channels_shm.Ring.Dequeue.{Delivery}
use django_channels_shm.Ring.Concurrent.{
  Call, send, receive, Outcome, sent, received, program, traffic,
}
use django_channels_shm.Ring.Concurrent.Roles.{Known, configured, slots, generation, no_page}
use django_channels_shm.Ring.Concurrent.Senders.{try_enqueue-Seeking}
use django_channels_shm.Ring.Concurrent.Receivers.{try_dequeue-Receiving}
use django_channels_shm.Ring.Concurrent.Invariant.{unclaimed, History, IsShared, Part, seeks, looks}
use django_channels_shm.Ring.Concurrent.Quiet.{two_some}
use django_channels_shm.Ring.Concurrent.Course.{Going, go_on}
use django_channels_shm.Ring.Concurrent.Ended.{ticket, Came, came, no_ticket}

-- A ring that no process has used yet, in a region of this inline size; no slot refers to a page.
pub record IsFresh (m : Memory) (ring cap inline_size : ℕ) : Type 0 where
  pub is_ring : IsRing m ring cap 0 0 []
  pub limit : m.word 0 hdr_inline_size ≡ inline_size
  pub no_pages : (x : ℕ) → x < cap → m.word (slot_offset ring x) slot_overflow_off ≡ 0

-- A message that fits in a slot.
abbrev pub IsInline : ℕ → Message → Type 0
IsInline inline_size msg =
    (length msg.name ≤ 128) × (length msg.body ≤ 512) × (length msg.body ≤ inline_size)

-- Who sent what: the message that process `j` has received is that of process `sender_of j`, whose
-- call was not refused, and no two processes have received from the same one.
pub record IsDelivered (calls : ℕ → Call) (t : System Outcome) : Type 0 where
  pub sender_of : ℕ → ℕ
  pub sent_it :
      (j : ℕ) (d : Delivery)
      → t.procs j ≡ ret (received (some d))
      → (msg : Message) × (owner : OwnerIdentity) × (calls (sender_of j) ≡ send msg owner)
        × (d ≡ (msg.name, msg.body))
  pub accepted :
      (j : ℕ) (d : Delivery)
      → t.procs j ≡ ret (received (some d))
      → t.procs (sender_of j) ≢ ret (sent full)
  pub at_most_once :
      (j k : ℕ) (d e : Delivery)
      → t.procs j ≡ ret (received (some d))
      → t.procs k ≡ ret (received (some e))
      → sender_of j ≡ sender_of k
      → j ≡ k

module _ (ring cap inline_size gen : ℕ) (two : 2 ≤ cap) (calls : ℕ → Call) where
  delivered :
      (n : ℕ) (t : System Outcome)
      → Going ring cap inline_size gen two calls n t
      → IsDelivered calls t
  delivered n t a =
      let from : (j : ℕ) (d : Delivery)
          → t.procs j ≡ ret (received (some d))
          → Came ring cap inline_size gen calls a.history j
              (ticket ring cap inline_size gen calls (a.parts j)) d =
        (λ j d r. came ring cap inline_size gen calls (a.parts j) r) in
      record {
        sender_of = λ j. a.history.sender (ticket ring cap inline_size gen calls (a.parts j));
        sent_it = λ j d r.
            let (owner, e) =
              a.shared.sent_by (ticket ring cap inline_size gen calls (a.parts j))
                (from j d r).old in
            (
              a.history.message (ticket ring cap inline_size gen calls (a.parts j)),
              owner,
              e,
              (from j d r).payload,
            );
        accepted = λ j d r refused.
            no_ticket ring cap inline_size gen calls
              (a.parts (a.history.sender (ticket ring cap inline_size gen calls (a.parts j))))
              refused (ticket ring cap inline_size gen calls (a.parts j)) (from j d r).old refl;
        at_most_once = λ j k d e r r' same.
            sym (from j d r).to
            ∙ ap (λ (q : ℕ). a.history.receiver q)
                (a.shared.once (ticket ring cap inline_size gen calls (a.parts j))
                  (ticket ring cap inline_size gen calls (a.parts k)) (from j d r).old
                  (from k e r').old same)
            ∙ (from k e r').to;
      }

module _ (env : Env) (slab : SlabAllocator) (ring cap inline_size : ℕ) (calls : ℕ → Call)
    (m : Memory) (fresh : IsFresh m ring cap inline_size)
    (alive : (pid start_time : ℕ) → pid_dead env pid start_time ≡ some false)
    (fits : (j : ℕ) (msg : Message) (owner : OwnerIdentity)
      → calls j ≡ send msg owner
      → IsInline inline_size msg) where
  abbrev generation_now : ℕ
  generation_now = m.word ring ring_generation

  abbrev nothing_yet : History
  nothing_yet = record {
    enq = 0;
    deq = 0;
    phase = λ q. unclaimed;
    message = λ q. record { name = []; body = []; expiry = 0 };
    sender = λ q. 0;
    receiver = λ q. 0;
  }

  start-Shared : IsShared ring cap inline_size generation_now calls nothing_yet m
  start-Shared = record {
    enq_pos = fresh.is_ring.enqueue_pos;
    deq_pos = fresh.is_ring.dequeue_pos;
    order = omega arith;
    known = λ o f w k. known o f w k;
    ahead = λ q l. refl;
    waiting = λ q l h. absurd (omega (arith, h));
    window = λ q live. absurd live;
    shows = λ q. tt;
    ready = λ q l h. inl (fresh.is_ring.empty q l h);
    holds = λ q. tt;
    once = λ p q l h e. absurd (omega (arith, l));
    sent_by = λ q l. absurd (omega (arith, l));
  }
    where
      known : (o f w : ℕ) → Known ring cap inline_size generation_now o f w → m.word o f ≡ w
      known o f w configured = fresh.limit
      known o f w slots = fresh.is_ring.capacity
      known o f w generation = refl
      known o f w (no_page x l) = fresh.no_pages x l

  start-Part :
      (j : ℕ) (c : Call)
      → calls j ≡ c
      → Part ring cap inline_size generation_now calls nothing_yet m j (program env slab ring c)
  start-Part j (send msg owner) e =
      let (named, short, inline) = fits j msg owner e in
      seeks msg owner 0 0 e (two_some fresh.is_ring.at_least_two) (omega arith)
        (λ q l. absurd (omega (arith, l)))
        (try_enqueue-Seeking env slab ring cap inline_size generation_now
          (two_some fresh.is_ring.at_least_two) alive msg named short inline owner)
  start-Part j (receive now owner) e =
      looks 0 0 (two_some fresh.is_ring.at_least_two) (omega arith) (
        try_dequeue-Receiving env slab ring cap inline_size generation_now
          (two_some fresh.is_ring.at_least_two) alive now owner)

-- Any number of processes, each with one call of `try_enqueue`, of a message whose name has at most
-- 128 bytes and whose body has at most 512 bytes and the configured inline size, or with one of
-- `try_dequeue`, start at a fresh ring, no process is reported dead, and their accesses to the
-- memory are interleaved in any order of fewer than 2 ^ 64 less twice the capacity steps. Then each
-- message that a process has received is, whole, that of a process whose call was not refused, and no
-- two processes have received the message of the same one.
pub traffic-IsDelivered :
    (env : Env) (slab : SlabAllocator) (ring cap inline_size : ℕ) (calls : ℕ → Call) (m : Memory)
    (is : List ℕ)
    → IsFresh m ring cap inline_size
    → ((pid start_time : ℕ) → pid_dead env pid start_time ≡ some false)
    → ((j : ℕ) (msg : Message) (owner : OwnerIdentity)
        → calls j ≡ send msg owner
        → IsInline inline_size msg)
    → length is + 2 * cap < 2 ^ 64
    → IsDelivered calls (run is (traffic env slab ring calls m))
traffic-IsDelivered env slab ring cap inline_size calls m is fresh alive fits room =
    let gen = m.word ring ring_generation in
    let two = fresh.is_ring.at_least_two in
    delivered ring cap inline_size gen two calls (0 + length is)
      (run is (traffic env slab ring calls m))
      (go_on ring cap inline_size gen two calls is 0 (traffic env slab ring calls m)
        (omega (arith, room))
        (record {
          history = nothing_yet env slab ring cap inline_size calls m fresh alive fits;
          shared = start-Shared env slab ring cap inline_size calls m fresh alive fits;
          slow = omega arith;
          parts = λ j.
              start-Part env slab ring cap inline_size calls m fresh alive fits j (calls j) refl;
        }))
