-- ===== src/Ring/NextTicket.antt =====
-- The round to which `compact` moves a stuck slot.
use django_channels_shm.Prelude.{
  ℕ, ◌+◌, ◌*◌, ◌/◌, ◌%◌, ◌≤◌, ◌<◌, ◌≡◌, ◌∙◌, arith, dec_le, le→leb, gt→leb,
}
use native.Mathlib.Nat.{mod-eq_of_lt, mod-lt, div-add-mod, mul-add-mod_self_left}
use django_channels_shm.Shm.{add64, u64_mod}
use django_channels_shm.Ring.Repair.{next_ticket}

-- The ticket that the repair of a slot without an owner chooses belongs to the slot and is the only
-- one of the slot within one round from the frontier on: it is not before the frontier, so a
-- producer can still take it, and the slot is not skipped for a round. No ticket reaches 2 ^ 64.
pub next_ticket_lem :
    (cap max_pos i : ℕ)
    → i < cap
    → max_pos + 2 * cap < u64_mod
    → (max_pos ≤ next_ticket cap max_pos i)
      × (next_ticket cap max_pos i < max_pos + cap)
      × (next_ticket cap max_pos i % cap ≡ i)
unfolding next_ticket
next_ticket_lem cap' max_pos i l w =
    let q = max_pos / cap' in
    let split = div-add-mod max_pos cap' in
    let below = mod-lt max_pos {m = cap'} (omega arith) in
    elim (dec_le (max_pos % cap') i) [
      | yes a ↦
          let e : add64 (q * cap') i ≡ cap' * q + i =
            mod-eq_of_lt (omega (arith, split)) ∙ omega arith in
          rw (le→leb (max_pos % cap') i a, e)
            (
              omega (arith, split, below),
              omega (arith, split, below),
              mul-add-mod_self_left cap' q i ∙ mod-eq_of_lt l,
            )
      | no b ↦
          let base : add64 (q * cap') cap' ≡ cap' * (q + 1) =
            mod-eq_of_lt (omega (arith, split)) ∙ omega arith in
          let e : add64 (cap' * (q + 1)) i ≡ cap' * (q + 1) + i =
            mod-eq_of_lt (omega (arith, split)) in
          rw (gt→leb (max_pos % cap') i (omega arith), base, e)
            (
              omega (arith, split, below),
              omega (arith, split, below),
              mul-add-mod_self_left cap' (q + 1) i ∙ mod-eq_of_lt l,
            )
    ]
