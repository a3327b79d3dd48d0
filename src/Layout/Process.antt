-- ===== src/Layout/Process.antt =====
-- Process identity: `parse_starttime_from_stat`, `read_stat_starttime` and `pid_dead` of layout.rs.
use django_channels_shm.Prelude.{
  ℕ, ◌+◌, ◌-◌, ◌*◌, ◌^◌, ◌≤◌, ◌<◌, ◌≡◌, ◌≢◌, Bool, true, false, not, ◌&&◌, ◌||◌, Option, none, some,
  List, [], ◌∷◌, ltb, leb, ◌==◌, if◌then◌else◌, arith, ◌⊎◌, get_or,
}
use mathlib.Core.Option
use mathlib.Core.List.{reverse}
use django_channels_shm.Shm.{u64_mod}

-- What the kernel answers: `kill(pid, 0)` succeeds, fails with ESRCH, or fails otherwise.
pub data Signal : Type 0 where
  delivered no_such_process other_errno : Signal

-- The operating system and the `f64` comparison that the program relies on. `stat` is the text of
-- /proc/{pid}/stat as code points, if it can be read. `later a b` is `a > b` on the numbers whose
-- bits are `a` and `b`. `rounds` bounds how often a run goes round an unbounded loop.
pub record Env : Type 0 where
  pub kill : ℕ → Signal
  pub stat : ℕ → Option (List ℕ)
  pub later : ℕ → ℕ → Bool
  pub rounds : ℕ

-- `char::is_whitespace`
unfoldable pub is_whitespace : ℕ → Bool
is_whitespace c =
    (leb 9 c && leb c 13)
    || (c == 32)
    || (c == 0x85)
    || (c == 0xa0)
    || (c == 0x1680)
    || (leb 0x2000 c && leb c 0x200a)
    || (c == 0x2028)
    || (c == 0x2029)
    || (c == 0x202f)
    || (c == 0x205f)
    || (c == 0x3000)

-- What follows the last `)`, if there is one.
unfoldable pub after_paren : List ℕ → Option (List ℕ)
after_paren [] = none
after_paren (c ∷ r) = elim (after_paren r) [
  | some s ↦ some s
  | none ↦ if c == 41 then some r else none
]

-- `split_whitespace` with the word that is being read, its characters reversed; an empty word is
-- no word.
abbrev pub finish : List ℕ → List (List ℕ) → List (List ℕ)
finish [] ws = ws
finish (c ∷ r) ws = reverse (c ∷ r) ∷ ws

unfoldable pub words_from : List ℕ → List ℕ → List (List ℕ)
words_from w [] = finish w []
words_from w (c ∷ s) = elim (is_whitespace c) [
  | true ↦ finish w (words_from [] s)
  | false ↦ words_from (c ∷ w) s
]

-- The digits of a `u64`; `none` is a character that is no digit, or an overflow.
unfoldable pub digits_from : ℕ → List ℕ → Option ℕ
digits_from n [] = some n
digits_from n (c ∷ s) =
    let n' = n * 10 + (c - 48) in
    let rest = digits_from n' s in if leb 48 c && leb c 57 && ltb n' u64_mod then rest else none

-- `str::parse::<u64>`: an optional `+`, then at least one digit.
unfoldable pub parse_u64 : List ℕ → Option ℕ
unfolding digits_from
parse_u64 [] = none
parse_u64 (c ∷ []) = if c == 43 then none else digits_from 0 (c ∷ [])
parse_u64 (c ∷ d ∷ s) = if c == 43 then digits_from 0 (d ∷ s) else digits_from 0 (c ∷ d ∷ s)

starttime_field : List ℕ → ℕ
unfolding words_from is_whitespace parse_u64
starttime_field s = elim (parse_u64 (get_or (words_from [] s) 19 [])) [ none ↦ 0 | some n ↦ n ]

-- The slice `data[idx + 2..]` panics (`none`) if nothing follows the parenthesis, or if the next
-- character is longer than a byte.
skip_one : List ℕ → Option (List ℕ)
skip_one [] = none
skip_one (c ∷ s) = if ltb c 128 then some s else none

unfoldable pub parse_starttime_from_stat : List ℕ → Option ℕ
unfolding after_paren starttime_field skip_one
parse_starttime_from_stat text = elim (after_paren text) [
  | none ↦ some (starttime_field text)
  | some s ↦ Option.map starttime_field (skip_one s)
]

unfoldable pub read_stat_starttime : Env → ℕ → Option ℕ
unfolding parse_starttime_from_stat
read_stat_starttime env pid = elim (env.stat pid) [
  | none ↦ some 0
  | some text ↦ parse_starttime_from_stat text
]

-- `none` is a panic of `parse_starttime_from_stat`. `(pid as i32) <= 0` holds of 0 and from 2 ^ 31.
unfoldable pub pid_dead : Env → ℕ → ℕ → Option Bool
pid_dead env pid start_time =
    if pid == 0 || leb (2 ^ 31) pid then some false else (elim (env.kill pid) [
      | no_such_process ↦ some true
      | other_errno ↦ some false
      | delivered ↦
          Option.map (λ current. if current == 0 then true else not (current == start_time))
            (read_stat_starttime env pid)
    ])

-- Neither pid 0 nor the sentinel of a repair in progress, nor any other pid that is no positive
-- `i32`, is ever reported dead, whatever the operating system answers.
pub pid_dead_sentinel :
    (env : Env) (pid start_time : ℕ)
    → (pid ≡ 0) ⊎ (2 ^ 31 ≤ pid)
    → pid_dead env pid start_time ≡ some false
unfolding pid_dead
pid_dead_sentinel env pid start_time h = ground arith

-- A process is reported dead only if its pid is a positive `i32` and either the pid is gone, or the
-- start time that is read now differs from the recorded one or cannot be read.
pub pid_dead_sound :
    (env : Env) (pid start_time : ℕ) {current : ℕ}
    → read_stat_starttime env pid ≡ some current
    → pid_dead env pid start_time ≡ some true
    → (0 < pid)
      × (pid < 2 ^ 31)
      × ((env.kill pid ≡ no_such_process) ⊎ (current ≡ 0) ⊎ (current ≢ start_time))
unfolding pid_dead
pid_dead_sound env pid start_time h d = ground arith

-- A process that runs with the recorded, non-zero start time is not reported dead.
pub pid_dead_live :
    (env : Env) (pid start_time : ℕ)
    → env.kill pid ≡ delivered
    → read_stat_starttime env pid ≡ some start_time
    → 0 < start_time
    → pid_dead env pid start_time ≡ some false
unfolding pid_dead
pid_dead_live env pid start_time k h p = ground arith
