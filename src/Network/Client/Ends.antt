-- ===== src/Network/Client/Ends.antt =====
-- src/network_io_benchmarker_cpp.cpp, `NetworkClient::run`: that the loop ends.
use native.Mathlib.Decide.{dec_lt}
use context_switching.Prelude.{
  ℕ, suc, ◌+◌, ◌-◌, ◌*◌, ◌≤◌, ◌<◌, ◌≡◌, subst, List, [], ◌∷◌, arith, length,
}
use context_switching.Prelude.Int.{pos, pos_part}
use context_switching.Prelude.Double.{Double}
use context_switching.Network.Statistics.{unused}
use context_switching.Network.Client.{
  Protocol, tcp, udp, Phase, testing, sending, receiving, finished, Answer, tested, sent, received,
  Client, new_client, complete, wait_for, after_send, first_wait, after_recv, step_in, step,
}
use context_switching.Network.Client.Counts.{Fits, AllFit}

-- How many more calls the client makes at most: `send`, a `recv` for each byte and a test for each
-- round that is left.
abbrev left_in : ℕ → ℕ → ℕ → Phase → ℕ
left_in size num round testing = (num - round) * (size + 3) + 1
left_in size num round sending = (num - round) * (size + 3)
left_in size num round (receiving total) = (num - round) * (size + 3) - 1 - total
left_in size num round finished = 0

abbrev IsSound : ℕ → ℕ → ℕ → Phase → Type 0
IsSound size num round testing = Unit
IsSound size num round sending = round < num
IsSound size num round (receiving total) = (round < num) × (total ≤ size)
IsSound size num round finished = Unit

suc_mul : (n k : ℕ) → suc n * k ≡ n * k + k
suc_mul n k = grind arith

round_left : (num round k : ℕ) → round < num → (num - round) * k ≡ (num - (round + 1)) * k + k
round_left num round k l =
    let one : num - round ≡ suc (num - (round + 1)) = omega arith in
    rw one (suc_mul (num - (round + 1)) k)

round_over :
    (size num bound round : ℕ)
    → round < num
    → (num - round) * (size + 3) ≤ bound + size + 1
    → (num - (round + 1)) * (size + 3) + 1 < bound
round_over size num bound round l h = omega (arith, round_left num round (size + 3) l, h)

-- An exhausted client, or one with fewer calls left.
abbrev Less : {F : Double} → ℕ → ℕ → ℕ → Client F → Type 0
Less size num bound c =
    IsSound size num c.round c.phase × (left_in size num c.round c.phase < bound)

module _ {F : Double} (size num : ℕ) where
  wait_for-Less :
      (bound total : ℕ) (now : F.Num) (c : Client F)
      → c.round < num
      → total ≤ size
      → (num - c.round) * (size + 3) ≤ bound + total
      → (num - c.round) * (size + 3) ≤ bound + size + 1
      → Less size num bound (wait_for F size total now c)
  unfolding wait_for complete
  wait_for-Less bound total now c l t h k = ground (
    arith,
    l,
    t,
    h,
    k,
    round_over size num bound c.round l k,
    round_left num c.round (size + 3) l,
  )

  step_in-Less :
      (p : Protocol) (q : Phase) (a : Answer F) (c : Client F)
      → Fits p size q a
      → IsSound size num c.round q
      → Less size num (left_in size num c.round q) (step_in F p size (pos num) q a c)
  unfolding step_in after_send first_wait after_recv complete
  step_in-Less p testing (tested stop now) c f s = elim (dec_lt c.round num) [
    | yes l ↦ ground (arith, l)
    | no l ↦ ground (arith, l)
  ]
  step_in-Less p testing (sent _ _) c f s = absurd f
  step_in-Less p testing (received _ _) c f s = absurd f
  step_in-Less p sending (tested _ _) c f s = absurd f
  step_in-Less tcp sending (sent n now) c f s = ground (
    arith,
    s,
    wait_for-Less (left_in size num c.round sending) 0 now _ s (omega arith) (omega arith)
        (omega arith),
    round_over size num (left_in size num c.round sending) c.round s (omega arith),
  )
  step_in-Less udp sending (sent n now) c f s = ground (
    arith,
    s,
    round_left num c.round (size + 3) s,
    round_over size num (left_in size num c.round sending) c.round s (omega arith),
  )
  step_in-Less p sending (received _ _) c f s = absurd f
  step_in-Less p (receiving total) (tested _ _) c f s = absurd f
  step_in-Less p (receiving total) (sent _ _) c f s = absurd f
  step_in-Less tcp (receiving total) (received n now) c f (l, t) =
      let more = round_left num c.round (size + 3) l in
      let bound = left_in size num c.round (receiving total) in
      elim (dec_lt 0 (pos_part n)) [
        | yes k ↦ ground (
          arith,
          k,
          wait_for-Less bound (total + pos_part n) now c l f (omega (arith, more, k))
              (omega (arith, more, k)),
        )
        | no k ↦ ground (arith, k, l, more)
      ]
  step_in-Less udp (receiving total) (received n now) c f (l, t) =
      ground (arith, l, round_left num c.round (size + 3) l)
  step_in-Less p finished _ c f s = absurd f

  steps_left :
      (p : Protocol) (c : Client F) (answers : List (Answer F))
      → IsSound size num c.round c.phase
      → AllFit p size (pos num) c answers
      → length answers ≤ left_in size num c.round c.phase
  steps_left p c [] s f = omega arith
  steps_left p c (a ∷ rest) s (f, more) =
      let (t, less) = step_in-Less p c.phase a c f s in
      omega (arith, less, steps_left p (step F p size (pos num) c a) rest t more)

-- However its calls are answered, as long as no `recv` returns more bytes than it is asked for, the loop
-- of a client of `num` messages of `size` bytes ends after num * (size + 3) + 1 steps at most, each a test
-- of the loop or a call of the system.
pub run_client_ends :
    {F : Double} (p : Protocol) (size num : ℕ) (answers : List (Answer F))
    → AllFit p size (pos num) (new_client F (unused F)) answers
    → length answers ≤ num * (size + 3) + 1
run_client_ends {F} p size num answers f =
    let all : num - 0 ≡ num = omega arith in
    subst (λ rounds. length answers ≤ rounds * (size + 3) + 1) all
      (steps_left size num p (new_client F (unused F)) answers tt f)
