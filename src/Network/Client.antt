-- ===== src/Network/Client.antt =====
-- src/network_io_benchmarker_cpp.cpp: `NetworkClient::run`. What the clock, the stop flag and the calls
-- of the system answer are inputs.
pub mod Counts
pub mod Totals
pub mod Ends
use context_switching.Prelude.{
  ℕ, suc, ◌+◌, ◌-◌, Bool, true, false, ◌&&◌, ◌||◌, not, List, [], ◌∷◌, Option, none, some,
  if◌then◌else◌, ltb, ◌==◌,
}
use context_switching.Prelude.Int.{ℤ, pos, negsuc, pos_part, ltb_ℤ}
use context_switching.Prelude.Words.{u64}
use context_switching.Prelude.Double.{Double}
use context_switching.Network.Statistics.{
  NetworkStats, unused, add_latency_sample, count_sent, count_received,
}

pub data Protocol : Type 0 where
  tcp udp : Protocol

-- Where the client stands: at the test of its loop, at a `send`, at the `recv` that waits for the echo,
-- of which it has so many bytes, or past the loop.
pub data Phase : Type 0 where
  testing : Phase
  sending : Phase
  receiving : ℕ → Phase
  finished : Phase

-- What one step of the client is answered. A `recv` that completes a message is followed by a reading
-- of the clock.
pub data Answer (F : Double) : Type 0 where
  tested : Bool → F.Num → Answer F  -- `stop_flag_` and `send_time`
  sent : ℤ → F.Num → Answer F
  received : ℤ → F.Num → Answer F

abbrev pub is_size : ℤ → ℕ → Bool
is_size (pos n) size = n == size
is_size (negsuc n) size = false

module _ (F : Double) where
  pub record Client : Type 0 where
    pub phase : Phase
    pub round : ℕ  -- `i`
    pub send_time : F.Num
    pub stats : NetworkStats F

  abbrev pub new_client : NetworkStats F → Client
  new_client stats = record { phase = testing; round = 0; send_time = F.of_nat 0; stats = stats }

  abbrev next_round : Client → Client
  next_round c = record c { phase = testing; round = c.round + 1 }

  -- `num_messages_` is an `int`.
  abbrev pub test : ℤ → Bool → F.Num → Client → Client
  test num_messages stop now c =
      if ltb_ℤ (pos c.round) num_messages && not stop
      then record c { phase = sending; send_time = now }
      else record c { phase = finished }

  -- The echo is there, `n` bytes of it.
  unfoldable pub complete : ℕ → F.Num → Client → Client
  complete n now c = next_round (record c {
    stats = add_latency_sample F (F.sub now c.send_time) (count_received F n c.stats);
  })

  -- The test of the loop of `recv`.
  unfoldable pub wait_for : ℕ → ℕ → F.Num → Client → Client
  unfolding complete
  wait_for message_size total now c =
      if ltb total message_size then record c { phase = receiving total } else complete total now c

  -- What follows a message that is sent.
  unfoldable pub first_wait : Protocol → ℕ → F.Num → Client → Client
  unfolding wait_for
  first_wait tcp message_size now c = wait_for message_size 0 now c
  first_wait udp message_size now c = record c { phase = receiving 0 }

  -- After `send` or `sendto`.
  unfoldable pub after_send : Protocol → ℕ → ℤ → F.Num → Client → Client
  unfolding first_wait
  after_send p message_size n now c =
      if is_size n message_size
      then first_wait p message_size now (record c { stats = count_sent F message_size c.stats })
      else next_round c

  -- After `recv` or `recvfrom`.
  unfoldable pub after_recv : Protocol → ℕ → ℕ → ℤ → F.Num → Client → Client
  unfolding wait_for complete
  after_recv tcp message_size total n now c =
      if ltb 0 (pos_part n)
      then wait_for message_size (total + pos_part n) now c
      else record c { phase = finished }
  after_recv udp message_size total n now c =
      if ltb 0 (pos_part n) then complete (pos_part n) now c else next_round c

  -- One step in a phase; an answer to another call changes nothing.
  unfoldable pub step_in : Protocol → ℕ → ℤ → Phase → Answer F → Client → Client
  unfolding after_send after_recv
  step_in p message_size num_messages testing (tested stop now) c = test num_messages stop now c
  step_in p message_size num_messages sending (sent n now) c = after_send p message_size n now c
  step_in p message_size num_messages (receiving total) (received n now) c =
      after_recv p message_size total n now c
  step_in p message_size num_messages _ _ c = c

  abbrev pub step : Protocol → ℕ → ℤ → Client → Answer F → Client
  step p message_size num_messages c a = step_in p message_size num_messages c.phase a c

  unfoldable pub steps : Protocol → ℕ → ℤ → Client → List (Answer F) → Client
  unfolding step_in
  steps p message_size num_messages c [] = c
  steps p message_size num_messages c (a ∷ rest) =
      steps p message_size num_messages (step p message_size num_messages c a) rest

-- How the set-up of the client ends.
pub data Start : Type 0 where
  runs : Start
  throws : Start

-- The answers to `socket`, to the setting of the buffer sizes and of TCP_NODELAY, to `inet_pton` and to
-- `connect`: whether each succeeds.
pub record SetUp : Type 0 where
  pub created : Bool
  pub sized : Bool
  pub undelayed : Bool
  pub address_read : Bool
  pub connected : Bool

abbrev for_tcp : Protocol → Bool → Bool
for_tcp tcp b = b
for_tcp udp b = true

-- The part of `run` before the loop; `buffered` says whether a buffer size is given.
unfoldable pub set_up : Protocol → Bool → SetUp → Start
set_up p buffered a =
    if a.created
      && (not buffered || a.sized)
      && for_tcp p a.undelayed
      && a.address_read
      && for_tcp p a.connected
    then runs
    else throws

-- The end of `run`: the time since the buffers were filled.
module _ (F : Double) where
  unfoldable pub end_run : F.Num → F.Num → NetworkStats F → NetworkStats F
  end_run start_time end_time s = record s { total_time = F.sub end_time start_time }

  -- `run`, once it is set up, given the answers to all its calls.
  unfoldable pub run_client : Protocol → ℕ → ℤ → F.Num → F.Num → List (Answer F) → Client F
  unfolding steps end_run
  run_client p message_size num_messages start_time end_time answers =
      let c = steps F p message_size num_messages (new_client F (unused F)) answers in
      record c { stats = end_run start_time end_time c.stats }
