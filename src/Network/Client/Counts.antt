-- ===== src/Network/Client/Counts.antt =====
-- src/network_io_benchmarker_cpp.cpp, `NetworkClient::run`: what the statistics count.
use context_switching.Prelude.{
  ℕ, ◌+◌, ◌*◌, ◌^◌, ◌≤◌, ◌<◌, ◌≡◌, refl, List, [], ◌∷◌, arith, length, length-append, Bool-cases,
  inl, inr,
}
use context_switching.Prelude.Int.{ℤ, pos_part}
use context_switching.Prelude.Words.{u64}
use context_switching.Prelude.Double.{Double}
use context_switching.Network.Statistics.{add_latency_sample, count_sent, count_received}
use context_switching.Network.Client.{
  Protocol, tcp, udp, Phase, testing, sending, receiving, finished, Answer, tested, sent, received,
  Client, complete, wait_for, after_send, first_wait, after_recv, is_size, step,
}

-- A datagram is received at once.
abbrev pub so_far : Protocol → ℕ → ℕ
so_far tcp total = total
so_far udp total = 0

-- The answer is one to the call that the client is in, and no `recv` returns more than it was asked for.
abbrev pub Fits : {F : Double} → Protocol → ℕ → Phase → Answer F → Type 0
Fits p size testing (tested _ _) = Unit
Fits p size sending (sent _ _) = Unit
Fits p size (receiving total) (received n _) = so_far p total + pos_part n ≤ size
Fits _ _ _ _ = ⊥

module _ {F : Double} (p : Protocol) (size : ℕ) (num : ℤ) where
  abbrev pub AllFit : Client F → List (Answer F) → Type 0
  AllFit c [] = Unit
  AllFit c (a ∷ rest) = Fits p size c.phase a × AllFit (step F p size num c a) rest

-- A message has been sent in this round, or in the last one.
abbrev pub waits : Phase → ℕ
waits (receiving _) = 1
waits _ = 0

abbrev pub may_wait : Phase → ℕ
may_wait (receiving _) = 1
may_wait finished = 1
may_wait _ = 0

abbrev pub in_round : Phase → ℕ
in_round (receiving _) = 1
in_round sending = 1
in_round _ = 0

abbrev pub got : Phase → ℕ
got (receiving total) = total
got _ = 0

-- The counters of a client of at most 2^31 - 1 messages.
pub record Counted {F : Double} (size num : ℕ) (c : Client F) : Type 0 where
  pub rounds : c.round + in_round c.phase ≤ num
  pub sent_rounds : c.stats.messages_sent ≤ c.round + may_wait c.phase
  pub bounded : c.stats.messages_sent ≤ num
  pub echoes : c.stats.messages_received + waits c.phase ≤ c.stats.messages_sent
  pub latencies : c.stats.latency_count ≡ c.stats.messages_received
  pub samples : length c.stats.latency_samples ≡ c.stats.messages_received
  pub bytes_out : c.stats.bytes_sent ≡ u64 (c.stats.messages_sent * size)

-- In the round of a message that is sent and not yet echoed.
record Awaiting {F : Double} (size num : ℕ) (c : Client F) : Type 0 where
  rounds : c.round < num
  sent_rounds : c.stats.messages_sent ≤ c.round + 1
  echoes : c.stats.messages_received < c.stats.messages_sent
  latencies : c.stats.latency_count ≡ c.stats.messages_received
  samples : length c.stats.latency_samples ≡ c.stats.messages_received
  bytes_out : c.stats.bytes_sent ≡ u64 (c.stats.messages_sent * size)

module _ {F : Double} (size num : ℕ) (few : num < 2 ^ 31) where
  complete-Counted :
      (n : ℕ) (now : F.Num) (c : Client F)
      → Awaiting size num c
      → Counted size num (complete F n now c)
  unfolding complete add_latency_sample count_received
  complete-Counted n now c v = record {
    rounds = omega (arith, v.rounds);
    sent_rounds = omega (arith, v.sent_rounds);
    bounded = omega (arith, v.sent_rounds, v.rounds);
    echoes = omega (arith, v.echoes, v.sent_rounds, v.rounds, few);
    latencies = omega (arith, v.latencies);
    samples = omega (
      arith,
      v.samples,
      v.echoes,
      v.sent_rounds,
      v.rounds,
      few,
      length-append c.stats.latency_samples (F.sub now c.send_time ∷ []),
    );
    bytes_out = v.bytes_out;
  }

  -- The client with another phase, in which it waits or is past the loop.
  held-Counted :
      (q : Phase) (c : Client F)
      → may_wait q ≡ 1
      → Awaiting size num c
      → Counted size num (record c { phase = q })
  held-Counted q c w v = record {
    rounds = ground (arith, v.rounds);
    sent_rounds = omega (arith, v.sent_rounds, w);
    bounded = omega (arith, v.sent_rounds, v.rounds);
    echoes = ground (arith, v.echoes);
    latencies = v.latencies;
    samples = v.samples;
    bytes_out = v.bytes_out;
  }

  wait_for-Counted :
      (total : ℕ) (now : F.Num) (c : Client F)
      → Awaiting size num c
      → Counted size num (wait_for F size total now c)
  unfolding wait_for
  wait_for-Counted total now c v =
      ground (arith, held-Counted (receiving total) c refl v, complete-Counted total now c v)

  next_round-Counted :
      (c : Client F)
      → Awaiting size num c
      → Counted size num (record c { phase = testing; round = c.round + 1 })
  next_round-Counted c v = record {
    rounds = omega (arith, v.rounds);
    sent_rounds = omega (arith, v.sent_rounds);
    bounded = omega (arith, v.sent_rounds, v.rounds);
    echoes = omega (arith, v.echoes);
    latencies = v.latencies;
    samples = v.samples;
    bytes_out = v.bytes_out;
  }

  sent-Awaiting :
      (c : Client F)
      → c.phase ≡ sending
      → Counted size num c
      → Awaiting size num (record c { stats = count_sent F size c.stats })
  unfolding count_sent
  sent-Awaiting c e v = record {
    rounds = ground (arith, v.rounds, e);
    sent_rounds = ground (arith, v.sent_rounds, e);
    echoes = ground (arith, v.echoes, v.bounded, few);
    latencies = v.latencies;
    samples = v.samples;
    bytes_out = grind (arith, v.bytes_out, v.bounded, few);
  }

  receiving-Awaiting :
      (total : ℕ) (c : Client F)
      → c.phase ≡ receiving total
      → Counted size num c
      → Awaiting size num c
  receiving-Awaiting total c e v = record {
    rounds = ground (arith, v.rounds, e);
    sent_rounds = ground (arith, v.sent_rounds, e);
    echoes = ground (arith, v.echoes, e);
    latencies = v.latencies;
    samples = v.samples;
    bytes_out = v.bytes_out;
  }

  first_wait-Counted :
      (p : Protocol) (now : F.Num) (c : Client F)
      → Awaiting size num c
      → Counted size num (first_wait F p size now c)
  unfolding first_wait
  first_wait-Counted tcp now c w = wait_for-Counted 0 now c w
  first_wait-Counted udp now c w = held-Counted (receiving 0) c refl w

  pub after_send-Counted :
      (p : Protocol) (n : ℤ) (now : F.Num) (c : Client F)
      → c.phase ≡ sending
      → Counted size num c
      → Counted size num (after_send F p size n now c)
  unfolding after_send
  after_send-Counted p n now c e v = elim (Bool-cases (is_size n size)) [
    | inl h ↦ rw h (first_wait-Counted p now _ (sent-Awaiting c e v))
    | inr h ↦ rw h (record {
      rounds = ground (arith, v.rounds, e);
      sent_rounds = ground (arith, v.sent_rounds, e);
      bounded = v.bounded;
      echoes = ground (arith, v.echoes, e);
      latencies = v.latencies;
      samples = v.samples;
      bytes_out = v.bytes_out;
    })
  ]

  pub after_recv-Counted :
      (p : Protocol) (total : ℕ) (n : ℤ) (now : F.Num) (c : Client F)
      → c.phase ≡ receiving total
      → Counted size num c
      → Counted size num (after_recv F p size total n now c)
  unfolding after_recv
  after_recv-Counted tcp total n now c e v =
      let w = receiving-Awaiting total c e v in
      ground (arith, wait_for-Counted (total + pos_part n) now c w, held-Counted finished c refl w)
  after_recv-Counted udp total n now c e v =
      let w = receiving-Awaiting total c e v in
      ground (arith, complete-Counted (pos_part n) now c w, next_round-Counted c w)
