-- ===== src/Network/Client/Totals.antt =====
-- src/network_io_benchmarker_cpp.cpp, `NetworkClient::run`: its statistics at every step, and at the
-- end.
use native.Mathlib.Decide.{dec_lt}
use context_switching.Prelude.{ℕ, ◌^◌, ◌<◌, ◌≡◌, refl, Bool, List, [], ◌∷◌, arith}
use context_switching.Prelude.Int.{pos}
use context_switching.Prelude.Double.{Double}
use context_switching.Network.Statistics.{unused}
use context_switching.Network.Client.{
  Protocol, Phase, testing, sending, receiving, finished, Answer, tested, sent, received, Client,
  new_client, test, step_in, step, steps, end_run, run_client,
}
use context_switching.Network.Client.Counts.{Counted, after_send-Counted, after_recv-Counted}

module _ {F : Double} (size num : ℕ) (few : num < 2 ^ 31) where
  finished-Counted :
      (c : Client F)
      → c.phase ≡ testing
      → Counted size num c
      → Counted size num (record c { phase = finished })
  finished-Counted c e v = record {
    rounds = ground (arith, v.rounds, e);
    sent_rounds = ground (arith, v.sent_rounds, e);
    bounded = v.bounded;
    echoes = ground (arith, v.echoes, e);
    latencies = v.latencies;
    samples = v.samples;
    bytes_out = v.bytes_out;
  }

  sending-Counted :
      (now : F.Num) (c : Client F)
      → c.phase ≡ testing
      → c.round < num
      → Counted size num c
      → Counted size num (record c { phase = sending; send_time = now })
  sending-Counted now c e l v = record {
    rounds = omega (arith, l);
    sent_rounds = ground (arith, v.sent_rounds, e);
    bounded = v.bounded;
    echoes = ground (arith, v.echoes, e);
    latencies = v.latencies;
    samples = v.samples;
    bytes_out = v.bytes_out;
  }

  test-Counted :
      (stop : Bool) (now : F.Num) (c : Client F)
      → c.phase ≡ testing
      → Counted size num c
      → Counted size num (test F (pos num) stop now c)
  test-Counted stop now c e v = elim (dec_lt c.round num) [
    | yes l ↦ ground (arith, l, sending-Counted now c e l v, finished-Counted c e v)
    | no l ↦ ground (arith, l, finished-Counted c e v)
  ]

  step_in-Counted :
      (p : Protocol) (q : Phase) (a : Answer F) (c : Client F)
      → c.phase ≡ q
      → Counted size num c
      → Counted size num (step_in F p size (pos num) q a c)
  unfolding step_in
  step_in-Counted p testing (tested stop now) c e v = test-Counted stop now c e v
  step_in-Counted p testing (sent _ _) c e v = v
  step_in-Counted p testing (received _ _) c e v = v
  step_in-Counted p sending (tested _ _) c e v = v
  step_in-Counted p sending (sent n now) c e v = after_send-Counted size num few p n now c e v
  step_in-Counted p sending (received _ _) c e v = v
  step_in-Counted p (receiving total) (tested _ _) c e v = v
  step_in-Counted p (receiving total) (sent _ _) c e v = v
  step_in-Counted p (receiving total) (received n now) c e v =
      after_recv-Counted size num few p total n now c e v
  step_in-Counted p finished (tested _ _) c e v = v
  step_in-Counted p finished (sent _ _) c e v = v
  step_in-Counted p finished (received _ _) c e v = v

  pub steps-Counted :
      (p : Protocol) (c : Client F) (answers : List (Answer F))
      → Counted size num c
      → Counted size num (steps F p size (pos num) c answers)
  unfolding steps
  steps-Counted p c [] v = v
  steps-Counted p c (a ∷ rest) v =
      steps-Counted p (step F p size (pos num) c a) rest (step_in-Counted p c.phase a c refl v)

-- Whatever the calls of a client of at most 2^31 - 1 messages return: it receives at most as many
-- messages as it sends, and sends at most as many as it was to; each message received has one latency
-- sample; and the bytes sent are those of the messages sent, modulo 2^64.
pub run_client-Counted :
    (F : Double) (p : Protocol) (size num : ℕ) (start_time end_time : F.Num)
    (answers : List (Answer F))
    → num < 2 ^ 31
    → Counted size num (run_client F p size (pos num) start_time end_time answers)
unfolding run_client end_run
run_client-Counted F p size num start_time end_time answers few =
    let v = steps-Counted size num few p (new_client F (unused F)) answers (record {
      rounds = omega arith;
      sent_rounds = omega arith;
      bounded = omega arith;
      echoes = omega arith;
      latencies = refl;
      samples = refl;
      bytes_out = omega arith;
    }) in
    record {
      rounds = v.rounds;
      sent_rounds = v.sent_rounds;
      bounded = v.bounded;
      echoes = v.echoes;
      latencies = v.latencies;
      samples = v.samples;
      bytes_out = v.bytes_out;
    }
