-- ===== src/Network/Echo/Message.antt =====
-- src/network_io_benchmarker_cpp.cpp: what the client gets back.
use native.Mathlib.Decide.{dec_lt}
use mathlib.Core.List.{append_assoc, append-nil}
use context_switching.Prelude.{
  ℕ, zero, suc, ◌+◌, ◌%◌, ◌≤◌, ◌<◌, ◌≡◌, ◌≢◌, ◌⊎◌, inl, inr, refl, sym, ◌∙◌, ap, subst, subst⁻¹,
  Bool, true, false, List, [], ◌∷◌, ◌++◌, length, length-append, length-map, arith, ltb, ◌==◌,
}
use context_switching.Prelude.Int.{ℤ, pos, negsuc}
use context_switching.Prelude.Double.{Double}
use context_switching.Prelude.Occurrences.{iota}
use context_switching.Network.Statistics.{count_sent}
use context_switching.Network.Client.{
  tcp, test as test_loop, Answer, Phase, testing, sending, receiving, finished, Client, step,
  step_in, after_send, first_wait, after_recv, wait_for, complete,
}
use context_switching.Network.Echo.{
  send_buffer, System, Step, test, send, send_part, send_fails, server_recv, server_send,
  server_send_part, recv, connected, Steps, here, next,
}
use context_switching.Network.Echo.Short.{Short, Step-Short, length-pos}

length-iota : (k n : ℕ) → length (iota k n) ≡ n
length-iota k zero = refl
length-iota k (suc n) = ap suc (length-iota (suc k) n)

pub length-send_buffer : (size : ℕ) → length (send_buffer size) ≡ size
length-send_buffer size = length-map (λ i. i % 256) (iota 0 size) ∙ length-iota 0 size

-- What is on its way, in the order in which it is to arrive.
abbrev pub underway : {F : Double} → System F → List ℕ
underway s = s.to_client ++ (s.echo ++ s.to_server)

-- A message that is sent is all there: received, or on its way; between messages nothing is on its way.
abbrev pub Whole : {F : Double} → ℕ → System F → Phase → Type 0
Whole size s testing = underway s ≡ []
Whole size s sending = underway s ≡ []
Whole size s (receiving total) =
    (s.recv_buffer ++ underway s ≡ send_buffer size) × (total ≡ length s.recv_buffer)
Whole size s finished = Unit

-- All is there, or the client waits for bytes that the server has dropped.
abbrev pub Kept : {F : Double} → ℕ → System F → Type 0
Kept size s = Whole size s s.client.phase ⊎ Short size s

abbrev got : Phase → Bool
got (receiving total) = true
got _ = false

length-eq-zero : (xs : List ℕ) → length xs ≡ 0 → xs ≡ []
length-eq-zero [] h = refl
length-eq-zero (x ∷ xs) h = absurd (omega (arith, h))

-- Where the whole message is received, nothing of it is on its way.
nothing_left :
    (size : ℕ) (got rest : List ℕ) → got ++ rest ≡ send_buffer size → size ≤ length got → rest ≡ []
nothing_left size got rest w l =
    length-eq-zero rest
      (omega (arith, ap length w, length-append got rest, length-send_buffer size, l))

regrouped : (a b c d : List ℕ) → (a ++ b) ++ (c ++ d) ≡ a ++ ((b ++ c) ++ d)
regrouped a b c d = simp append_assoc refl

-- Bytes that are received move from the one list to the other.
taken :
    {front whole : List ℕ} (buffer chunk rest more : List ℕ)
    → front ≡ chunk ++ rest
    → buffer ++ (front ++ more) ≡ whole
    → (buffer ++ chunk) ++ (rest ++ more) ≡ whole
taken {whole} buffer chunk rest more e w =
    regrouped buffer chunk rest more ∙ subst (λ xs. buffer ++ (xs ++ more) ≡ whole) e w

joined : (a b c d : List ℕ) → a ++ (b ++ (c ++ d)) ≡ (a ++ (b ++ c)) ++ d
joined a b c d = simp append_assoc refl

module _ {F : Double} (size : ℕ) where
  -- A step of the server that loses nothing.
  moved-Whole :
      (q : Phase) (s t : System F)
      → underway t ≡ underway s
      → t.recv_buffer ≡ s.recv_buffer
      → Whole size s q
      → Whole size t q
  moved-Whole testing s t u b w = u ∙ w
  moved-Whole sending s t u b w = u ∙ w
  moved-Whole (receiving total) s t u b (w, l) = (rw (u, b) w, rw b l)
  moved-Whole finished s t u b w = tt

  -- Between messages the client may turn to another phase.
  turned-Whole : (q : Phase) (s : System F) → underway s ≡ [] → got q ≡ false → Whole size s q
  turned-Whole testing s w h = w
  turned-Whole sending s w h = w
  turned-Whole (receiving total) s w h = cc
  turned-Whole finished s w h = tt

  test-Whole :
      (num : ℤ) (stop : Bool) (now : F.Num) (s t : System F)
      → underway t ≡ []
      → Whole size t (test_loop F num stop now s.client).phase
  test-Whole num stop now s t w = turned-Whole _ t w (ground arith)

  -- A client that waits for the echo of which it has `total` bytes.
  waiting-Whole :
      (total : ℕ) (now : F.Num) (c : Client F) (t : System F)
      → t.recv_buffer ++ underway t ≡ send_buffer size
      → total ≡ length t.recv_buffer
      → Whole size t (wait_for F size total now c).phase
  unfolding wait_for complete
  waiting-Whole total now c t w l = elim (dec_lt total size) [
    | yes h ↦ let b : ltb total size ≡ true = ground (arith, h) in rw b (w, l)
    | no h ↦
        let b : ltb total size ≡ false = ground (arith, h) in
        rw b (nothing_left size t.recv_buffer (underway t) w (omega (arith, l, h)))
  ]

  -- The client in a phase, given an answer.
  answered :
      (num : ℤ) (c : Client F) {q : Phase} (a : Answer F) (t : System F)
      → c.phase ≡ q
      → Whole size t (step_in F tcp size num q a c).phase
      → Whole size t (step F tcp size num c a).phase
  answered num c {q} a t e w = subst⁻¹ (λ r. Whole size t (step_in F tcp size num r a c).phase) e w

  sent-Whole :
      (now : F.Num) (c : Client F) (t : System F)
      → t.recv_buffer ≡ []
      → underway t ≡ send_buffer size
      → Whole size t (after_send F tcp size (pos size) now c).phase
  unfolding after_send first_wait
  sent-Whole now c t b w =
      let same : (size == size) ≡ true = ground arith in
      rw same (
        waiting-Whole 0 now (record c { stats = count_sent F size c.stats }) t (rw (b, w) refl)
          (rw b refl))

  unsent-Whole :
      (now : F.Num) (c : Client F) (t : System F)
      → underway t ≡ []
      → Whole size t (after_send F tcp size (negsuc 0) now c).phase
  unfolding after_send
  unsent-Whole now c t w = w

  received-Whole :
      (total n : ℕ) (now : F.Num) (c : Client F) (t : System F)
      → 0 < n
      → t.recv_buffer ++ underway t ≡ send_buffer size
      → total + n ≡ length t.recv_buffer
      → Whole size t (after_recv F tcp size total (pos n) now c).phase
  unfolding after_recv
  received-Whole total n now c t h w l =
      let some_bytes : ltb 0 n ≡ true = ground (arith, h) in
      rw some_bytes (waiting-Whole (total + n) now c t w l)

  -- A `send` of the server does not take the bytes `back` of an echo.
  pub dropped-Short :
      (total : ℕ) (s : System F) (front back : List ℕ)
      → s.client.phase ≡ receiving total
      → s.echo ≡ front ++ back
      → back ≢ []
      → Whole size s (receiving total)
      → Short size (record s { echo = []; to_client = s.to_client ++ front })
  dropped-Short total s front back p e n (whole, so_far) = record {
    total = total;
    waits = p;
    missing = omega (
      arith,
      so_far,
      ap length whole,
      ap length e,
      length-append s.recv_buffer (underway s),
      length-append s.to_client (s.echo ++ s.to_server),
      length-append s.echo s.to_server,
      length-append front back,
      length-append s.to_client front,
      length-send_buffer size,
      length-pos back n,
    );
  }

  -- Where nothing is on its way there is nothing to drop.
  nothing_dropped :
      (s : System F) (front back : List ℕ)
      → s.echo ≡ front ++ back
      → back ≢ []
      → underway s ≡ []
      → ⊥
  nothing_dropped s front back e n w = omega (
    arith,
    ap length w,
    ap length e,
    length-append s.to_client (s.echo ++ s.to_server),
    length-append s.echo s.to_server,
    length-append front back,
    length-pos back n,
  )

  dropped-Kept :
      (q : Phase) (s : System F) (front back : List ℕ)
      → s.client.phase ≡ q
      → s.echo ≡ front ++ back
      → back ≢ []
      → Whole size s q
      → Kept size (record s { echo = []; to_client = s.to_client ++ front })
  dropped-Kept testing s front back p e n w = absurd (nothing_dropped s front back e n w)
  dropped-Kept sending s front back p e n w = absurd (nothing_dropped s front back e n w)
  dropped-Kept (receiving total) s front back p e n w =
      inr (dropped-Short total s front back p e n w)
  dropped-Kept finished s front back p e n w =
      inl (subst⁻¹ (Whole size (record s { echo = []; to_client = s.to_client ++ front })) p tt)

  Whole-Kept :
      (num : ℤ) (s t : System F)
      → Step F false size num s t
      → Whole size s s.client.phase
      → Kept size t
  unfolding step_in
  Whole-Kept num s t (test stop now e) w =
      inl (answered num s.client _ t e (test-Whole num stop now s t (subst (Whole size s) e w)))
  Whole-Kept num s t (send now e) w = inl (
      answered num s.client _ t e (
        sent-Whole now s.client t refl (
          joined s.to_client s.echo s.to_server (send_buffer size)
          ∙ ap (λ xs. xs ++ send_buffer size) (subst (Whole size s) e w))))
  Whole-Kept num s t (send_part front back now p e b n) w = cc
  Whole-Kept num s t (send_fails now e) w =
      inl (answered num s.client _ t e (unsent-Whole now s.client t (subst (Whole size s) e w)))
  Whole-Kept num s t (server_recv chunk rest e n l z) w =
      inl (moved-Whole s.client.phase s t (rw (e, z) refl) refl w)
  Whole-Kept num s t (server_send n) w =
      inl (moved-Whole s.client.phase s t (append_assoc s.to_client s.echo s.to_server) refl w)
  Whole-Kept num s t (server_send_part front back e n) w =
      dropped-Kept s.client.phase s front back refl e n w
  Whole-Kept num s t (recv total chunk rest now e c n l) w =
      let (whole, so_far) = subst (Whole size s) e w in
      inl (
        answered num s.client _ t e (
          received-Whole total (length chunk) now s.client t (length-pos chunk n)
            (taken s.recv_buffer chunk rest (s.echo ++ s.to_server) c whole)
            (omega (arith, so_far, length-append s.recv_buffer chunk))))

  Step-Kept : (num : ℤ) (s t : System F) → Step F false size num s t → Kept size s → Kept size t
  Step-Kept num s t step (inl w) = Whole-Kept num s t step w
  Step-Kept num s t step (inr h) = inr (Step-Short s t step h)

  pub Steps-Kept : (num : ℤ) {s : System F} → Steps F false size num (connected F) s → Kept size s
  Steps-Kept num here = inl refl
  Steps-Kept num (next {t = u} {u = s} run step) = Step-Kept num u s step (Steps-Kept num run)

-- A client that waits for dropped bytes does not get to its next message.
Short-not_testing : {F : Double} {size : ℕ} {s : System F} → Short size s → s.client.phase ≢ testing
Short-not_testing h e = let w = h.waits in cc

filled :
    {F : Double} {size : ℕ} {num : ℤ} {s t : System F} {total : ℕ}
    → Step F false size num s t
    → s.client.phase ≡ receiving total
    → t.client.phase ≡ testing
    → s.recv_buffer ++ underway s ≡ send_buffer size
    → underway t ≡ []
    → t.recv_buffer ≡ send_buffer size
filled (test stop now e) p q w z = cc
filled (send now e) p q w z = cc
filled (send_part front back now h e b n) p q w z = cc
filled (send_fails now e) p q w z = cc
filled (server_recv chunk rest e n l h) p q w z = cc
filled (server_send n) p q w z = cc
filled (server_send_part front back e n) p q w z = cc
filled {F} {size} {num} {s} (recv total chunk rest now e c n l) p q w z =
    let all = taken s.recv_buffer chunk rest (s.echo ++ s.to_server) c w in
    sym (append-nil (s.recv_buffer ++ chunk))
    ∙ subst (λ xs. (s.recv_buffer ++ chunk) ++ xs ≡ send_buffer size) z all

-- In every state that client and server reach where each `send` of the client takes all of its bytes or
-- none, however the bytes are split on their way and whatever the calls of `send` of the server take:
-- when the client has received a message to its end, this is the message that it has sent, and nothing more
-- is on its way.
pub echo_returns_message :
    {F : Double} {size : ℕ} {num : ℤ} {s t : System F} (total : ℕ)
    → Steps F false size num (connected F) s
    → s.client.phase ≡ receiving total
    → Step F false size num s t
    → t.client.phase ≡ testing
    → (t.recv_buffer ≡ send_buffer size) × (underway t ≡ [])
echo_returns_message {F} {size} {num} {s} {t} total run p step q = elim (Steps-Kept size num run) [
  | inr h ↦ absurd (Short-not_testing (Step-Short s t step h) q)
  | inl w ↦ elim (Whole-Kept size num s t step w) [
    | inr h ↦ absurd (Short-not_testing h q)
    | inl v ↦
        let after = subst (Whole size t) q v in
        let (whole, so_far) = subst (Whole size s) p w in (filled step p q whole after, after)
  ]
]
