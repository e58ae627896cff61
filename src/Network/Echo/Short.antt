-- ===== src/Network/Echo/Short.antt =====
-- src/network_io_benchmarker_cpp.cpp: a client that waits for bytes of which a `send` of the server has
-- not taken all.
use context_switching.Prelude.{
  ℕ, ◌+◌, ◌<◌, ◌≡◌, ◌≢◌, refl, ap, subst⁻¹, Bool, List, [], ◌∷◌, length, length-append, arith,
}
use context_switching.Prelude.Int.{ℤ, pos}
use context_switching.Prelude.Double.{Double}
use context_switching.Network.Client.{
  tcp, receiving, received, Client, step, step_in, after_recv, wait_for,
}
use context_switching.Network.Echo.{
  System, Step, test, send, send_part, send_fails, server_recv, server_send, server_send_part, recv,
  Steps, here, next,
}

pub length-pos : (xs : List ℕ) → xs ≢ [] → 0 < length xs
length-pos [] h = absurd (h refl)
length-pos (x ∷ xs) h = omega arith

-- The client waits for more bytes than are on their way.
pub record Short {F : Double} (size : ℕ) (s : System F) : Type 0 where
  pub total : ℕ
  pub waits : s.client.phase ≡ receiving total
  pub missing : total + (length s.to_client + length s.echo + length s.to_server) < size

waiting-phase :
    {F : Double} (size total n : ℕ) (num : ℤ) (now : F.Num) (c : Client F)
    → c.phase ≡ receiving total
    → 0 < n
    → total + n < size
    → (step F tcp size num c (received (pos n) now)).phase ≡ receiving (total + n)
unfolding step_in after_recv wait_for
waiting-phase {F} size total n num now c e h l =
    subst⁻¹ (λ q. (step_in F tcp size num q (received (pos n) now) c).phase ≡ receiving (total + n))
      e (ground (arith, h, l))

module _ {F : Double} {part : Bool} {size : ℕ} {num : ℤ} where
  pub Step-Short : (s t : System F) → Step F part size num s t → Short size s → Short size t
  Step-Short s t (test stop now e) h = let w = h.waits in cc
  Step-Short s t (send now e) h = let w = h.waits in cc
  Step-Short s t (send_part front back now p e b n) h = let w = h.waits in cc
  Step-Short s t (send_fails now e) h = let w = h.waits in cc
  Step-Short s t (server_recv chunk rest e n l z) h = record {
    total = h.total;
    waits = h.waits;
    missing = omega (arith, h.missing, ap length e, ap length z, length-append chunk rest);
  }
  Step-Short s t (server_send n) h = record {
    total = h.total;
    waits = h.waits;
    missing = omega (arith, h.missing, length-append s.to_client s.echo);
  }
  Step-Short s t (server_send_part front back e n) h = record {
    total = h.total;
    waits = h.waits;
    missing =
        omega (
          arith,
          h.missing,
          ap length e,
          length-append front back,
          length-append s.to_client front,
        );
  }
  Step-Short s t (recv total chunk rest now e c n l) h =
      let w = h.waits in
      let same : h.total ≡ total = cc in
      let fewer = ap length c in
      record {
        total = total + length chunk;
        waits =
            waiting-phase size total (length chunk) num now s.client e (length-pos chunk n)
              (omega (arith, h.missing, same, fewer, length-append chunk rest));
        missing = omega (arith, h.missing, same, fewer, length-append chunk rest);
      }

  pub Steps-Short : (s t : System F) → Steps F part size num s t → Short size s → Short size t
  Steps-Short s t here h = h
  Steps-Short s t (next {t = u} run k) h = Step-Short u t k (Steps-Short s u run h)
