-- ===== src/Network/Echo.antt =====
-- src/network_io_benchmarker_cpp.cpp: a TCP client and the server that echoes its messages, over one
-- connection that stays up. Each `send` and each `recv` is one step, and the steps interleave in any
-- order. The connection is two queues of bytes.
pub mod Short
pub mod Message
pub mod Lost
use context_switching.Prelude.{
  ℕ, ◌+◌, ◌-◌, ◌%◌, ◌≤◌, ◌<◌, ◌≡◌, ◌≢◌, Bool, true, false, List, [], ◌∷◌, ◌++◌, map, length,
}
use context_switching.Prelude.Int.{ℤ, pos, negsuc, pos_part}
use context_switching.Prelude.Double.{Double}
use context_switching.Prelude.Occurrences.{iota}
use context_switching.Network.Statistics.{unused}
use context_switching.Network.Client.{
  tcp, sending, receiving, testing, tested, sent, received, Client, new_client, step,
}

-- The bytes that `std::iota` writes.
abbrev pub send_buffer : ℕ → List ℕ
send_buffer message_size = map (λ i. i % 256) (iota 0 message_size)

-- The size of the buffer of the server.
abbrev pub server_buffer : ℕ
server_buffer = 65536

module _ (F : Double) where
  pub record System : Type 0 where
    pub client : Client F
    pub to_server : List ℕ
    pub echo : List ℕ  -- what the server has received and not yet sent
    pub to_client : List ℕ
    pub recv_buffer : List ℕ  -- what is received of the message at hand

  -- `part` says whether a `send` of the client may take a part of its bytes.
  pub data Step (part : Bool) (size : ℕ) (num : ℤ) (s : System) : System → Type 0 where
    test :
        (stop : Bool) (now : F.Num)
        → s.client.phase ≡ testing
        → Step part size num s
            (record s { client = step F tcp size num s.client (tested stop now) })
    send :
        (now : F.Num)
        → s.client.phase ≡ sending
        → Step part size num s (record s {
          client = step F tcp size num s.client (sent (pos size) now);
          to_server = s.to_server ++ send_buffer size;
          recv_buffer = [];
        })
    send_part :
        (front back : List ℕ) (now : F.Num)
        → part ≡ true
        → s.client.phase ≡ sending
        → send_buffer size ≡ front ++ back
        → back ≢ []
        → Step part size num s (record s {
          client = step F tcp size num s.client (sent (pos (length front)) now);
          to_server = s.to_server ++ front;
        })
    send_fails :
        (now : F.Num)
        → s.client.phase ≡ sending
        → Step part size num s
            (record s { client = step F tcp size num s.client (sent (negsuc 0) now) })
    server_recv :
        (chunk rest : List ℕ)
        → s.to_server ≡ chunk ++ rest
        → chunk ≢ []
        → length chunk ≤ server_buffer
        → s.echo ≡ []
        → Step part size num s (record s { echo = chunk; to_server = rest })
    server_send :
        s.echo ≢ []
        → Step part size num s (record s { echo = []; to_client = s.to_client ++ s.echo })
    -- What a `send` of the server does not take is not sent later: a part, or all where it fails.
    server_send_part :
        (front back : List ℕ)
        → s.echo ≡ front ++ back
        → back ≢ []
        → Step part size num s (record s { echo = []; to_client = s.to_client ++ front })
    recv :
        (total : ℕ) (chunk rest : List ℕ) (now : F.Num)
        → s.client.phase ≡ receiving total
        → s.to_client ≡ chunk ++ rest
        → chunk ≢ []
        → total + length chunk ≤ size
        → Step part size num s (record s {
          client = step F tcp size num s.client (received (pos (length chunk)) now);
          to_client = rest;
          recv_buffer = s.recv_buffer ++ chunk;
        })

  abbrev pub connected : System
  connected = record {
    client = new_client F (unused F);
    to_server = [];
    echo = [];
    to_client = [];
    recv_buffer = [];
  }

  pub data Steps (part : Bool) (size : ℕ) (num : ℤ) (s : System) : System → Type 0 where
    here : Steps part size num s s
    next :
        {t u : System} → Steps part size num s t → Step part size num t u → Steps part size num s u
