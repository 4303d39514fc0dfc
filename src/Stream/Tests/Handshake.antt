-- ===== src/Stream/Tests/Handshake.antt =====
-- Handshakes at which the theorems on `handleHandshakeResponse` are applied.
use mysql_replay.Base.{ℕ, ◌≡◌, refl, arith, [], ◌∷◌, ◌++◌, none, some, Bytes, codes, replicate}
use mysql_replay.Base.Int.{pos}
use mysql_replay.Stream.Fsm.Authentication.{
  IsResponse41, response41, with_response, handle_handshake_response_database,
  handle_handshake_response_negative,
}
use mysql_replay.Stream.Fsm.Handshake.{handle_handshake_response}
use mysql_replay.Stream.Fsm.Machine.{Fsm, new_mysql_fsm, handshake0, handshake1, set}
use mysql_replay.Stream.Packet.{MysqlPacket, server_to_client, client_to_server}

abbrev greeting_packet : MysqlPacket
greeting_packet = record {
  time = pos 0;
  dir = server_to_client;
  len = 6;
  seq = 0;
  data_bytes = 10 ∷ codes "8.0.1";
}

-- Flags of a database, the protocol since 4.1 and a secure connection.
abbrev low_flags : Bytes
low_flags = 0x08 ∷ 0x82 ∷ []

abbrev answer : Bytes → Bytes → MysqlPacket
answer high rest = record {
  time = pos 0;
  dir = client_to_server;
  len = 60;
  seq = 1;
  data_bytes = low_flags ++ response41 high (replicate 28 0) (codes "root") rest;
}

abbrev waiting : Bytes → Bytes → Fsm
waiting high rest = record new_mysql_fsm {
  state = handshake0;
  packets = greeting_packet ∷ answer high rest ∷ [];
}

abbrev waiting_response :
    (a b : ℕ) (rest : Bytes) → IsResponse41 (waiting (a ∷ b ∷ []) rest) low_flags (a ∷ b ∷ []) rest
waiting_response a b rest = record {
  greeting = greeting_packet;
  response = answer (a ∷ b ∷ []) rest;
  fixed = replicate 28 0;
  user = codes "root";
  packets = refl;
  small_greeting = omega arith;
  small_response = omega arith;
  from_client = refl;
  low_size = refl;
  high_size = refl;
  fixed_size = refl;
  user_name = (omega arith, (omega arith, (omega arith, (omega arith, tt))));
  protocol41 = refl;
  reads = refl;
}

-- An authentication of two bytes, and the database.
abbrev database_rest : Bytes
database_rest = 2 ∷ 77 ∷ 78 ∷ codes "db" ++ 0 ∷ []

handle_handshake_response_database_example :
    handle_handshake_response (waiting (0 ∷ 0 ∷ []) database_rest)
    ≡ some (
        set
          (record (with_response
            (waiting (0 ∷ 0 ∷ []) database_rest)
            (answer (0 ∷ 0 ∷ []) database_rest)) { schema = codes "db" })
          handshake1)
handle_handshake_response_database_example =
    handle_handshake_response_database (waiting (0 ∷ 0 ∷ []) database_rest)
      (waiting_response 0 0 database_rest) 2 (77 ∷ 78 ∷ []) (codes "db") [] refl
      (omega arith, (omega arith, tt)) refl refl refl refl

abbrev huge_size : Bytes
huge_size = 128 ∷ 0 ∷ 0 ∷ 0 ∷ 0 ∷ 0 ∷ 0 ∷ 0 ∷ []

handle_handshake_response_negative_example :
    handle_handshake_response (waiting (0x20 ∷ 0 ∷ []) (0xfe ∷ huge_size ++ [])) ≡ none
handle_handshake_response_negative_example =
    handle_handshake_response_negative (waiting (0x20 ∷ 0 ∷ []) (0xfe ∷ huge_size ++ []))
      (waiting_response 0x20 0 (0xfe ∷ huge_size ++ [])) huge_size [] refl refl (omega arith) refl
