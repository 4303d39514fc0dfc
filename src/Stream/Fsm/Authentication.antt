-- ===== src/Stream/Fsm/Authentication.antt =====
-- stream/mysql.go: `handleHandshakeResponse` at the response of the protocol since 4.1.
use mysql_replay.Base.{
  ℕ, ◌+◌, ◌*◌, ◌^◌, ◌≤◌, ◌<◌, true, false, [], ◌∷◌, ◌++◌, none, some, ◌≡◌, refl, arith, Bytes,
  Lacks, length, le→ltb, length-append, take-length_append, drop-length_append, sym, append-nil,
  ◌∙◌,
}
use mysql_replay.Base.Int.{pos}
use mysql_replay.Base.Result.{ok, panic}
use mysql_replay.Stream.Fsm.Handshake.{
  has_flag, read_schema, to_int, skip_auth_response, handshake41, handle_handshake_response,
}
use mysql_replay.Stream.Fsm.Load.{last, more, no_more, load-found}
use mysql_replay.Stream.Fsm.Machine.{Fsm, handshake1, set, assert_dir}
use mysql_replay.Stream.Packet.{
  MysqlPacket, max_packet_size, client_to_server, client_protocol41, client_connect_with_db,
  client_secure_conn, client_plugin_auth_len_enc_client_data,
}
use mysql_replay.Stream.Reader.Laws.{read_bytes_n-append, read_bytes_nul-append}
use mysql_replay.Stream.Reader.{little_endian, big_endian, read_bytes_n, read_len_enc_uint}

abbrev pub all_flags : ℕ → Bytes → ℕ
all_flags low high = low + 2 ^ 16 * little_endian high

-- The upper half of the flags, the fixed fields and the name of the user, in front of `rest`.
abbrev pub response41 : Bytes → Bytes → Bytes → Bytes → Bytes
response41 high fixed user rest = high ++ (fixed ++ (user ++ 0 ∷ rest))

read_len_enc_uint-eight :
    (size rest : Bytes)
    → length size ≡ 8
    → read_len_enc_uint (0xfe ∷ size ++ rest) ≡ ok (big_endian 0 size, rest)
unfolding read_len_enc_uint
read_len_enc_uint-eight size rest e =
    rw
      (
        sym e,
        le→ltb (length (size ++ rest)) (length size) (omega (arith, length-append size rest)),
        take-length_append size rest,
        drop-length_append size rest,
      )
      refl

-- A size of 2 ^ 63 or more is a negative `int`.
read_bytes_n-negative : (s : Bytes) (n : ℕ) → 2 ^ 63 ≤ n → read_bytes_n s (to_int n) ≡ panic
unfolding read_bytes_n
read_bytes_n-negative s n big = rw (le→ltb n (2 ^ 63) big) refl

module _ (low : ℕ) (m : Fsm) (high fixed user : Bytes) where
  handshake41-skip_auth_response :
      (rest : Bytes)
      → length high ≡ 2
      → length fixed ≡ 28
      → Lacks 0 user
      → handshake41 low m (response41 high fixed user rest)
        ≡ skip_auth_response (all_flags low high) m rest
  unfolding handshake41
  handshake41-skip_auth_response rest h f u =
      rw
        (
          handshake41,
          read_bytes_n-append high (fixed ++ (user ++ 0 ∷ rest)) 2 h,
          read_bytes_n-append fixed (user ++ 0 ∷ rest) 28 f,
          read_bytes_nul-append user rest u,
        )
        refl

  handshake41_database :
      (n : ℕ) (auth db rest : Bytes)
      → length high ≡ 2
      → length fixed ≡ 28
      → Lacks 0 user
      → Lacks 0 db
      → length auth ≡ n
      → has_flag (all_flags low high) client_plugin_auth_len_enc_client_data ≡ false
      → has_flag (all_flags low high) client_secure_conn ≡ true
      → has_flag (all_flags low high) client_connect_with_db ≡ true
      → handshake41 low m (response41 high fixed user (n ∷ auth ++ (db ++ 0 ∷ rest)))
        ≡ some (set (record m { schema = db }) handshake1)
  unfolding skip_auth_response read_schema
  handshake41_database n auth db rest h f u d size small secure with_db =
      let one = read_bytes_n-append (n ∷ []) (auth ++ (db ++ 0 ∷ rest)) 1 refl in
      let value : n + 256 * 0 ≡ n = omega arith in
      rw
        (
          handshake41-skip_auth_response (n ∷ auth ++ (db ++ 0 ∷ rest)) h f u,
          skip_auth_response,
          small,
          secure,
          one,
          value,
          read_bytes_n-append auth (db ++ 0 ∷ rest) n size,
          read_schema,
          with_db,
          read_bytes_nul-append db rest d,
        )
        refl

  handshake41_negative :
      (size rest : Bytes)
      → length high ≡ 2
      → length fixed ≡ 28
      → Lacks 0 user
      → length size ≡ 8
      → 2 ^ 63 ≤ big_endian 0 size
      → has_flag (all_flags low high) client_plugin_auth_len_enc_client_data ≡ true
      → handshake41 low m (response41 high fixed user (0xfe ∷ size ++ rest)) ≡ none
  unfolding skip_auth_response
  handshake41_negative size rest h f u eight big len_enc =
      rw
        (
          handshake41-skip_auth_response (0xfe ∷ size ++ rest) h f u,
          skip_auth_response,
          len_enc,
          read_len_enc_uint-eight size rest eight,
          read_bytes_n-negative rest (big_endian 0 size) big,
        )
        refl

-- A greeting in one packet, and behind it the packet of a response: flags of the protocol since 4.1, fixed
-- fields, the name of the user, and `rest`.
pub record IsResponse41 (m : Fsm) (low high rest : Bytes) : Type 0 where
  pub greeting : MysqlPacket
  pub response : MysqlPacket
  pub fixed : Bytes
  pub user : Bytes
  pub packets : m.packets ≡ greeting ∷ response ∷ []
  pub small_greeting : greeting.len < max_packet_size
  pub small_response : response.len < max_packet_size
  pub from_client : response.dir ≡ client_to_server
  pub low_size : length low ≡ 2
  pub high_size : length high ≡ 2
  pub fixed_size : length fixed ≡ 28
  pub user_name : Lacks 0 user
  pub protocol41 : has_flag (little_endian low) client_protocol41 ≡ true
  pub reads : response.data_bytes ≡ low ++ response41 high fixed user rest

abbrev pub with_response : Fsm → MysqlPacket → Fsm
with_response m r = record m { buffer = r.data_bytes ++ []; start = 1; count = 1 }

module _ (m : Fsm) {low high rest : Bytes} (k : IsResponse41 m low high rest) where
  handle_handshake_response-handshake41 :
      handle_handshake_response m
      ≡ handshake41
          (little_endian low)
          (with_response m k.response)
          (response41 high k.fixed k.user rest)
  unfolding handle_handshake_response assert_dir
  handle_handshake_response-handshake41 =
      let found =
        load-found m [] (more (last k.greeting (λ q. omega (arith, k.small_greeting))) no_more)
          (last k.response (λ q. omega (arith, k.small_response))) k.packets in
      let text = append-nil k.response.data_bytes ∙ k.reads in
      let dir : assert_dir (with_response m k.response) client_to_server ≡ true =
        rw (assert_dir, k.packets, k.from_client) refl in
      let tail = response41 high k.fixed k.user rest in
      let flags : read_bytes_n (k.response.data_bytes ++ []) (pos 2) ≡ ok (low, tail) =
        rw text (read_bytes_n-append low tail 2 k.low_size) in
      rw (found, dir, flags, k.protocol41) refl

  -- A greeting in one packet, and the client's response of the protocol since 4.1 in the next, with an
  -- authentication of the size that one byte tells and a database: the database is kept, and the machine is
  -- at the end of the handshake.
  pub handle_handshake_response_database :
      (n : ℕ) (auth db more_bytes : Bytes)
      → rest ≡ n ∷ auth ++ (db ++ 0 ∷ more_bytes)
      → Lacks 0 db
      → length auth ≡ n
      → has_flag (all_flags (little_endian low) high) client_plugin_auth_len_enc_client_data ≡ false
      → has_flag (all_flags (little_endian low) high) client_secure_conn ≡ true
      → has_flag (all_flags (little_endian low) high) client_connect_with_db ≡ true
      → handle_handshake_response m
        ≡ some (set (record (with_response m k.response) { schema = db }) handshake1)
  handle_handshake_response_database n auth db more_bytes reads d size small secure with_db =
      handle_handshake_response-handshake41
      ∙ rw reads (
          handshake41_database (little_endian low) (with_response m k.response) high k.fixed k.user
            n auth db more_bytes k.high_size k.fixed_size k.user_name d size small secure with_db)

  -- A greeting in one packet, and the client's response of the protocol since 4.1 in the next, with an
  -- authentication that announces 2 ^ 63 bytes or more by a size of eight bytes: a panic.
  pub handle_handshake_response_negative :
      (size more_bytes : Bytes)
      → rest ≡ 0xfe ∷ size ++ more_bytes
      → length size ≡ 8
      → 2 ^ 63 ≤ big_endian 0 size
      → has_flag (all_flags (little_endian low) high) client_plugin_auth_len_enc_client_data ≡ true
      → handle_handshake_response m ≡ none
  handle_handshake_response_negative size more_bytes reads eight big len_enc =
      handle_handshake_response-handshake41
      ∙ rw reads (
          handshake41_negative (little_endian low) (with_response m k.response) high k.fixed k.user
            size more_bytes k.high_size k.fixed_size k.user_name eight big len_enc)
