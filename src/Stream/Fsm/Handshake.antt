-- ===== src/Stream/Fsm/Handshake.antt =====
-- stream/mysql.go: `handleHandshakeResponse`. The flags are a number; a flag is tested by its bit.
use mysql_replay.Base.{
  ℕ, ◌+◌, ◌*◌, Bool, not, Option, some, Bytes, if◌then◌else◌, ◌==◌, ◌/◌, ◌%◌, ◌^◌,
}
use mysql_replay.Base.Int.{ℤ, pos, signed}
use mysql_replay.Stream.Fsm.Machine.{Fsm, unknown, handshake1, set, load, assert_dir, attempt}
use mysql_replay.Stream.Packet.{
  client_to_server, client_connect_with_db, client_protocol41, client_secure_conn,
  client_plugin_auth_len_enc_client_data,
}
use mysql_replay.Stream.Reader.{little_endian, read_bytes_n, read_bytes_nul, read_len_enc_uint}

abbrev pub has_flag : ℕ → ℕ → Bool
has_flag flags k = flags / 2 ^ k % 2 == 1

-- The database, where the flags announce one; the rest of the data is not read.
unfoldable pub read_schema : ℕ → Fsm → Bytes → Option Fsm
read_schema flags m s =
    if has_flag flags client_connect_with_db
    then attempt m (read_bytes_nul s) (λ db. some (set (record m { schema = db.0 }) handshake1))
    else some (set m handshake1)

-- `int(n)` of a `uint64`.
abbrev pub to_int : ℕ → ℤ
to_int = signed 64

unfoldable pub skip_auth_response : ℕ → Fsm → Bytes → Option Fsm
skip_auth_response flags m s =
    if has_flag flags client_plugin_auth_len_enc_client_data
    then attempt m (read_len_enc_uint s)
        (λ n. attempt m (read_bytes_n n.1 (to_int n.0)) λ r. read_schema flags m r.1)
    else if has_flag flags client_secure_conn
    then attempt m (read_bytes_n s (pos 1))
        (λ n. attempt m (read_bytes_n n.1 (pos (little_endian n.0))) λ r. read_schema flags m r.1)
    else attempt m (read_bytes_nul s) (λ r. read_schema flags m r.1)

-- The protocol since 4.1; `low` is the lower half of the flags.
unfoldable pub handshake41 : ℕ → Fsm → Bytes → Option Fsm
unfolding skip_auth_response read_schema
handshake41 low m s = attempt m (read_bytes_n s (pos 2)) λ high.
    let flags = low + 2 ^ 16 * little_endian high.0 in
    attempt m (read_bytes_n high.1 (pos 28))
      λ fixed. attempt m (read_bytes_nul fixed.1) λ user. skip_auth_response flags m user.1

unfoldable pub handshake320 : ℕ → Fsm → Bytes → Option Fsm
unfolding read_schema
handshake320 flags m s = attempt m (read_bytes_n s (pos 3)) λ size.
    attempt m (read_bytes_nul size.1) λ user.
      if has_flag flags client_connect_with_db
      then attempt m (read_bytes_nul user.1) (λ auth. read_schema flags m auth.1)
      else some (set m handshake1)

unfoldable pub handle_handshake_response : Fsm → Option Fsm
unfolding handshake41 handshake320
handle_handshake_response m =
    let (m', loaded) = load 1 m in
    if not loaded
    then some (set m' unknown)
    else if not (assert_dir m' client_to_server)
    then some (set m' unknown)
    else attempt m' (read_bytes_n m'.buffer (pos 2)) (λ low.
      let flags = little_endian low.0 in
      if has_flag flags client_protocol41
      then handshake41 flags m' low.1
      else handshake320 flags m' low.1)
