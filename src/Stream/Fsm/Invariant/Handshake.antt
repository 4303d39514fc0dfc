-- ===== src/Stream/Fsm/Invariant/Handshake.antt =====
-- stream/mysql.go: `handleHandshakeResponse` and the invariant.
use mysql_replay.Base.{ℕ, ◌+◌, ◌*◌, ◌^◌, Bytes, not}
use mysql_replay.Base.Int.{pos}
use mysql_replay.Stream.Fsm.Handshake.{
  has_flag, read_schema, skip_auth_response, handshake41, handshake320, handle_handshake_response,
  to_int,
}
use mysql_replay.Stream.Fsm.Invariant.{
  Core, Keeps, attempt-Keeps, if-Keeps, load-Core, handshake1-IsValid, unknown-IsValid,
}
use mysql_replay.Stream.Fsm.Machine.{Fsm, load, assert_dir}
use mysql_replay.Stream.Packet.{
  client_to_server, client_connect_with_db, client_protocol41, client_secure_conn,
  client_plugin_auth_len_enc_client_data,
}
use mysql_replay.Stream.Reader.{little_endian, read_bytes_n, read_bytes_nul, read_len_enc_uint}

read_schema-Keeps : (flags : ℕ) (m : Fsm) (s : Bytes) → Core m → Keeps (read_schema flags m s)
unfolding read_schema
read_schema-Keeps flags m s c =
    if-Keeps (has_flag flags client_connect_with_db) _ _
      (attempt-Keeps m (read_bytes_nul s) _ c λ db.
        handshake1-IsValid (record m { schema = db.0 })
          (record { numbered = c.numbered; table = c.table }))
      (handshake1-IsValid m c)

skip_auth_response-Keeps :
    (flags : ℕ) (m : Fsm) (s : Bytes) → Core m → Keeps (skip_auth_response flags m s)
unfolding skip_auth_response
skip_auth_response-Keeps flags m s c =
    if-Keeps (has_flag flags client_plugin_auth_len_enc_client_data) _ _
      (attempt-Keeps m (read_len_enc_uint s) _ c λ n.
        attempt-Keeps m (read_bytes_n n.1 (to_int n.0)) _ c λ r. read_schema-Keeps flags m r.1 c)
      (if-Keeps (has_flag flags client_secure_conn) _ _
        (attempt-Keeps m (read_bytes_n s (pos 1)) _ c λ n.
          attempt-Keeps m (read_bytes_n n.1 (pos (little_endian n.0))) _ c
            λ r. read_schema-Keeps flags m r.1 c)
        (attempt-Keeps m (read_bytes_nul s) _ c λ r. read_schema-Keeps flags m r.1 c))

handshake41-Keeps : (low : ℕ) (m : Fsm) (s : Bytes) → Core m → Keeps (handshake41 low m s)
unfolding handshake41
handshake41-Keeps low m s c = attempt-Keeps m (read_bytes_n s (pos 2)) _ c λ high.
    attempt-Keeps m (read_bytes_n high.1 (pos 28)) _ c λ fixed.
      attempt-Keeps m (read_bytes_nul fixed.1) _ c
        λ user. skip_auth_response-Keeps (low + 2 ^ 16 * little_endian high.0) m user.1 c

handshake320-Keeps : (flags : ℕ) (m : Fsm) (s : Bytes) → Core m → Keeps (handshake320 flags m s)
unfolding handshake320
handshake320-Keeps flags m s c = attempt-Keeps m (read_bytes_n s (pos 3)) _ c λ size.
    attempt-Keeps m (read_bytes_nul size.1) _ c λ user.
      if-Keeps (has_flag flags client_connect_with_db) _ _
        (attempt-Keeps m (read_bytes_nul user.1) _ c λ auth. read_schema-Keeps flags m auth.1 c)
        (handshake1-IsValid m c)

pub handle_handshake_response-Keeps : (m : Fsm) → Core m → Keeps (handle_handshake_response m)
unfolding handle_handshake_response
handle_handshake_response-Keeps m old =
    let c = load-Core 1 m old in
    let m' = (load 1 m).0 in
    if-Keeps (not (load 1 m).1) _ _ (unknown-IsValid m' c) (
      if-Keeps (not (assert_dir m' client_to_server)) _ _ (unknown-IsValid m' c) (
        attempt-Keeps m' (read_bytes_n m'.buffer (pos 2)) _ c λ low.
          if-Keeps (has_flag (little_endian low.0) client_protocol41) _ _
            (handshake41-Keeps (little_endian low.0) m' low.1 c)
            (handshake320-Keeps (little_endian low.0) m' low.1 c)))
