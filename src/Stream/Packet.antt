-- ===== src/Stream/Packet.antt =====
-- stream/stream.go: the packets that a stream hands to its handler; stream/const.go: the constants.
use mysql_replay.Base.{ℕ, ◌-◌, ◌^◌, Bool, true, false, Bytes}
use mysql_replay.Base.Int.{ℤ}

-- `reassembly.TCPFlowDirection`.
pub data Direction : Type 0 where
  client_to_server server_to_client : Direction

abbrev pub same_dir : Direction → Direction → Bool
same_dir client_to_server client_to_server = true
same_dir server_to_client server_to_client = true
same_dir _ _ = false

-- `time` is in nanoseconds since 1970. The connection, which only names log files, is left out.
pub record MysqlPacket : Type 0 where
  pub time : ℤ
  pub dir : Direction
  pub len : ℕ
  pub seq : ℕ
  pub data_bytes : Bytes

abbrev pub max_packet_size : ℕ
max_packet_size = 2 ^ 24 - 1

abbrev pub handshake_v9 : ℕ
handshake_v9 = 9

abbrev pub handshake_v10 : ℕ
handshake_v10 = 10

abbrev pub com_quit : ℕ
com_quit = 1

abbrev pub com_query : ℕ
com_query = 3

abbrev pub com_stmt_prepare : ℕ
com_stmt_prepare = 22

abbrev pub com_stmt_execute : ℕ
com_stmt_execute = 23

abbrev pub com_stmt_close : ℕ
com_stmt_close = 25

-- The exponents of the capability flags.
abbrev pub client_connect_with_db : ℕ
client_connect_with_db = 3

abbrev pub client_protocol41 : ℕ
client_protocol41 = 9

abbrev pub client_secure_conn : ℕ
client_secure_conn = 15

abbrev pub client_plugin_auth_len_enc_client_data : ℕ
client_plugin_auth_len_enc_client_data = 21
