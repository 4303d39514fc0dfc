-- ===== src/Stream/Tests/ConnId.antt =====
-- A connection at which the theorem on the hash is applied.
use mysql_replay.Base.{◌≡◌, refl, [], ◌∷◌, Bytes, length}
use mysql_replay.Stream.ConnId.{
  FlowType, FlowLaws, ConnId, reverse_conn, hash_str, hash_str-reverse_conn,
}

-- A flow as its two ends.
abbrev pair_flow : FlowType (Bytes × Bytes)
pair_flow = record {
  src = λ f. f.0;
  dst = λ f. f.1;
  endpoint_type = λ f. 1;
  reverse = λ f. (f.1, f.0);
}

pair_flow-FlowLaws : FlowLaws pair_flow
pair_flow-FlowLaws = record {
  src-reverse = λ f. refl;
  dst-reverse = λ f. refl;
  endpoint_type-reverse = λ f. refl;
}

abbrev connection : ConnId (Bytes × Bytes)
connection = record {
  network = (127 ∷ 0 ∷ 0 ∷ 1 ∷ [], 10 ∷ 0 ∷ 0 ∷ 2 ∷ []);
  transport = (200 ∷ 1 ∷ [], 12 ∷ 234 ∷ []);
}

hash_str-reverse_conn_example :
    (hash_str pair_flow (reverse_conn pair_flow connection) ≡ hash_str pair_flow connection)
    × (length (hash_str pair_flow connection) ≡ 16)
hash_str-reverse_conn_example = hash_str-reverse_conn pair_flow pair_flow-FlowLaws connection
