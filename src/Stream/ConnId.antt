-- ===== src/Stream/ConnId.antt =====
-- stream/stream.go: `ConnID`, its hash, and the name that the log files of a connection have.
use mysql_replay.Base.{
  ℕ, zero, suc, ◌+◌, ◌*◌, ◌/◌, ◌%◌, ◌^◌, List, [], ◌∷◌, Bytes, ◌≡◌, refl, ap, arith, length,
}
use mysql_replay.Strconv.Hex.{encode_hex}

-- A flow of gopacket: the raw bytes of its two ends, the pattern of its endpoint type, and its reverse.
pub record FlowType (F : Type 0) : Type 0 where
  pub src : F → Bytes
  pub dst : F → Bytes
  pub endpoint_type : F → ℕ
  pub reverse : F → F

-- The documented behaviour of `Flow.Reverse`.
pub record FlowLaws {F : Type 0} (t : FlowType F) : Type 0 where
  pub src-reverse : (f : F) → t.src (t.reverse f) ≡ t.dst f
  pub dst-reverse : (f : F) → t.dst (t.reverse f) ≡ t.src f
  pub endpoint_type-reverse : (f : F) → t.endpoint_type (t.reverse f) ≡ t.endpoint_type f

-- The network flow and the TCP flow.
pub record ConnId (F : Type 0) : Type 0 where
  pub network : F
  pub transport : F

-- `^` on `n` bits.
unfoldable pub xor : ℕ → ℕ → ℕ → ℕ
xor zero a b = 0
xor (suc n) a b = (a + b) % 2 + 2 * xor n (a / 2) (b / 2)

abbrev pub fnv_basis : ℕ
fnv_basis = 14_695_981_039_346_656_037

abbrev pub fnv_prime : ℕ
fnv_prime = 1_099_511_628_211

-- `h ^= x; h *= fnvPrime`
unfoldable pub mixed : ℕ → ℕ → ℕ
unfolding xor
mixed h x = xor 64 h x * fnv_prime % 2 ^ 64

unfoldable pub fnv_chunk : ℕ → Bytes → ℕ
unfolding mixed
fnv_chunk h [] = h
fnv_chunk h (b ∷ s) = fnv_chunk (mixed h b) s

unfoldable pub fnv_hash : ℕ → List Bytes → ℕ
unfolding fnv_chunk
fnv_hash h [] = h
fnv_hash h (s ∷ ss) = fnv_hash (fnv_chunk h s) ss

-- `binary.LittleEndian.PutUint64`, for `n` bytes.
abbrev pub put_uint : ℕ → ℕ → Bytes
put_uint zero x = []
put_uint (suc n) x = x % 256 ∷ put_uint n (x / 256)

module _ {F : Type 0} (t : FlowType F) where
  unfoldable pub reverse_conn : ConnId F → ConnId F
  reverse_conn k = record { network = t.reverse k.network; transport = t.reverse k.transport }

  unfoldable pub hash : ConnId F → ℕ
  unfolding fnv_hash mixed
  hash k =
      let here = fnv_hash fnv_basis (t.src k.network ∷ t.src k.transport ∷ []) in
      let there = fnv_hash fnv_basis (t.dst k.network ∷ t.dst k.transport ∷ []) in
      let both = (here + there) % 2 ^ 64 in
      mixed (mixed both (t.endpoint_type k.network)) (t.endpoint_type k.transport)

  unfoldable pub hash_str : ConnId F → Bytes
  unfolding hash
  hash_str k = encode_hex (put_uint 8 (hash k))

  hash-reverse_conn : FlowLaws t → (k : ConnId F) → hash (reverse_conn k) ≡ hash k
  unfolding hash reverse_conn
  hash-reverse_conn laws k =
      let a = fnv_hash fnv_basis (t.src k.network ∷ t.src k.transport ∷ []) in
      let b = fnv_hash fnv_basis (t.dst k.network ∷ t.dst k.transport ∷ []) in
      let same : (b + a) % 2 ^ 64 ≡ (a + b) % 2 ^ 64 = omega arith in
      rw
        (
          laws.src-reverse k.network,
          laws.src-reverse k.transport,
          laws.dst-reverse k.network,
          laws.dst-reverse k.transport,
          laws.endpoint_type-reverse k.network,
          laws.endpoint_type-reverse k.transport,
        )
        (ap (λ x. mixed (mixed x (t.endpoint_type k.network)) (t.endpoint_type k.transport)) same)

  -- The two directions of a connection have one name, of 16 digits.
  pub hash_str-reverse_conn :
      FlowLaws t
      → (k : ConnId F) → (hash_str (reverse_conn k) ≡ hash_str k) × (length (hash_str k) ≡ 16)
  unfolding hash_str encode_hex
  hash_str-reverse_conn laws k =
      (ap (λ x. encode_hex (put_uint 8 x)) (hash-reverse_conn laws k), refl)
