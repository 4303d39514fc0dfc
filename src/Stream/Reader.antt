-- ===== src/Stream/Reader.antt =====
-- stream/mysql.go: the `read…` helpers. A result is the value and the rest of the data; the error,
-- `ok == false` in the code, carries nothing.
pub mod Laws
pub mod LenEnc
use mysql_replay.Base.{
  ℕ, zero, suc, ◌+◌, ◌*◌, ◌^◌, Bool, true, false, List, [], ◌∷◌, Option, none, some, Bytes, length,
  take, drop, ltb, ◌==◌, if◌then◌else◌,
}
use mysql_replay.Base.Int.{ℤ, pos, negsuc}
use mysql_replay.Base.Result.{Result, ok, err, panic}

-- `ok == false`
abbrev pub Failed : Type 0
Failed = Unit

-- `binary.LittleEndian` of all bytes; `binary.BigEndian` behind `n`.
abbrev pub little_endian : Bytes → ℕ
little_endian [] = 0
little_endian (b ∷ s) = b + 256 * little_endian s

abbrev pub big_endian : ℕ → Bytes → ℕ
big_endian n [] = n
big_endian n (b ∷ s) = big_endian (n * 256 + b) s

unfoldable pub read_uint16 : Bytes → Result Failed (ℕ × Bytes)
read_uint16 s = if ltb (length s) 2 then err tt else ok (little_endian (take 2 s), drop 2 s)

unfoldable pub read_uint32 : Bytes → Result Failed (ℕ × Bytes)
read_uint32 s = if ltb (length s) 4 then err tt else ok (little_endian (take 4 s), drop 4 s)

-- `n` is an `int`: a negative one passes the length test and is a slice out of range.
unfoldable pub read_bytes_n : Bytes → ℤ → Result Failed (Bytes × Bytes)
read_bytes_n s (pos n) = if ltb (length s) n then err tt else ok (take n s, drop n s)
read_bytes_n s (negsuc n) = panic

abbrev consed : ℕ → Result Failed (Bytes × Bytes) → Result Failed (Bytes × Bytes)
consed b (ok (w, s)) = ok (b ∷ w, s)
consed b r = r

unfoldable pub read_bytes_nul : Bytes → Result Failed (Bytes × Bytes)
read_bytes_nul [] = err tt
read_bytes_nul (b ∷ s) = let rest = read_bytes_nul s in if b == 0 then ok ([], s) else consed b rest

-- The byte values are put together from the back, so that the first is the highest.
unfoldable pub read_len_enc_uint : Bytes → Result Failed (ℕ × Bytes)
read_len_enc_uint [] = err tt
read_len_enc_uint (b ∷ s) =
    if ltb b 0xfb
    then ok (b, s)
    else if b == 0xfc
    then (if ltb (length s) 2 then err tt else ok (big_endian 0 (take 2 s), drop 2 s))
    else if b == 0xfd
    then (if ltb (length s) 3 then err tt else ok (big_endian 0 (take 3 s), drop 3 s))
    else if b == 0xfe
    then (if ltb (length s) 8 then err tt else ok (big_endian 0 (take 8 s), drop 8 s))
    else err tt
