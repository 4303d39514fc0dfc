-- ===== src/Stream/Reassembly/Reads.antt =====
-- stream/stream.go: a run of bytes as the packets it carries, and the bytes that are left.
use mysql_replay.Base.{
  ℕ, suc, zero, ◌+◌, ◌/◌, ◌%◌, ◌≤◌, ◌<◌, List, [], ◌∷◌, ◌++◌, some, Bytes, false, ◌≡◌, ◌⊎◌, inl,
  inr, refl, sym, ap, ◌∙◌, arith, length, take, drop, get_elem?, ltb, length-append, append_assoc,
  All, drop-length_append, take-length_append,
}
use mysql_replay.Stream.Packet.{MysqlPacket}
use mysql_replay.Stream.Reassembly.{lookup_packet_len, lookup_packet_seq}

-- What the stream reads off the bytes for a packet: its size, number and data.
pub record Frame : Type 0 where
  pub len : ℕ
  pub seq : ℕ
  pub payload : Bytes

abbrev pub frame : MysqlPacket → Frame
frame p = record { len = p.len; seq = p.seq; payload = p.data_bytes }

-- The bytes start with the packet `f`, whole.
pub record Starts (f : Frame) (w : Bytes) : Type 0 where
  pub size : lookup_packet_len w ≡ some f.len
  pub number : lookup_packet_seq w ≡ some f.seq
  pub whole : f.len + 4 ≤ length w
  pub content : f.payload ≡ drop 4 (take (f.len + 4) w)

-- The bytes `w` are the packets `fs`, with `r` left.
abbrev pub Reads : List Frame → Bytes → Bytes → Type 0
Reads [] w r = w ≡ r
Reads (f ∷ fs) w r = Starts f w × Reads fs (drop (f.len + 4) w) r

-- The start of a packet only.
abbrev pub IsPart : Bytes → Type 0
IsPart r = (length r < 4) ⊎ ((n : ℕ) × (lookup_packet_len r ≡ some n) × (length r < n + 4))

module _ {ℓ} {A : Type ℓ} where
  pub take-append_le : (n : ℕ) (xs ys : List A) → n ≤ length xs → take n (xs ++ ys) ≡ take n xs
  take-append_le zero xs ys h = refl
  take-append_le (suc n) [] ys h = absurd (omega arith)
  take-append_le (suc n) (x ∷ xs) ys h = ap (◌∷◌ x) (take-append_le n xs ys (omega arith))

  pub drop-append_le :
      (n : ℕ) (xs ys : List A) → n ≤ length xs → drop n (xs ++ ys) ≡ drop n xs ++ ys
  drop-append_le zero xs ys h = refl
  drop-append_le (suc n) [] ys h = absurd (omega arith)
  drop-append_le (suc n) (x ∷ xs) ys h = drop-append_le n xs ys (omega arith)

  pub get_elem?-append :
      (xs ys : List A) (n : ℕ) (x : A) → get_elem? xs n ≡ some x → get_elem? (xs ++ ys) n ≡ some x
  get_elem?-append [] ys n x h = cc
  get_elem?-append (y ∷ xs) ys zero x h = h
  get_elem?-append (y ∷ xs) ys (suc n) x h = get_elem?-append xs ys n x h

  pub get_elem?_lt : (xs : List A) (n : ℕ) (x : A) → get_elem? xs n ≡ some x → n < length xs
  get_elem?_lt [] n x h = cc
  get_elem?_lt (y ∷ xs) zero x h = omega arith
  get_elem?_lt (y ∷ xs) (suc n) x h = omega (arith, get_elem?_lt xs n x h)

pub lookup_packet_len-append :
    (w x : Bytes) (n : ℕ) → lookup_packet_len w ≡ some n → lookup_packet_len (w ++ x) ≡ some n
unfolding lookup_packet_len
lookup_packet_len-append [] x n h = cc
lookup_packet_len-append (a ∷ []) x n h = cc
lookup_packet_len-append (a ∷ b ∷ []) x n h = cc
lookup_packet_len-append (a ∷ b ∷ c ∷ w) x n h =
    let long : ltb (length (a ∷ b ∷ c ∷ w)) 3 ≡ false = ground arith in
    let longer : ltb (length (a ∷ b ∷ c ∷ (w ++ x))) 3 ≡ false = ground arith in
    rw longer (rw long at h)

pub lookup_packet_seq-append :
    (w x : Bytes) (q : ℕ) → lookup_packet_seq w ≡ some q → lookup_packet_seq (w ++ x) ≡ some q
unfolding lookup_packet_seq
lookup_packet_seq-append w x q h = get_elem?-append w x 3 q h

Starts-append : (f : Frame) (w x : Bytes) → Starts f w → Starts f (w ++ x)
Starts-append f w x s = record {
  size = lookup_packet_len-append w x f.len s.size;
  number = lookup_packet_seq-append w x f.seq s.number;
  whole = omega (arith, s.whole, length-append w x);
  content = rw (take-append_le (f.len + 4) w x s.whole) s.content;
}

-- What is left, with more bytes behind it, is read on.
pub Reads-append :
    (fs gs : List Frame) (w r x r2 : Bytes)
    → Reads fs w r
    → Reads gs (r ++ x) r2
    → Reads (fs ++ gs) (w ++ x) r2
Reads-append [] gs w r x r2 h k = rw h k
Reads-append (f ∷ fs) gs w r x r2 (s, h) k = (
  Starts-append f w x s,
  rw (drop-append_le (f.len + 4) w x s.whole) (Reads-append fs gs (drop (f.len + 4) w) r x r2 h k),
)

-- Two readings that leave a part only are the same.
part_is_no_start : (f : Frame) (r : Bytes) → Starts f r → IsPart r → ⊥
part_is_no_start f r s (inl h) = omega (arith, s.whole)
part_is_no_start f r s (inr (n, e, h)) =
    let same : n ≡ f.len = cc (e, s.size) in omega (arith, s.whole, same)

abbrev made : ℕ → ℕ → Bytes → Frame
made n q w = record { len = n; seq = q; payload = w }

frame_eq : (m n p q : ℕ) (v w : Bytes) → m ≡ n → p ≡ q → v ≡ w → made m p v ≡ made n q w
frame_eq m n p q v w e f g = cc

Starts-unique : (f g : Frame) (w : Bytes) → Starts f w → Starts g w → f ≡ g
Starts-unique f g w s t =
    let len_same : f.len ≡ g.len = cc (s.size, t.size) in
    let seq_same : f.seq ≡ g.seq = cc (s.number, t.number) in
    let payload_same : f.payload ≡ g.payload = rw (s.content, t.content, len_same) refl in
    frame_eq f.len g.len f.seq g.seq f.payload g.payload len_same seq_same payload_same

pub Reads-unique :
    (fs gs : List Frame) (w r r2 : Bytes)
    → IsPart r
    → IsPart r2
    → Reads fs w r
    → Reads gs w r2
    → fs ≡ gs
Reads-unique [] [] w r r2 p p2 h k = refl
Reads-unique [] (g ∷ gs) w r r2 p p2 h (s, k) = absurd (part_is_no_start g r (rw (sym h) s) p)
Reads-unique (f ∷ fs) [] w r r2 p p2 (s, h) k = absurd (part_is_no_start f r2 (rw (sym k) s) p2)
Reads-unique (f ∷ fs) (g ∷ gs) w r r2 p p2 (s, h) (t, k) =
    let same = Starts-unique f g w s t in
    rw same (ap (◌∷◌ g) (Reads-unique fs gs (drop (f.len + 4) w) r r2 p p2 h (rw same k)))

-- The protocol: three bytes of size, the number, the data.
abbrev pub encoded : Frame → Bytes
encoded f = f.len % 256 ∷ f.len / 256 % 256 ∷ f.len / 65536 ∷ f.seq ∷ f.payload

abbrev pub encoded_all : List Frame → Bytes
encoded_all [] = []
encoded_all (f ∷ fs) = encoded f ++ encoded_all fs

abbrev pub IsWhole : Frame → Type 0
IsWhole f = length f.payload ≡ f.len

-- A whole packet stands in front of what follows its bytes.
Starts-encoded : (f : Frame) (r : Bytes) → IsWhole f → Starts f (encoded f ++ r)
unfolding lookup_packet_len lookup_packet_seq
Starts-encoded f r h =
    let long : ltb (length (encoded f ++ r)) 3 ≡ false = ground arith in
    let four : f.len + 4 ≡ suc (suc (suc (suc f.len))) = omega arith in
    record {
      size = rw long (ap some (omega arith));
      number = refl;
      whole = omega (arith, h, length-append f.payload r);
      content =
          rw four
            (sym (ap (λ n. take n (f.payload ++ r)) (sym h) ∙ take-length_append f.payload r));
    }

pub Reads-encoded_all :
    (fs : List Frame) (r : Bytes) → All IsWhole fs → Reads fs (encoded_all fs ++ r) r
Reads-encoded_all [] r h = refl
Reads-encoded_all (f ∷ fs) r (h, hs) =
    let next = encoded_all fs ++ r in
    let behind : drop (f.len + 4) (encoded f ++ next) ≡ next =
      let size_of : f.len + 4 ≡ length (encoded f) = omega (arith, h) in
      rw (size_of) (drop-length_append (encoded f) next) in
    rw (append_assoc (encoded f) (encoded_all fs) r)
      (Starts-encoded f next h, rw behind (Reads-encoded_all fs r hs))

pub Reads-more :
    (fs gs : List Frame) (w r r2 : Bytes) → Reads fs w r → Reads gs r r2 → Reads (fs ++ gs) w r2
Reads-more [] gs w r r2 h k = rw h k
Reads-more (f ∷ fs) gs w r r2 (s, h) k = (s, Reads-more fs gs (drop (f.len + 4) w) r r2 h k)
