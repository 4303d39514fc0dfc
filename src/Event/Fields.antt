-- ===== src/Event/Fields.antt =====
-- event/event.go: `nextSep` at a field of the text format.
use mysql_replay.Base.{
  At, At-skip, ℕ, ◌+◌, ◌-◌, true, false, [], ◌∷◌, ◌++◌, append-nil, Option, none, some, ◌≡◌, ◌≢◌,
  refl, ap, arith, Bytes, Lacks, length, length-append, take-length_append, ltb, leb,
}
use mysql_replay.Base.Result.{ok, ◌>>=◌}
use mysql_replay.Event.Scan.{index_byte, next_sep, slice, Field, scan_field}
use mysql_replay.Event.Types.{sep}

-- What may stand behind a field: nothing, or a separator and anything.
pub data Boundary : Bytes → Type 0 where
  at_end : Boundary []
  at_sep : (t : Bytes) → Boundary (sep ∷ t)

pub At-next : {s : Bytes} {pos : ℕ} (t : Bytes) → At s pos (sep ∷ t) → At s (pos + 1) t
At-next t a = At-skip (sep ∷ []) t a

index_byte-append : (w t : Bytes) (b : ℕ) → Lacks b w → index_byte (w ++ b ∷ t) b ≡ some (length w)
unfolding index_byte
index_byte-append [] t b h = ground arith
index_byte-append (c ∷ w) t b h = ground (arith, index_byte-append w t b h.1)

index_byte-Lacks : (w : Bytes) (b : ℕ) → Lacks b w → index_byte w b ≡ none
unfolding index_byte
index_byte-Lacks [] b h = refl
index_byte-Lacks (c ∷ w) b h = ground (arith, index_byte-Lacks w b h.1)

-- The field ends at its boundary; at the end of the text this holds of an empty field too.
pub next_sep-At :
    {s : Bytes} {pos : ℕ} (w t : Bytes)
    → At s pos (w ++ t)
    → Lacks sep w
    → Boundary t
    → next_sep s pos ≡ pos + length w
unfolding next_sep
next_sep-At {s} {pos} w [] a h at_end =
    rw (a.tail, append-nil, index_byte-Lacks w sep h) (ground (arith, a.size, length-append w []))
next_sep-At {s} {pos} w (_ ∷ _) a h (at_sep t) =
    rw (a.tail, index_byte-append w t sep h) (ground (arith, a.size, length-append w (sep ∷ t)))

pub slice-At :
    {E : Type 0} {s : Bytes} {pos : ℕ} (w t : Bytes)
    → At s pos (w ++ t)
    → slice {E = E} s pos (pos + length w) ≡ ok w
unfolding slice
slice-At {E} {s} {pos} w t a =
    let z : pos + length w - pos ≡ length w = omega arith in
    let lo : leb pos (pos + length w) ≡ true = ground arith in
    let hi : leb (pos + length w) (length s) ≡ true = ground (arith, a.size, length-append w t) in
    rw (lo, hi, z, a.tail, take-length_append w t)

-- A field that is there, and is read by its parser, gives its value and its end.
pub scan_field-At :
    {A : Type 0} (parse : Bytes → Option A) (f : Field) {s : Bytes} {pos : ℕ} (w t : Bytes) (v : A)
    → At s pos (w ++ t)
    → Lacks sep w
    → Boundary t
    → w ≢ []
    → parse w ≡ some v
    → scan_field parse f s pos ≡ ok (v, pos + length w)
unfolding scan_field
scan_field-At parse f [] t v a h b ne e = absurd (ne refl)
scan_field-At parse f {s} {pos} (c ∷ w) t v a h b ne e =
    let there : ltb (length s) (pos + 1) ≡ false = ground (arith, a.size) in
    rw (there, next_sep-At (c ∷ w) t a h b, slice-At (c ∷ w) t a, ◌>>=◌, e)
      (ap (λ k. ok (v, k)) (next_sep-At (c ∷ w) t a h b))
