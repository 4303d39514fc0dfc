-- ===== src/Stream/Params/Sequence.antt =====
-- stream/mysql.go: `parseExecParams` against a description that has no index and no prepared list.
use mysql_replay.Base.{
  ℕ, zero, suc, ◌+◌, ◌*◌, ◌/◌, ◌%◌, Bool, true, false, List, [], ◌∷◌, ◌++◌, append_assoc, ◌≡◌, ◌∙◌,
  inl, inr, refl, sym, ap, arith, Bytes, length, length-append, drop, set, set-length_append,
  replicate, leb, Bool-cases,
}
use mysql_replay.Base.Result.{Result, ok, err, panic, ◌>>=◌}
use mysql_replay.Event.Types.{Param, nil}
use mysql_replay.Stream.Params.Temporal.{Values, ParseError, malformed_types, Parsed, index}
use mysql_replay.Stream.Params.{has_bit, parse_value, parse_params, parse_exec_params, recovered}

-- One parameter, from the types that are left: nil and no value where it is NULL, and else the value of
-- its own type and sign.
abbrev pub read_param : Bool → Bytes → Values → ℕ → Parsed Param
read_param true types v p = ok (nil, p)
read_param false [] v p = err malformed_types
read_param false (tp ∷ []) v p = err malformed_types
read_param false (tp ∷ flag ∷ types) v p = parse_value tp (has_bit flag 7) v p

-- `k` parameters from number `i` on, one behind the other, from the types that are left and the values
-- from `p` on.
unfoldable pub read_params : ℕ → ℕ → Bytes → Bytes → Values → ℕ → Result ParseError (List Param)
read_params zero i nulls types v p = ok []
read_params (suc k) i nulls types v p = do
  byte ← index nulls (i / 8)
  q ← read_param (has_bit byte (i % 8)) types v p
  rest ← read_params k (i + 1) nulls (drop 2 types) v q.1
  ok (q.0 ∷ rest)

drop-drop : (j : ℕ) (s : Bytes) → drop 2 (drop j s) ≡ drop (suc (suc j)) s
drop-drop zero s = refl
drop-drop (suc j) [] = refl
drop-drop (suc j) (c ∷ s) = drop-drop j s

-- The types behind those of a parameter are those of the next.
drop-round : (i : ℕ) (types : Bytes) → drop 2 (drop (2 * i) types) ≡ drop (2 * (i + 1)) types
drop-round i types =
    let next : suc (suc (2 * i)) ≡ 2 * (i + 1) = omega arith in
    drop-drop (2 * i) types ∙ ap (λ j. drop j types) next

-- Where the code finds no two bytes of type, there are none left.
short_types :
    (j : ℕ) (types : Bytes) (v : Values) (p : ℕ)
    → leb (length types) (suc j) ≡ true
    → read_param false (drop j types) v p ≡ err malformed_types
short_types zero [] v p h = refl
short_types zero (tp ∷ []) v p h = refl
short_types zero (tp ∷ flag ∷ types) v p h = absurd (ground arith)
short_types (suc j) [] v p h = refl
short_types (suc j) (c ∷ types) v p h = short_types j types v p (ground arith)

-- Where it does, they are the next ones.
long_types :
    (j : ℕ) (types : Bytes) (v : Values) (p : ℕ)
    → leb (length types) (suc j) ≡ false
    → (tp : ℕ) × (flag : ℕ) × (index types j ≡ ok tp)
      × (index types (suc j) ≡ ok flag)
      × (read_param false (drop j types) v p ≡ parse_value tp (has_bit flag 7) v p)
long_types zero [] v p h = absurd (ground arith)
long_types zero (tp ∷ []) v p h = absurd (ground arith)
long_types zero (tp ∷ flag ∷ types) v p h = (tp, flag, refl, refl, refl)
long_types (suc j) [] v p h = absurd (ground arith)
long_types (suc j) (c ∷ types) v p h = long_types j types v p (ground arith)

bind_ext :
    {A : Type 0} (m : Result ParseError A) (k l : A → Result ParseError (List Param))
    (h : List Param → Result ParseError (List Param))
    → ((a : A) → k a ≡ (l a >>= h))
    → (m >>= k) ≡ (m >>= l >>= h)
bind_ext (ok a) k l h e = e a
bind_ext (err x) k l h e = refl
bind_ext panic k l h e = refl

-- The parameters that were done, in front.
abbrev behind : List Param → Result ParseError (List Param) → Result ParseError (List Param)
behind done r = r >>= λ rest. ok (done ++ rest)

behind-cons :
    (done : List Param) (q : Param) (r : Result ParseError (List Param))
    → behind (done ++ q ∷ []) r ≡ behind done (r >>= λ rest. ok (q ∷ rest))
behind-cons done q (ok rest) = ap ok (append_assoc done (q ∷ []) rest)
behind-cons done q (err e) = refl
behind-cons done q panic = refl

parse_params-read_params :
    (k i : ℕ) (done : List Param) (nulls types : Bytes) (v : Values) (p : ℕ)
    → i ≡ length done
    → parse_params k i nulls types v p (done ++ replicate k nil)
      ≡ behind done (read_params k i nulls (drop (2 * i) types) v p)
unfolding parse_params read_params
parse_params-read_params zero i done nulls types v p here = refl
parse_params-read_params (suc k) i done nulls types v p here =
    let next : (q : Param) (r : ℕ)
        → parse_params k (i + 1) nulls types v r (done ++ q ∷ replicate k nil)
          ≡ behind done (
              read_params k (i + 1) nulls (drop 2 (drop (2 * i) types)) v r >>= λ rest.
              ok (q ∷ rest)) =
      λ q r.
        rw (drop-round i types, sym (append_assoc done (q ∷ []) (replicate k nil)))
          (parse_params-read_params k (i + 1) (done ++ q ∷ []) nulls types v r
              (omega (arith, here, length-append done (q ∷ [])))
            ∙ behind-cons done q _) in
    let written : (q : Param)
        → set (done ++ nil ∷ replicate k nil) i q ≡ done ++ q ∷ replicate k nil =
      λ q. rw here (set-length_append done nil q (replicate k nil)) in
    let plus : suc (2 * i) ≡ 2 * i + 1 = omega arith in
    bind_ext (index nulls (i / 8)) _ _ _ λ byte. elim (Bool-cases (has_bit byte (i % 8))) [
      | inl b ↦ rw b (next nil p)
      | inr b ↦ elim (Bool-cases (leb (length types) (2 * i + 1))) [
        | inl c ↦ rw (b, c, short_types (2 * i) types v p (rw plus c)) refl
        | inr c ↦
            let (tp, flag, is_tp, is_next, read) = long_types (2 * i) types v p (rw plus c) in
            let is_flag : index types (2 * i + 1) ≡ ok flag =
              ap (index types) (sym plus) ∙ is_next in
            rw (b, c, is_tp, is_flag, read)
              (bind_ext (parse_value tp (has_bit flag 7) v p) _ _ _
                λ r. rw (written r.0) (next r.0 r.1))
      ]
    ]

-- For any bytes, `parseExecParams` returns the parameters in their order, each nil where its bit of the
-- bitmap is set, and else read by the two bytes of its own type, from where the value before it ends; and the
-- error of the first parameter that cannot be read, a panic turned into one.
pub parse_exec_params-read_params :
    (n : ℕ) (nulls types : Bytes) (v : Values)
    → parse_exec_params n nulls types v ≡ recovered (read_params n 0 nulls types v 0)
unfolding parse_exec_params
parse_exec_params-read_params n nulls types v =
    rw (parse_params-read_params n 0 [] nulls types v 0 refl) (recovered-behind _)
  where
    recovered-behind : (r : Result ParseError (List Param)) → recovered (behind [] r) ≡ recovered r
    recovered-behind (ok out) = refl
    recovered-behind (err e) = refl
    recovered-behind panic = refl
