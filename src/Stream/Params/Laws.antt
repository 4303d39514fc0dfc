-- ===== src/Stream/Params/Laws.antt =====
-- stream/mysql.go: the number of values of `parseExecParams`.
use mysql_replay.Base.{
  ℕ, zero, suc, ◌+◌, ◌*◌, ◌/◌, ◌%◌, List, ◌≡◌, inl, inr, refl, Bytes, length, set, replicate,
  length-replicate, length-set, leb, Bool-cases,
}
use mysql_replay.Base.Result.{Result, ok, err, panic, ◌>>=◌}
use mysql_replay.Event.Types.{Param, nil}
use mysql_replay.Stream.Params.Temporal.{Values, ParseError, index}
use mysql_replay.Stream.Params.{has_bit, parse_value, parse_params, parse_exec_params, recovered}

-- `n` values, if any.
abbrev Sized : ℕ → Result ParseError (List Param) → Type 0
Sized n (ok out) = length out ≡ n
Sized n (err e) = Unit
Sized n panic = Unit

bind-Sized :
    {A : Type 0} (n : ℕ) (m : Result ParseError A) (k : A → Result ParseError (List Param))
    → ((a : A) → Sized n (k a))
    → Sized n (m >>= k)
bind-Sized n (ok a) k h = h a
bind-Sized n (err e) k h = tt
bind-Sized n panic k h = tt

parse_params-Sized :
    (k i : ℕ) (nulls types : Bytes) (v : Values) (p : ℕ) (params : List Param)
    → Sized (length params) (parse_params k i nulls types v p params)
unfolding parse_params
parse_params-Sized zero i nulls types v p params = refl
parse_params-Sized (suc k) i nulls types v p params =
    bind-Sized (length params) (index nulls (i / 8)) _ λ byte.
      elim (Bool-cases (has_bit byte (i % 8))) [
        | inl b ↦ rw b (parse_params-Sized k (i + 1) nulls types v p params)
        | inr b ↦ rw b (elim (Bool-cases (leb (length types) (2 * i + 1))) [
          | inl c ↦ rw c tt
          | inr c ↦ rw c (
              bind-Sized (length params) (index types (2 * i)) _ λ tp.
                bind-Sized (length params) (index types (2 * i + 1)) _ λ flag.
                  bind-Sized (length params) (parse_value tp (has_bit flag 7) v p) _ λ r.
                    (rw (length-set params i r.0) at
                      (parse_params-Sized k (i + 1) nulls types v r.1 (set params i r.0))))
        ])
      ]

recovered-Sized :
    (n : ℕ) (r : Result ParseError (List Param)) {out : List Param}
    → Sized n r
    → recovered r ≡ ok out
    → length out ≡ n
recovered-Sized n (ok a) {out} h q = cc
recovered-Sized n (err e) {out} h q = cc
recovered-Sized n panic {out} h q = cc

-- What `parseExecParams` returns has a value for each parameter of the statement.
pub length-parse_exec_params :
    (n : ℕ) (nulls types : Bytes) (v : Values) {out : List Param}
    → parse_exec_params n nulls types v ≡ ok out
    → length out ≡ n
unfolding parse_exec_params
length-parse_exec_params n nulls types v {out} h =
    let size =
      (rw (length-replicate n nil) at (parse_params-Sized n 0 nulls types v 0 (replicate n nil))) in
    recovered-Sized n _ size h
