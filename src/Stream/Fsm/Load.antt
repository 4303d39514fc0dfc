-- ===== src/Stream/Fsm/Load.antt =====
-- stream/mysql.go: `load` and the commands that the packets make up.

use mysql_replay.Base.{
  At, At-here, At-skip, At-suc, At-get_elem?, At-end, ℕ, zero, suc, ◌+◌, ◌-◌, ◌≤◌, ◌<◌, true, false,
  ◌⊎◌, ◌↔◌, Option-cases, inl, inr, List, [], ◌∷◌, ◌++◌, append_assoc, none, some, ◌≡◌, ◌≢◌, ◌∙◌,
  refl, sym, ap, arith, length, length-append, take-length_append, get_elem?, ltb, ◌==◌, ==_iff,
  ne→==, ==_refl, lt→ltb, Bool-cases, if◌then◌else◌,
}
use mysql_replay.Stream.Fsm.Machine.{Fsm, skip_full, find_command, joined, load}
use mysql_replay.Stream.Packet.{MysqlPacket, max_packet_size}

-- A command: full packets, and one that is not.
pub data IsCommand : List MysqlPacket → Type 0 where
  last : (p : MysqlPacket) → p.len ≢ max_packet_size → IsCommand (p ∷ [])
  full :
      (p : MysqlPacket) {ps : List MysqlPacket}
      → p.len ≡ max_packet_size
      → IsCommand ps
      → IsCommand (p ∷ ps)

-- Commands, one behind the other.
pub data IsCommands : List MysqlPacket → Type 0 where
  no_more : IsCommands []
  more : {c cs : List MysqlPacket} → IsCommand c → IsCommands cs → IsCommands (c ++ cs)

IsCommand-length : {c : List MysqlPacket} → IsCommand c → 0 < length c
IsCommand-length (last p h) = omega arith
IsCommand-length (full p h c) = omega arith

module _ (ps : List MysqlPacket) where
  skip_full-step :
      (fuel j : ℕ) (p : MysqlPacket)
      → get_elem? ps j ≡ some p
      → skip_full (suc fuel) ps j
        ≡ (if p.len == max_packet_size then skip_full fuel ps (j + 1) else j)
  unfolding skip_full
  skip_full-step fuel j p e = rw (skip_full, e) refl

  skip_full-end : (fuel j : ℕ) → get_elem? ps j ≡ none → skip_full fuel ps j ≡ j
  unfolding skip_full
  skip_full-end zero j e = refl
  skip_full-end (suc fuel) j e = rw (skip_full, e) refl

  skip_full-IsCommand :
      (fuel j : ℕ) {c : List MysqlPacket} (rest : List MysqlPacket)
      → IsCommand c
      → At ps j (c ++ rest)
      → length c ≤ fuel
      → skip_full fuel ps j + 1 ≡ j + length c
  skip_full-IsCommand zero j rest (last p h) a enough = absurd (omega arith)
  skip_full-IsCommand (suc fuel) j rest (last p h) a enough =
      rw (skip_full-step fuel j p (At-get_elem? a), ne→== p.len max_packet_size h) (omega arith)
  skip_full-IsCommand zero j rest (full p h c) a enough = absurd (omega arith)
  skip_full-IsCommand (suc fuel) j rest (full p {ps = ps'} h c) a enough =
      let ih = skip_full-IsCommand fuel (j + 1) rest c (At-suc p (ps' ++ rest) a) (omega arith) in
      rw (skip_full-step fuel j p (At-get_elem? a), (==_iff _ _).1 h) (omega (arith, ih))

  find_command-step :
      (fuel k i : ℕ)
      → i < length ps
      → skip_full (length ps) ps i < length ps
      → find_command (suc fuel) ps k i ≡ (
          if i == k
          then some (i, skip_full (length ps) ps i)
          else find_command fuel ps k (skip_full (length ps) ps i + 1))
  unfolding find_command
  find_command-step fuel k i h g =
      rw (lt→ltb i (length ps) h, ne→== (skip_full (length ps) ps i) (length ps) (λ e. omega arith))
        refl

  find_command-zero : (k i : ℕ) → find_command 0 ps k i ≡ none
  unfolding find_command
  find_command-zero k i = refl

  -- No complete command is left.
  find_command-none :
      (fuel k i : ℕ)
      → skip_full (length ps) ps i ≡ length ps
      → find_command (suc fuel) ps k i ≡ none
  unfolding find_command
  find_command-none fuel k i h = elim (Bool-cases (ltb i (length ps))) [
    | inl e ↦ rw (e, h, ==_refl (length ps)) refl
    | inr e ↦ rw e refl
  ]

  find_command-IsCommands :
      (fuel i k : ℕ) {pre c : List MysqlPacket} (rest : List MysqlPacket)
      → IsCommands pre
      → IsCommand c
      → At ps i (pre ++ (c ++ rest))
      → length pre < fuel
      → k ≡ i + length pre
      → find_command fuel ps k i ≡ some (k, k + length c - 1)
  find_command-IsCommands zero i k rest pre c a enough q = absurd (omega arith)
  find_command-IsCommands (suc fuel) i k {pre = []} {c} rest no_more h a enough q =
      let here =
        skip_full-IsCommand (length ps) i rest h a (omega (arith, a.size, length-append c rest)) in
      let some_packets = IsCommand-length h in
      let same : i ≡ k = omega arith in
      let end : skip_full (length ps) ps i ≡ k + length c - 1 = omega arith in
      rw
        (
          find_command-step fuel k i (omega (arith, a.size, length-append c rest))
              (omega (arith, a.size, length-append c rest)),
          (==_iff i k).1 same,
        )
        (cc (same, end))
  find_command-IsCommands (suc fuel) i k {c = c'} rest (more {c} {cs} d pre) h a enough q =
      let b = (rw (append_assoc c cs (c' ++ rest)) at a) in
      let size = length-append c (cs ++ (c' ++ rest)) in
      let here =
        skip_full-IsCommand (length ps) i (cs ++ (c' ++ rest)) d b (omega (arith, b.size, size)) in
      let some_packets = IsCommand-length d in
      let both = length-append c cs in
      let next : skip_full (length ps) ps i + 1 ≡ i + length c = here in
      rw
        (
          find_command-step fuel k i (omega (arith, b.size, size)) (omega (arith, b.size, size)),
          ne→== i k (λ e. omega arith),
          next,
        )
        (find_command-IsCommands fuel (i + length c) k rest pre h (At-skip c (cs ++ (c' ++ rest)) b)
          (omega arith) (omega arith))

-- The first command of `t`, if it is complete.
abbrev FirstCommand : ℕ → ℕ → List MysqlPacket → Type 0
FirstCommand next j t =
    (c : List MysqlPacket) × (rest : List MysqlPacket) × (t ≡ c ++ rest)
    × IsCommand c
    × (next ≡ j + length c)

-- Complete commands, and the command that starts at `k`.
abbrev pub CommandAt : ℕ → ℕ → List MysqlPacket → Type 0
CommandAt k i t =
    (pre : List MysqlPacket) × (c : List MysqlPacket) × (rest : List MysqlPacket) × (t
      ≡ pre ++ (c ++ rest))
    × IsCommands pre
    × IsCommand c
    × (k ≡ i + length pre)

module _ (ps : List MysqlPacket) where
  skip_full-cases :
      (fuel j : ℕ) (t : List MysqlPacket)
      → At ps j t
      → length t ≤ fuel
      → (skip_full fuel ps j ≡ length ps) ⊎ FirstCommand (skip_full fuel ps j + 1) j t
  skip_full-cases fuel j [] a enough =
      inl
        (skip_full-end ps fuel j (At-end a) ∙ (let z : j ≡ length ps = omega (arith, a.size) in z))
  skip_full-cases zero j (p ∷ t) a enough = absurd (omega arith)
  skip_full-cases (suc fuel) j (p ∷ t) a enough = elim (Bool-cases (p.len == max_packet_size)) [
    | inl e ↦
        rw (skip_full-step ps fuel j p (At-get_elem? a), e)
          (elim (skip_full-cases fuel (j + 1) t (At-suc p t a) (omega arith)) [
            | inl all ↦ inl all
            | inr (c, rest, q, h, n) ↦
                inr (p ∷ c, rest, ap (λ w. p ∷ w) q, full p ((==_iff _ _).0 e) h, omega (arith, n))
          ])
    | inr e ↦
        rw (skip_full-step ps fuel j p (At-get_elem? a), e)
          (inr (p ∷ [], t, refl, last p (λ q. cc (e, (==_iff _ _).1 q)), omega arith))
  ]

  find_command-CommandAt :
      (fuel k i : ℕ) (t : List MysqlPacket) {r : ℕ × ℕ}
      → At ps i t
      → find_command fuel ps k i ≡ some r
      → CommandAt k i t
  find_command-CommandAt zero k i t a f = absurd (cc (f, find_command-zero ps k i))
  find_command-CommandAt (suc fuel) k i t {r} a f =
      elim (skip_full-cases (length ps) i t a (omega (arith, a.size))) [
        | inl all ↦ absurd (cc (f, find_command-none ps fuel k i all))
        | inr (c, rest, q, h, n) ↦
            let size = ap length q ∙ length-append c rest in
            let some_packets = IsCommand-length h in
            let g = find_command-step ps fuel k i (omega (arith, a.size)) (omega (arith, a.size)) in
            elim (Bool-cases (i == k)) [
              | inl e ↦ ([], c, rest, q, no_more, h, omega (arith, (==_iff i k).0 e))
              | inr e ↦
                  let b = (rw q at a) in
                  let later : find_command fuel ps k (i + length c) ≡ some r =
                    rw (sym n) (cc ((rw e at g), f)) in
                  let (pre, d, tail, eq, before, command, size) =
                    find_command-CommandAt fuel k (i + length c) rest (At-skip c rest b) later in
                  (
                    c ++ pre,
                    d,
                    tail,
                    q ∙ (ap (λ w. c ++ w) eq ∙ sym (append_assoc c pre (d ++ tail))),
                    more h before,
                    command,
                    omega (arith, size, length-append c pre),
                  )
            ]
      ]

-- Behind complete commands (full packets and one that is not), a load of the position of the next
-- complete command, whatever follows it, gives the data of its packets joined, its position and its
-- number of packets, and changes nothing else.
pub load-found :
    (m : Fsm) {pre c : List MysqlPacket} (rest : List MysqlPacket)
    → IsCommands pre
    → IsCommand c
    → m.packets ≡ pre ++ (c ++ rest)
    → load (length pre) m
      ≡ (record m { buffer = joined c; start = length pre; count = length c }, true)
unfolding load
load-found m {pre} {c} rest before h e =
    let a : At m.packets (length pre) (c ++ rest) = rw e (At-here pre (c ++ rest)) in
    let found =
      find_command-IsCommands m.packets (length m.packets) 0 (length pre) rest before h
        (rw e (At-here [] (pre ++ (c ++ rest))))
        (omega (arith, a.size, length-append c rest, IsCommand-length h)) (omega arith) in
    let some_packets = IsCommand-length h in
    let size : length pre + length c - 1 - length pre + 1 ≡ length c = omega arith in
    rw (found, size, a.tail, take-length_append c rest) refl

load-CommandAt : (k : ℕ) (m : Fsm) → (load k m).1 ≡ true → CommandAt k 0 m.packets
unfolding load
load-CommandAt k m e = elim (Option-cases (find_command (length m.packets) m.packets k 0)) [
  | inl f ↦ absurd (cc (rw f at e))
  | inr (r, f) ↦
      find_command-CommandAt m.packets (length m.packets) k 0 m.packets (At-here [] m.packets) f
]

-- A load succeeds exactly where a complete command starts at that packet, behind complete commands.
pub load_iff : (k : ℕ) (m : Fsm) → ((load k m).1 ≡ true) ↔ CommandAt k 0 m.packets
load_iff k m = (
  load-CommandAt k m,
  λ (pre, c, rest, q, before, h, n).
      let same : k ≡ length pre = omega (arith, n) in rw (same, load-found m rest before h q) refl,
)

-- Where a load fails it changes nothing.
load-fails : (k : ℕ) (m : Fsm) → (load k m).1 ≡ false → load k m ≡ (m, false)
unfolding load
load-fails k m e = elim (Option-cases (find_command (length m.packets) m.packets k 0)) [
  | inl f ↦ rw f refl
  | inr (r, f) ↦ absurd (cc (rw f at e))
]
