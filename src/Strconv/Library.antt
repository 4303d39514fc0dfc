-- ===== src/Strconv/Library.antt =====
-- What the codec takes from Go's library as it stands: the table of printable runes, text in other
-- quotation marks, and the decimal print of floats, whose values are their bit patterns.
use mysql_replay.Base.{
  ℕ, ◌/◌, ◌%◌, ◌^◌, ◌<◌, Bool, false, not, ◌&&◌, [], Option, some, ◌≡◌, ◌≢◌, Bytes, Lacks, ◌==◌,
}

pub record Library : Type 0 where
  -- `strconv.IsPrint` above 0xff.
  pub is_print_table : ℕ → Bool
  -- `strconv.Unquote` of a text that does not begin with a double quote.
  pub unquote_other : Bytes → Option Bytes
  -- `AppendFloat(nil, x, 'g', -1, w)` and `ParseFloat(s, w)` for w = 32, 64.
  pub format_float : ℕ → ℕ → Bytes
  pub parse_float : ℕ → Bytes → Option ℕ

abbrev pub is_nan32 : ℕ → Bool
is_nan32 x = x / 2 ^ 23 % 256 == 255 && not (x % 2 ^ 23 == 0)

abbrev pub is_nan64 : ℕ → Bool
is_nan64 x = x / 2 ^ 52 % 2048 == 2047 && not (x % 2 ^ 52 == 0)

-- The documented behaviour of the shortest print: it is read back to the same value.
pub record FloatLaws (lib : Library) : Type 0 where
  pub read_back32 :
      (x : ℕ)
      → x < 2 ^ 32
      → is_nan32 x ≡ false
      → lib.parse_float 32 (lib.format_float 32 x) ≡ some x
  pub read_back64 :
      (x : ℕ)
      → x < 2 ^ 64
      → is_nan64 x ≡ false
      → lib.parse_float 64 (lib.format_float 64 x) ≡ some x
  pub no_tab : (w x : ℕ) → Lacks b'\t' (lib.format_float w x)
  pub not_empty : (w x : ℕ) → lib.format_float w x ≢ []
