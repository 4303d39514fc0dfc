-- ===== src/Stream/Params/FieldType.antt =====
-- stream/const.go: the field types of the binary protocol.
use mysql_replay.Base.{ℕ}

abbrev pub field_type_decimal : ℕ
field_type_decimal = 0

abbrev pub field_type_tiny : ℕ
field_type_tiny = 1

abbrev pub field_type_short : ℕ
field_type_short = 2

abbrev pub field_type_long : ℕ
field_type_long = 3

abbrev pub field_type_float : ℕ
field_type_float = 4

abbrev pub field_type_double : ℕ
field_type_double = 5

abbrev pub field_type_null : ℕ
field_type_null = 6

abbrev pub field_type_timestamp : ℕ
field_type_timestamp = 7

abbrev pub field_type_long_long : ℕ
field_type_long_long = 8

abbrev pub field_type_int24 : ℕ
field_type_int24 = 9

abbrev pub field_type_date : ℕ
field_type_date = 10

abbrev pub field_type_time : ℕ
field_type_time = 11

abbrev pub field_type_date_time : ℕ
field_type_date_time = 12

abbrev pub field_type_year : ℕ
field_type_year = 13

abbrev pub field_type_var_char : ℕ
field_type_var_char = 15

abbrev pub field_type_bit : ℕ
field_type_bit = 16

abbrev pub field_type_new_decimal : ℕ
field_type_new_decimal = 246

abbrev pub field_type_enum : ℕ
field_type_enum = 247

abbrev pub field_type_set : ℕ
field_type_set = 248

abbrev pub field_type_tiny_blob : ℕ
field_type_tiny_blob = 249

abbrev pub field_type_medium_blob : ℕ
field_type_medium_blob = 250

abbrev pub field_type_long_blob : ℕ
field_type_long_blob = 251

abbrev pub field_type_blob : ℕ
field_type_blob = 252

abbrev pub field_type_var_string : ℕ
field_type_var_string = 253

abbrev pub field_type_string : ℕ
field_type_string = 254

abbrev pub field_type_geometry : ℕ
field_type_geometry = 255
