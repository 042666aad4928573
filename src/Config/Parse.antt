-- ===== src/Config/Parse.antt =====
-- `str::trim` and the parser of unsigned integers, which `parse_env_range` of src/config/mod.rs
-- uses. A text is the list of its code points.
use matchmaker.Base.{
  ℕ, ◌+◌, ◌-◌, ◌*◌, Bool, ◌&&◌, ◌||◌, List, [], ◌∷◌, leb, ◌==◌, if◌then◌else◌, Result, ok, err,
}
use mathlib.Core.List.{reverse}

abbrev pub Text : Type 0
Text = List ℕ

-- `IntErrorKind`, as far as unsigned integers have it.
pub data IntError : Type 0 where
  empty invalid_digit pos_overflow : IntError

-- `char::is_whitespace`.
abbrev pub is_whitespace : ℕ → Bool
is_whitespace c =
    (leb 9 c && leb c 13)
    || c == 32
    || c == 0x85
    || c == 0xa0
    || c == 0x1680
    || (leb 0x2000 c && leb c 0x200a)
    || c == 0x2028
    || c == 0x2029
    || c == 0x202f
    || c == 0x205f
    || c == 0x3000

abbrev pub trim_start : Text → Text
trim_start [] = []
trim_start (c ∷ cs) = if is_whitespace c then trim_start cs else c ∷ cs

abbrev pub trim : Text → Text
trim s = reverse (trim_start (reverse (trim_start s)))

abbrev pub digit : ℕ → Bool
digit c = leb b'0' c && leb c b'9'

-- The digits are read from the left, and the value may not pass `most`.
abbrev pub parse_digits : ℕ → ℕ → Text → Result IntError ℕ
parse_digits most acc [] = ok acc
parse_digits most acc (c ∷ cs) =
    let rest = parse_digits most (acc * 10 + (c - b'0')) cs in
    if digit c
    then (if leb (acc * 10 + (c - b'0')) most then rest else err pos_overflow)
    else err invalid_digit

-- One `+` may stand in front of a digit.
abbrev pub parse_unsigned : ℕ → Text → Result IntError ℕ
parse_unsigned most [] = err empty
parse_unsigned most (c ∷ []) = parse_digits most 0 (c ∷ [])
parse_unsigned most (c ∷ d ∷ cs) =
    if c == b'+' then parse_digits most 0 (d ∷ cs) else parse_digits most 0 (c ∷ d ∷ cs)
