-- ===== src/Text.antt =====
-- The text functions of Rust's standard library that the server calls.
pub mod Prefixes
pub mod Trimming
pub mod Numbers
pub mod Values
use Prim.Native.Char.{Char, code}
use Prim.Native.String
use multi_tenant_agent_platf.Prelude.{
  ℕ, zero, suc, ◌+◌, ◌-◌, ◌*◌, ◌/◌, ◌%◌, String, Bool, true, false, ◌&&◌, ◌||◌, Option, none, some,
  if◌then◌else◌, ◌==◌, ltb, leb, is_some,
}

abbrev pub join : String → String → String
join s t = String.◌++◌ s t

abbrev pub same_char : Char → Char → Bool
same_char c d = code c == code d

abbrev pub is_empty_text : String → Bool
is_empty_text String.[] = true
is_empty_text (String.◌∷◌ c s) = false

-- s.strip_prefix(p)
unfoldable pub strip_prefix : String → String → Option String
strip_prefix String.[] s = some s
strip_prefix (String.◌∷◌ c p) String.[] = none
strip_prefix (String.◌∷◌ c p) (String.◌∷◌ d s) = if same_char c d then strip_prefix p s else none

abbrev pub before : Char → Option (String × String) → Option (String × String)
before c none = none
before c (some (l, r)) = some (String.◌∷◌ c l, r)

-- s.split_once(sep), for a separator of one character given by its code
unfoldable pub split_once : ℕ → String → Option (String × String)
split_once sep String.[] = none
split_once sep (String.◌∷◌ c s) =
    if code c == sep then some ("", s) else before c (split_once sep s)

-- s.contains(p)
unfoldable pub contains : String → String → Bool
unfolding strip_prefix
contains p String.[] = is_some (strip_prefix p "")
contains p (String.◌∷◌ c s) = is_some (strip_prefix p (String.◌∷◌ c s)) || contains p s

-- char::is_whitespace: the code points with the property White_Space
unfoldable pub is_whitespace : Char → Bool
is_whitespace c =
    leb 9 (code c) && leb (code c) 13
    || code c == 32
    || code c == 0x85
    || code c == 0xa0
    || code c == 0x1680
    || leb 0x2000 (code c) && leb (code c) 0x200a
    || code c == 0x2028
    || code c == 0x2029
    || code c == 0x202f
    || code c == 0x205f
    || code c == 0x3000

unfoldable pub trim_start : String → String
trim_start String.[] = ""
trim_start (String.◌∷◌ c s) = if is_whitespace c then trim_start s else String.◌∷◌ c s

unfoldable pub trim_end : String → String
trim_end String.[] = ""
trim_end (String.◌∷◌ c s) =
    let rest = trim_end s in if is_whitespace c && is_empty_text rest then "" else String.◌∷◌ c rest

unfoldable pub trim : String → String
unfolding trim_start trim_end is_whitespace
trim s = trim_end (trim_start s)

-- The character of the second text that stands where `c` stands in the first.
unfoldable pub translate : String → String → Char → Char
translate (String.◌∷◌ u us) (String.◌∷◌ l ls) c = if same_char c u then l else translate us ls c
translate String.[] ls c = c
translate (String.◌∷◌ u us) String.[] c = c

-- to_lowercase(), on ASCII text
unfoldable pub to_lowercase : String → String
unfolding translate
to_lowercase String.[] = ""
to_lowercase (String.◌∷◌ c s) =
    String.◌∷◌ (translate "ABCDEFGHIJKLMNOPQRSTUVWXYZ" "abcdefghijklmnopqrstuvwxyz" c)
      (to_lowercase s)

unfoldable pub digit_char : ℕ → Char
digit_char zero = "0"
digit_char (suc zero) = "1"
digit_char (suc (suc zero)) = "2"
digit_char (suc (suc (suc zero))) = "3"
digit_char (suc (suc (suc (suc zero)))) = "4"
digit_char (suc (suc (suc (suc (suc zero))))) = "5"
digit_char (suc (suc (suc (suc (suc (suc zero)))))) = "6"
digit_char (suc (suc (suc (suc (suc (suc (suc zero))))))) = "7"
digit_char (suc (suc (suc (suc (suc (suc (suc (suc zero)))))))) = "8"
digit_char (suc (suc (suc (suc (suc (suc (suc (suc (suc n))))))))) = "9"

unfoldable pub digit : ℕ → String
unfolding digit_char
digit n = String.◌∷◌ (digit_char n) String.[]

unfoldable pub decimal_from : ℕ → ℕ → String
unfolding digit
decimal_from zero n = digit n
decimal_from (suc fuel) n =
    let longer = join (decimal_from fuel (n / 10)) (digit (n % 10)) in
    if ltb n 10 then digit n else longer

-- format!("{n}"); a number of 64 bits has at most twenty digits
unfoldable pub decimal : ℕ → String
decimal n = decimal_from 19 n

-- The largest usize of a 64-bit target.
abbrev pub usize_max : ℕ
usize_max = 18446744073709551615

abbrev pub is_digit : Char → Bool
is_digit c = leb b'0' (code c) && leb (code c) b'9'

-- The loop of str::parse for an unsigned integer type, with its checks for overflow.
unfoldable pub parse_digits : ℕ → ℕ → String → Option ℕ
parse_digits max acc String.[] = some acc
parse_digits max acc (String.◌∷◌ c s) =
    let next = acc * 10 + (code c - b'0') in
    let rest = parse_digits max next s in if is_digit c && leb next max then rest else none

-- The digits after a sign, or none.
unfoldable pub parse_unsigned : ℕ → String → Option ℕ
unfolding parse_digits
parse_unsigned max String.[] = none
parse_unsigned max (String.◌∷◌ c s) = parse_digits max 0 (String.◌∷◌ c s)

-- str::parse::<usize>(): one plus sign may lead, and there is at least one digit
unfoldable pub parse_usize_text : String → Option ℕ
unfolding parse_unsigned
parse_usize_text String.[] = none
parse_usize_text (String.◌∷◌ c s) =
    if code c == b'+' then parse_unsigned usize_max s else parse_digits usize_max 0 (String.◌∷◌ c s)
