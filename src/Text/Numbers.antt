-- ===== src/Text/Numbers.antt =====
-- A number that is printed in decimal is read back.
use Prim.Native.Char.{code}
use text.Mathlib.TextLemmas.{nil-append, cons-append, append-nil, append_assoc}
use multi_tenant_agent_platf.Prelude.{
  ℕ, zero, suc, ◌+◌, ◌-◌, ◌*◌, ◌/◌, ◌%◌, ◌≤◌, ◌<◌, ◌≡◌, refl, String, true, false, none, some,
  arith, ltb, leb, ◌==◌, if◌then◌else◌, inl, inr, Bool-cases, ap, sym, ◌∙◌,
}
use multi_tenant_agent_platf.Text.{
  join, digit_char, digit, decimal_from, decimal, usize_max, parse_digits, parse_usize_text,
}

code-digit_char : (n : ℕ) → n < 10 → code (digit_char n) ≡ 48 + n
unfolding digit_char
code-digit_char zero h = omega arith
code-digit_char (suc zero) h = omega arith
code-digit_char (suc (suc zero)) h = omega arith
code-digit_char (suc (suc (suc zero))) h = omega arith
code-digit_char (suc (suc (suc (suc zero)))) h = omega arith
code-digit_char (suc (suc (suc (suc (suc zero))))) h = omega arith
code-digit_char (suc (suc (suc (suc (suc (suc zero)))))) h = omega arith
code-digit_char (suc (suc (suc (suc (suc (suc (suc zero))))))) h = omega arith
code-digit_char (suc (suc (suc (suc (suc (suc (suc (suc zero)))))))) h = omega arith
code-digit_char (suc (suc (suc (suc (suc (suc (suc (suc (suc n))))))))) h = omega arith

-- One digit more.
parse_digits-digit :
    (max acc n : ℕ) (rest : String)
    → n < 10
    → parse_digits max acc (join (digit n) rest)
      ≡ (if leb (acc * 10 + n) max then parse_digits max (acc * 10 + n) rest else none)
unfolding parse_digits digit
parse_digits-digit max acc n rest h =
    let same : acc * 10 + (48 + n - 48) ≡ acc * 10 + n = omega arith in
    let low : leb 48 (48 + n) ≡ true = ground arith in
    let high : leb (48 + n) 57 ≡ true = ground arith in
    rw (cons-append, nil-append, code-digit_char n h, same, low, high) refl

last_digit :
    (max n : ℕ) (rest : String)
    → n ≤ max
    → n < 10
    → parse_digits max 0 (join (digit n) rest) ≡ parse_digits max n rest
last_digit max n rest fits short =
    let fits' : leb n max ≡ true = ground arith in
    let same : 0 * 10 + n ≡ n = omega arith in
    rw (parse_digits-digit max 0 n rest short, same, fits') refl

-- Ten, and a hundred, a thousand, …
abbrev pub tens : ℕ → ℕ
tens zero = 10
tens (suc k) = 10 * tens k

-- What follows the number is read on.
parse_digits-decimal_from :
    (fuel max n : ℕ) (rest : String)
    → n ≤ max
    → n < tens fuel
    → parse_digits max 0 (join (decimal_from fuel n) rest) ≡ parse_digits max n rest
unfolding decimal_from
parse_digits-decimal_from zero max n rest fits short = last_digit max n rest fits short
parse_digits-decimal_from (suc fuel) max n rest fits short = elim (Bool-cases (ltb n 10)) [
  | inl small ↦ rw small (last_digit max n rest fits (ground arith))
  | inr large ↦
      let whole : n / 10 * 10 + n % 10 ≡ n = omega arith in
      let fits' : leb n max ≡ true = ground arith in
      rw
        (
          large,
          append_assoc (decimal_from fuel (n / 10)) (digit (n % 10)) rest,
          parse_digits-decimal_from fuel max (n / 10) (join (digit (n % 10)) rest) (omega arith)
              (omega arith),
          parse_digits-digit max (n / 10) (n % 10) rest (omega arith),
          whole,
          fits',
        )
        refl
]

-- The text starts with a digit.
abbrev HasDigit : String → Type 0
HasDigit String.[] = ⊥
HasDigit (String.◌∷◌ c s) = (48 ≤ code c) × (code c ≤ 57)

HasDigit-join : (s t : String) → HasDigit s → HasDigit (join s t)
HasDigit-join String.[] t h = absurd h
HasDigit-join (String.◌∷◌ c s) t h = rw cons-append h

digit_char_range : (n : ℕ) → (48 ≤ code (digit_char n)) × (code (digit_char n) ≤ 57)
unfolding digit_char
digit_char_range zero = (omega arith, omega arith)
digit_char_range (suc zero) = (omega arith, omega arith)
digit_char_range (suc (suc zero)) = (omega arith, omega arith)
digit_char_range (suc (suc (suc zero))) = (omega arith, omega arith)
digit_char_range (suc (suc (suc (suc zero)))) = (omega arith, omega arith)
digit_char_range (suc (suc (suc (suc (suc zero))))) = (omega arith, omega arith)
digit_char_range (suc (suc (suc (suc (suc (suc zero)))))) = (omega arith, omega arith)
digit_char_range (suc (suc (suc (suc (suc (suc (suc zero))))))) = (omega arith, omega arith)
digit_char_range (suc (suc (suc (suc (suc (suc (suc (suc zero)))))))) = (omega arith, omega arith)
digit_char_range (suc (suc (suc (suc (suc (suc (suc (suc (suc n))))))))) =
    (omega arith, omega arith)

decimal_from-HasDigit : (fuel n : ℕ) → HasDigit (decimal_from fuel n)
unfolding decimal_from digit
decimal_from-HasDigit zero n = digit_char_range n
decimal_from-HasDigit (suc fuel) n = elim (Bool-cases (ltb n 10)) [
  | inl small ↦ rw small (digit_char_range n)
  | inr large ↦ rw large (HasDigit-join _ (digit (n % 10)) (decimal_from-HasDigit fuel (n / 10)))
]

parse_usize_text-HasDigit :
    (s : String) → HasDigit s → parse_usize_text s ≡ parse_digits usize_max 0 s
unfolding parse_usize_text
parse_usize_text-HasDigit String.[] h = absurd h
parse_usize_text-HasDigit (String.◌∷◌ c s) (low, high) =
    let no_plus : (code c == b'+') ≡ false = ground arith in rw no_plus refl

parse_digits_end : (max n : ℕ) → parse_digits max n "" ≡ some n
unfolding parse_digits
parse_digits_end max n = refl

-- A usize that is printed in decimal is parsed as itself.
pub parse_usize_text-decimal : (n : ℕ) → n ≤ usize_max → parse_usize_text (decimal n) ≡ some n
unfolding decimal
parse_usize_text-decimal n h =
    parse_usize_text-HasDigit (decimal_from 19 n) (decimal_from-HasDigit 19 n)
    ∙ ap (parse_digits usize_max 0) (sym (append-nil (decimal_from 19 n)))
    ∙ parse_digits-decimal_from 19 usize_max n "" h (omega (arith, h))
    ∙ parse_digits_end usize_max n
