-- ===== src/Text/Values.antt =====
-- What number str::parse::<usize>() gives for any text.
use Prim.Native.Char.{code}
use native.Mathlib.Nat.{mul-le-mul_left}
use multi_tenant_agent_platf.Prelude.{
  ℕ, ◌+◌, ◌-◌, ◌*◌, ◌≤◌, ◌≡◌, refl, sym, String, Bool, true, false, ◌&&◌, Option, none, some, arith,
  leb, ◌==◌, if◌then◌else◌, inl, inr, Bool-cases,
}
use multi_tenant_agent_platf.Text.{
  is_digit, usize_max, parse_digits, parse_unsigned, parse_usize_text,
}

-- What a text of digits denotes, however long it is.
abbrev pub scale : String → ℕ
scale String.[] = 1
scale (String.◌∷◌ c s) = 10 * scale s

abbrev pub value : String → ℕ
value String.[] = 0
value (String.◌∷◌ c s) = (code c - b'0') * scale s + value s

abbrev pub all_digits : String → Bool
all_digits String.[] = true
all_digits (String.◌∷◌ c s) = is_digit c && all_digits s

-- There is at least one character, and each is a digit.
abbrev pub is_number : String → Bool
is_number String.[] = false
is_number (String.◌∷◌ c s) = all_digits (String.◌∷◌ c s)

-- The text behind one plus sign, if it starts with one.
abbrev pub unsigned : String → String
unsigned String.[] = ""
unsigned (String.◌∷◌ c s) = if code c == b'+' then s else String.◌∷◌ c s

scale_pos : (s : String) → 1 ≤ scale s
scale_pos String.[] = omega arith
scale_pos (String.◌∷◌ c s) = omega (arith, scale_pos s)

-- The digits read so far and those to come.
abbrev total : ℕ → String → ℕ
total acc s = acc * scale s + value s

le-total : (acc : ℕ) (s : String) → acc ≤ total acc s
le-total acc s = omega (arith, mul-le-mul_left acc (scale_pos s))

total-cons : (acc d k u : ℕ) → (acc * 10 + d) * k + u ≡ acc * (10 * k) + (d * k + u)
total-cons acc d k u = omega arith

not_reached : (b : Bool) (o : Option ℕ) → ◌≡◌ {A = Option ℕ} none (if b && false then o else none)
not_reached true o = refl
not_reached false o = refl

parse_digits-value :
    (max acc : ℕ) (s : String)
    → acc ≤ max
    → parse_digits max acc s
      ≡ (if all_digits s && leb (total acc s) max then some (total acc s) else none)
unfolding parse_digits
parse_digits-value max acc String.[] fits =
    let whole : acc * 1 + 0 ≡ acc = omega arith in
    let fits' : leb acc max ≡ true = ground arith in rw (whole, fits') refl
parse_digits-value max acc (String.◌∷◌ c s) fits =
    let next = acc * 10 + (code c - b'0') in
    elim (Bool-cases (is_digit c)) [
      | inr e ↦ rw e refl
      | inl e ↦ elim (Bool-cases (leb next max)) [
        | inl small ↦
            rw (e, small, parse_digits-value max next s (ground (arith, small)))
              (rw (total-cons acc (code c - b'0') (scale s) (value s)) refl)
        | inr large ↦
            let over : leb (total acc (String.◌∷◌ c s)) max ≡ false =
              rw (sym (total-cons acc (code c - b'0') (scale s) (value s)))
                (ground (arith, large, le-total next s)) in
            rw (e, large, over) (not_reached (all_digits s) _)
      ]
    ]

parse_unsigned-value :
    (max : ℕ) (s : String)
    → parse_unsigned max s ≡ (if is_number s && leb (value s) max then some (value s) else none)
unfolding parse_unsigned
parse_unsigned-value max String.[] = refl
parse_unsigned-value max (String.◌∷◌ c s) =
    let whole : total 0 (String.◌∷◌ c s) ≡ value (String.◌∷◌ c s) = omega arith in
    rw (parse_digits-value max 0 (String.◌∷◌ c s) (omega arith), whole) refl

-- Any text at all.
pub parse_usize_text-value :
    (s : String)
    → parse_usize_text s ≡ (
        if is_number (unsigned s) && leb (value (unsigned s)) usize_max
        then some (value (unsigned s))
        else none)
unfolding parse_usize_text parse_unsigned
parse_usize_text-value String.[] = refl
parse_usize_text-value (String.◌∷◌ c s) = elim (Bool-cases (code c == b'+')) [
  | inl e ↦ rw e (parse_unsigned-value usize_max s)
  | inr e ↦ rw e (parse_unsigned-value usize_max (String.◌∷◌ c s))
]
