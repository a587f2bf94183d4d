-- ===== src/Text/Prefixes.antt =====
-- Taking a text apart gives back the parts that it was put together from.
use Prim.Native.Char.{Char, code}
use text.Mathlib.TextLemmas.{nil-append, cons-append}
use multi_tenant_agent_platf.Prelude.{
  ℕ, ◌≡◌, ◌≢◌, arith, String, some, true, ==_refl, ==_ne, inl, inr, Bool-cases,
}
use multi_tenant_agent_platf.Text.{
  join, same_char, strip_prefix, split_once, translate, to_lowercase, contains,
}

pub strip_prefix-join : (p s : String) → strip_prefix p (join p s) ≡ some s
unfolding strip_prefix
strip_prefix-join String.[] s = rw nil-append
strip_prefix-join (String.◌∷◌ c p) s = rw (cons-append, ==_refl (code c)) (strip_prefix-join p s)

-- No character of the text has this code.
abbrev pub Lacks : ℕ → String → Type 0
Lacks n String.[] = Unit {0}
Lacks n (String.◌∷◌ c s) = (code c ≢ n) × Lacks n s

pub split_once-join :
    (c : Char) (l r : String)
    → Lacks (code c) l
    → split_once (code c) (join l (String.◌∷◌ c r)) ≡ some (l, r)
unfolding split_once
split_once-join c String.[] r h = rw (nil-append, ==_refl (code c))
split_once-join c (String.◌∷◌ d l) r (ne, h) =
    rw (cons-append, ==_ne (code d) (code c) ne, split_once-join c l r h)

translate-Lacks :
    (n : ℕ) (us ls : String) (c : Char) → Lacks n ls → code c ≢ n → code (translate us ls c) ≢ n
unfolding translate
translate-Lacks n (String.◌∷◌ u us) (String.◌∷◌ l ls) c (hl, h) ne =
    elim (Bool-cases (same_char c u)) [
      | inl e ↦ rw e hl
      | inr e ↦ rw e (translate-Lacks n us ls c h ne)
    ]
translate-Lacks n String.[] ls c h ne = ne
translate-Lacks n (String.◌∷◌ u us) String.[] c h ne = ne

-- Lower-casing brings in no underscore.
pub to_lowercase-Lacks : (s : String) → Lacks b'_' s → Lacks b'_' (to_lowercase s)
unfolding to_lowercase
to_lowercase-Lacks String.[] h = tt
to_lowercase-Lacks (String.◌∷◌ c s) (ne, h) = (
  translate-Lacks b'_' "ABCDEFGHIJKLMNOPQRSTUVWXYZ" "abcdefghijklmnopqrstuvwxyz" c (omega arith) ne,
  to_lowercase-Lacks s h,
)

-- A text contains what an end of it contains.
pub contains-join : (p s t : String) → contains p t ≡ true → contains p (join s t) ≡ true
unfolding contains
contains-join p String.[] t h = rw nil-append h
contains-join p (String.◌∷◌ c s) t h = rw (cons-append, contains-join p s t h) (ground arith)
