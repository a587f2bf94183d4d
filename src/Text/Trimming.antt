-- ===== src/Text/Trimming.antt =====
-- Trimming a text twice is trimming it once.
use multi_tenant_agent_platf.Prelude.{◌≡◌, refl, String, false, ◌&&◌, inl, inr, Bool-cases}
use multi_tenant_agent_platf.Text.{is_empty_text, is_whitespace, trim_start, trim_end, trim}

trim_end_idem : (s : String) → trim_end (trim_end s) ≡ trim_end s
unfolding trim_end
trim_end_idem String.[] = refl
trim_end_idem (String.◌∷◌ c s) = elim (Bool-cases (is_whitespace c && is_empty_text (trim_end s))) [
  | inl e ↦ rw e refl
  | inr e ↦ rw e (rw (trim_end_idem s, e) refl)
]

-- A text that does not start with a blank.
abbrev StartsSolid : String → Type 0
StartsSolid String.[] = Unit {0}
StartsSolid (String.◌∷◌ c s) = is_whitespace c ≡ false

trim_start-StartsSolid : (s : String) → StartsSolid (trim_start s)
unfolding trim_start
trim_start-StartsSolid String.[] = tt
trim_start-StartsSolid (String.◌∷◌ c s) = elim (Bool-cases (is_whitespace c)) [
  | inl e ↦ rw e (trim_start-StartsSolid s)
  | inr e ↦ rw e e
]

trim_end-StartsSolid : (s : String) → StartsSolid s → StartsSolid (trim_end s)
unfolding trim_end
trim_end-StartsSolid String.[] h = tt
trim_end-StartsSolid (String.◌∷◌ c s) h = rw h h

trim_start_of_StartsSolid : (s : String) → StartsSolid s → trim_start s ≡ s
unfolding trim_start
trim_start_of_StartsSolid String.[] h = refl
trim_start_of_StartsSolid (String.◌∷◌ c s) h = rw h refl

-- Trimming twice is trimming once, whatever the text: the names and prompts that are stored are trimmed.
pub trim_idem : (s : String) → trim (trim s) ≡ trim s
unfolding trim
trim_idem s =
    rw
      (trim_start_of_StartsSolid (trim_end (trim_start s))
        (trim_end-StartsSolid (trim_start s) (trim_start-StartsSolid s)))
      (trim_end_idem (trim_start s))
