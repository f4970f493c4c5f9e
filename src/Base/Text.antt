-- ===== src/Base/Text.antt =====
-- What the backend asks of texts: `lower`, on the letters of ASCII (backend/app/schemas/ioc.py), what
-- a text begins with, ends with and has in it (backend/app/agents/state.py,
-- backend/app/engines/detection/rules.py), and `sep.join`.
use Prim.Native.Nat.{ℕ, zero, suc, ◌-◌, ◌<◌}
use native.Mathlib.Omega.{arith}
use mathlib.Core.Logic.{inl, inr}
use Prim.Native.String.{String, char_at, ◌++◌ as cat}
use Prim.Native.Char.{Char, code}
use mathlib.Core.Path.{◌≡◌, refl, ap, sym, ◌∙◌}
use mathlib.Core.Bool.{Bool, true, false, not, ◌&&◌, ◌||◌}
use mathlib.Core.List.{List, [], ◌∷◌}
use text.Mathlib.Text.{◌==◌}
use ai_powered_security_inve.Base.Tests.{if◌then◌else◌, eqb, leb, Bool-cases}

abbrev letters : String
letters = "abcdefghijklmnopqrstuvwxyz"

abbrev lower_char : Char → Char
lower_char c = if leb 65 (code c) && leb (code c) 90 then char_at letters (code c - 65) else c

unfoldable pub lower : String → String
lower String.[] = ""
lower (String.◌∷◌ c s) = String.◌∷◌ (lower_char c) (lower s)

abbrev pub begins_with : String → String → Bool
begins_with String.[] s = true
begins_with (String.◌∷◌ c w) String.[] = false
begins_with (String.◌∷◌ c w) (String.◌∷◌ d s) = eqb (code c) (code d) && begins_with w s

-- `word in s`
unfoldable pub occurs_in : String → String → Bool
occurs_in word String.[] = begins_with word ""
occurs_in word (String.◌∷◌ c s) = begins_with word (String.◌∷◌ c s) || occurs_in word s

phish_found : occurs_in "phish" (lower "Reported PHISHING mail") ≡ true
unfolding occurs_in lower
phish_found = refl

-- `s.endswith(word)`
unfoldable pub ends_with : String → String → Bool
ends_with word String.[] = word == ""
ends_with word (String.◌∷◌ c s) = word == String.◌∷◌ c s || ends_with word s

-- `len(s)`
unfoldable pub text_length : String → ℕ
text_length String.[] = 0
text_length (String.◌∷◌ c s) = suc (text_length s)

-- `s[:n]`
unfoldable pub take_text : ℕ → String → String
take_text zero s = ""
take_text (suc n) String.[] = ""
take_text (suc n) (String.◌∷◌ c s) = String.◌∷◌ c (take_text n s)

-- `sep.join(xs)`
unfoldable pub join : String → List String → String
join sep [] = ""
join sep (x ∷ []) = x
join sep (x ∷ y ∷ xs) = cat x (cat sep (join sep (y ∷ xs)))

-- the letters that `lower` puts are not lowered again
all_below : ℕ → (ℕ → Bool) → Bool
all_below zero p = true
all_below (suc n) p = p n && all_below n p

all_below-true : (k : ℕ) (p : ℕ → Bool) (n : ℕ) → n < k → all_below k p ≡ true → p n ≡ true
unfolding all_below
all_below-true zero p n l h = ground arith
all_below-true (suc k) p n l h = ground (arith, all_below-true k p n)

abbrev is_upper : Char → Bool
is_upper c = leb 65 (code c) && leb (code c) 90

letters_lower : all_below 26 (λ n. not (is_upper (char_at letters n))) ≡ true
unfolding all_below
letters_lower = refl

lower_char_twice : (c : Char) → lower_char (lower_char c) ≡ lower_char c
lower_char_twice c = elim (Bool-cases (is_upper c)) [
  | inl t ↦
      let d : Char = char_at letters (code c - 65) in
      let e : lower_char c ≡ d = rw t refl in
      let plain : not (is_upper d) ≡ true =
        all_below-true 26 (λ n. not (is_upper (char_at letters n))) (code c - 65) (ground arith)
          letters_lower in
      let f : is_upper d ≡ false = ground arith in
      let stays : lower_char d ≡ d = rw f refl in ap lower_char e ∙ stays ∙ sym e
  | inr f ↦ let e : lower_char c ≡ c = rw f refl in ap lower_char e
]

pub lower-lower : (s : String) → lower (lower s) ≡ lower s
unfolding lower
lower-lower String.[] = refl
lower-lower (String.◌∷◌ c s) = λ i. String.◌∷◌ (lower_char_twice c i) (lower-lower s i)
