-- ===== src/Accounts/Passwords.antt =====
-- `hash_password` and `verify_password` of backend/app/core/accounts.py. The key derivation and the hex
-- texts of bytes are a library's; the count of iterations in a stored hash is a row of digits.
use Prim.Native.String.{◌++◌ as cat}
use Prim.Native.String.append.{cons, nil}
use Prim.Native.Char.{Char, char, code}
use ai_powered_security_inve.Base.{
  ℕ, ◌+◌, ◌-◌, ◌*◌, String, Option, none, some, Bool, false, not, ◌&&◌, ◌||◌, List, [], ◌∷◌, ◌≡◌,
  refl, ap, ◌∙◌, if◌then◌else◌, ◌==◌, eqb, leb, arith,
}
use ai_powered_security_inve.Base.Decimal.{decimal, digit}

-- `bytes.hex`, `bytes.fromhex` and `hashlib.pbkdf2_hmac` with SHA-256
pub record Hashing : Type 1 where
  pub Bytes : Type 0
  pub hex : Bytes → String
  pub fromhex : String → Option Bytes
  pub pbkdf2_hmac : String → Bytes → ℕ → Bytes

abbrev pub iterations : ℕ
iterations = 390000

abbrev pub is_dollar : Char → Bool
is_dollar c = eqb (code c) 36

-- a character put before the first part of a split text
abbrev pub before_first : Char → List String → List String
before_first c [] = String.◌∷◌ c "" ∷ []
before_first c (w ∷ ws) = String.◌∷◌ c w ∷ ws

-- `s.split("$")`
unfoldable pub split : String → List String
split String.[] = "" ∷ []
split (String.◌∷◌ c s) =
    let rest = split s in if is_dollar c then "" ∷ rest else before_first c rest

unfoldable pub has_dollar : String → Bool
has_dollar String.[] = false
has_dollar (String.◌∷◌ c s) = is_dollar c || has_dollar s

abbrev pub is_digit : Char → Bool
is_digit c = leb 48 (code c) && leb (code c) 57

-- the number that a row of digits continues
unfoldable pub digits_from : ℕ → String → Option ℕ
digits_from n String.[] = some n
digits_from n (String.◌∷◌ c s) =
    let rest = digits_from (n * 10 + (code c - 48)) s in if is_digit c then rest else none

-- `int(s)`
unfoldable pub int : String → Option ℕ
int s = if s == "" then none else digits_from 0 s

module _ (h : Hashing) where
  -- `hash_password` with the salt that it draws
  unfoldable pub hash_password : h.Bytes → String → String
  hash_password salt password = cat "pbkdf2" (
      cat "$" (
        cat (decimal iterations)
          (cat "$" (cat (h.hex salt) (cat "$" (h.hex (h.pbkdf2_hmac password salt iterations)))))))

  -- the digests compared; `pbkdf2_hmac` refuses a count of 0
  abbrev pub compare_digest : String → String → Option h.Bytes → Option ℕ → Bool
  compare_digest password hash_hex (some salt) (some n) =
      not (eqb n 0) && h.hex (h.pbkdf2_hmac password salt n) == hash_hex
  compare_digest password hash_hex (some salt) none = false
  compare_digest password hash_hex none n = false

  abbrev pub verify_parts : String → List String → Bool
  verify_parts password (scheme ∷ iterations ∷ salt_hex ∷ hash_hex ∷ []) =
      compare_digest password hash_hex (h.fromhex salt_hex) (int iterations)
  verify_parts password [] = false
  verify_parts password (_ ∷ []) = false
  verify_parts password (_ ∷ _ ∷ []) = false
  verify_parts password (_ ∷ _ ∷ _ ∷ []) = false
  verify_parts password (_ ∷ _ ∷ _ ∷ _ ∷ _ ∷ _) = false

  unfoldable pub verify_password : String → String → Bool
  verify_password password stored = verify_parts password (split stored)

abbrev dollar : Char
dollar = char 36 tt

cat-dollar : (s : String) → cat "$" s ≡ String.◌∷◌ dollar s
cat-dollar s = (λ i. cons dollar "" s i) ∙ ap (String.◌∷◌ dollar) (λ i. nil s i)

-- the first part of a text up to a dollar sign
split-cat : (w s : String) → has_dollar w ≡ false → split (cat w (cat "$" s)) ≡ w ∷ split s
unfolding split has_dollar
split-cat String.[] s h = ap split (λ i. nil (cat "$" s) i) ∙ ap split (cat-dollar s)
split-cat (String.◌∷◌ c w) s h =
    let here : is_dollar c ≡ false = ground arith in
    let rest : split (cat w (cat "$" s)) ≡ w ∷ split s = split-cat w s (ground arith) in
    ap split (λ i. cons c w (cat "$" s) i) ∙ rw here (ap (before_first c) rest)

split_whole : (w : String) → has_dollar w ≡ false → split w ≡ w ∷ []
unfolding split has_dollar
split_whole String.[] h = refl
split_whole (String.◌∷◌ c w) h =
    let here : is_dollar c ≡ false = ground arith in
    let rest : split w ≡ w ∷ [] = split_whole w (ground arith) in rw here (ap (before_first c) rest)

iterations_read : int (decimal iterations) ≡ some iterations
unfolding int digits_from decimal digit
iterations_read = refl

scheme_plain : has_dollar "pbkdf2" ≡ false
unfolding has_dollar
scheme_plain = refl

iterations_plain : has_dollar (decimal iterations) ≡ false
unfolding has_dollar decimal digit
iterations_plain = refl

-- Where a hex text is read back as its bytes and has no dollar sign in it, an attempt is accepted
-- against the hash of a password exactly if both have the same digest under the salt of the hash.
pub verify-hash_password :
    (h : Hashing)
    → ((b : h.Bytes) → h.fromhex (h.hex b) ≡ some b)
    → ((b : h.Bytes) → has_dollar (h.hex b) ≡ false)
    → (salt : h.Bytes) (password attempt : String)
    → verify_password h attempt (hash_password h salt password) ≡ (
        h.hex (h.pbkdf2_hmac attempt salt iterations)
        == h.hex (h.pbkdf2_hmac password salt iterations))
unfolding verify_password hash_password
verify-hash_password h read plain salt password attempt =
    let digest : String = h.hex (h.pbkdf2_hmac password salt iterations) in
    let parts : split (hash_password h salt password)
        ≡ "pbkdf2" ∷ decimal iterations ∷ h.hex salt ∷ digest ∷ [] =
      split-cat "pbkdf2" _ scheme_plain
      ∙ ap (λ ws. "pbkdf2" ∷ ws)
          (split-cat (decimal iterations) _ iterations_plain
            ∙ ap (λ ws. decimal iterations ∷ ws)
                (split-cat (h.hex salt) digest (plain salt)
                  ∙ ap (λ ws. h.hex salt ∷ ws)
                      (split_whole digest (plain (h.pbkdf2_hmac password salt iterations))))) in
    ap (verify_parts h attempt) parts ∙ rw (read salt, iterations_read) refl
