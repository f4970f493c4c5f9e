-- ===== src/Accounts/Limits.antt =====
-- The rate limit of backend/app/api/v1/routes/auth.py over sequences of attempts.
use mathlib.Core.Path.{subst}
use ai_powered_security_inve.Base.{
  ℕ, ◌+◌, ◌≤◌, String, Bool, true, false, ◌&&◌, List, [], ◌∷◌, ◌++◌, ◌≡◌, refl, sym, ap, ◌∙◌,
  if◌then◌else◌, ◌==◌, ltb, leb, keep, length, arith, eq_iff, eq_refl, Bool-cases, inl, inr,
}
use ai_powered_security_inve.Base.Dict.{Dict, lookup, insert, lookup-insert}
use ai_powered_security_inve.Base.Exec.{Result, ok, err}
use ai_powered_security_inve.Accounts.Routes.{
  rate_limit, window_seconds, HttpException, window_of, recent, throttle,
}

abbrev pub is_ok : {A : Type 0} → Result HttpException A → Bool
is_ok (ok _) = true
is_ok (err _) = false

-- the times at which attempts of a caller were let through, of attempts by callers at times
unfoldable pub attempts : String → List (String × ℕ) → Dict (List ℕ) → List ℕ
attempts ip [] hits = []
attempts ip ((caller, now) ∷ events) hits =
    let rest = attempts ip events (throttle caller now hits).1 in
    if (caller == ip) && is_ok (throttle caller now hits).0 then now ∷ rest else rest

-- The times do not go back.
abbrev pub IsOrdered : ℕ → List (String × ℕ) → Type 0
IsOrdered last [] = Unit
IsOrdered last ((_, now) ∷ events) = (last ≤ now) × IsOrdered now events

-- the time is in the window that begins at `a`
abbrev pub in_window : ℕ → ℕ → Bool
in_window a t = leb a t && ltb t (a + window_seconds)

abbrev is_recent : ℕ → ℕ → Bool
is_recent now t = ltb now (t + window_seconds)

abbrev count : (ℕ → Bool) → List ℕ → ℕ
count p xs = length (keep p xs)

count-append : (p : ℕ → Bool) (xs ys : List ℕ) → count p (xs ++ ys) ≡ count p xs + count p ys
count-append p [] ys = omega arith
count-append p (x ∷ xs) ys = ground (arith, count-append p xs ys)

count_mono :
    (p q : ℕ → Bool) (xs : List ℕ) → ((x : ℕ) → p x ≡ true → q x ≡ true) → count p xs ≤ count q xs
count_mono p q [] h = omega arith
count_mono p q (x ∷ xs) h = ground (arith, h x, count_mono p q xs h)

-- a filter that a narrower test does not notice
count-keep :
    (p q : ℕ → Bool) (xs : List ℕ)
    → ((x : ℕ) → p x ≡ true → q x ≡ true)
    → count p (keep q xs) ≡ count p xs
count-keep p q [] h = refl
count-keep p q (x ∷ xs) h = ground (arith, h x, count-keep p q xs h)

-- what the stored window says of the attempts that were let through
record Covers (past window : List ℕ) (last : ℕ) : Type 0 where
  same : (now : ℕ) → last ≤ now → count (is_recent now) past ≡ count (is_recent now) window
  bounded : (a : ℕ) → count (in_window a) past ≤ rate_limit

module _ (past window : List ℕ) (last now : ℕ) (c : Covers past window last)
    (later : last ≤ now) where
  Covers-recent : Covers past (recent now window) now
  unfolding recent
  Covers-recent = record {
    same = λ now' h.
        c.same now' (ground arith)
        ∙ sym (count-keep (is_recent now') (is_recent now) window (λ t r. ground arith));
    bounded = c.bounded;
  }

  Covers-accepted :
      leb rate_limit (length (recent now window)) ≡ false
      → Covers (past ++ now ∷ []) (recent now window ++ now ∷ []) now
  unfolding recent
  Covers-accepted h = record {
    same = λ now' k.
        let e : count (is_recent now') past ≡ count (is_recent now') (keep (is_recent now) window) =
          Covers-recent.same now' k in
        count-append (is_recent now') past (now ∷ [])
        ∙ rw e (sym (count-append (is_recent now') (keep (is_recent now) window) (now ∷ [])));
    bounded = λ a.
        let e : count (is_recent now) past ≡ count (is_recent now) window = c.same now later in
        let b : count (in_window a) past ≤ rate_limit = c.bounded a in
        let n : count (in_window a) (past ++ now ∷ [])
            ≡ count (in_window a) past + count (in_window a) (now ∷ []) =
          count-append (in_window a) past (now ∷ []) in
        elim (Bool-cases (in_window a now)) [
          | inl i ↦
              let m : count (in_window a) past ≤ count (is_recent now) past =
                count_mono (in_window a) (is_recent now) past (λ t r. ground arith) in
              ground arith
          | inr f ↦ ground arith
        ];
  }

window-insert :
    (caller ip : String) (window : List ℕ) (hits : Dict (List ℕ))
    → window_of (lookup ip (insert caller window hits))
      ≡ (if caller == ip then window else window_of (lookup ip hits))
window-insert caller ip window hits = ground (arith, lookup-insert caller ip window hits)

own-insert :
    (ip : String) (window : List ℕ) (hits : Dict (List ℕ))
    → window_of (lookup ip (insert ip window hits)) ≡ window
own-insert ip window hits = window-insert ip ip window hits ∙ rw (eq_refl ip) refl

other-insert :
    (caller ip : String) (window : List ℕ) (hits : Dict (List ℕ))
    → (caller == ip) ≡ false
    → window_of (lookup ip hits) ≡ window_of (lookup ip (insert caller window hits))
other-insert caller ip window hits f = sym (window-insert caller ip window hits ∙ rw f refl)

step-Covers :
    (ip : String) (past : List ℕ) (last now : ℕ) (hits : Dict (List ℕ))
    → last ≤ now
    → Covers past (window_of (lookup ip hits)) last
    → Covers
        (if is_ok (throttle ip now hits).0 then past ++ now ∷ [] else past)
        (window_of (lookup ip (throttle ip now hits).1))
        now
unfolding throttle
step-Covers ip past last now hits later c =
    let window : List ℕ = window_of (lookup ip hits) in
    elim (Bool-cases (leb rate_limit (length (recent now window)))) [
      | inl t ↦ rw t (
          subst (λ w. Covers past w now) (sym (own-insert ip (recent now window) hits))
            (Covers-recent past window last now c later))
      | inr f ↦ rw f (
          subst (λ w. Covers (past ++ now ∷ []) w now)
            (sym (own-insert ip (recent now window ++ now ∷ []) hits))
            (Covers-accepted past window last now c later f))
    ]

other-Covers :
    (caller ip : String) (past : List ℕ) (last now : ℕ) (hits : Dict (List ℕ))
    → (caller == ip) ≡ false
    → last ≤ now
    → Covers past (window_of (lookup ip hits)) last
    → Covers past (window_of (lookup ip (throttle caller now hits).1)) now
unfolding throttle
other-Covers caller ip past last now hits f later c =
    let kept : Covers past (window_of (lookup ip hits)) now = record {
      same = λ n h. c.same n (ground arith);
      bounded = c.bounded;
    } in
    let window : List ℕ = window_of (lookup caller hits) in
    elim (Bool-cases (leb rate_limit (length (recent now window)))) [
      | inl t ↦
          rw t (
            subst (λ w. Covers past w now) (other-insert caller ip (recent now window) hits f) kept)
      | inr t ↦ rw t (
          subst (λ w. Covers past w now)
            (other-insert caller ip (recent now window ++ now ∷ []) hits f) kept)
    ]

append-cons : (xs : List ℕ) (x : ℕ) (ys : List ℕ) → (xs ++ x ∷ []) ++ ys ≡ xs ++ x ∷ ys
append-cons [] x ys = refl
append-cons (y ∷ xs) x ys = ap (λ zs. y ∷ zs) (append-cons xs x ys)

append-nil : (xs : List ℕ) → xs ++ [] ≡ xs
append-nil [] = refl
append-nil (x ∷ xs) = ap (λ zs. x ∷ zs) (append-nil xs)

attempts-Covers :
    (ip : String) (a : ℕ) (events : List (String × ℕ)) (past : List ℕ) (last : ℕ)
    (hits : Dict (List ℕ))
    → IsOrdered last events
    → Covers past (window_of (lookup ip hits)) last
    → count (in_window a) (past ++ attempts ip events hits) ≤ rate_limit
unfolding attempts
attempts-Covers ip a [] past last hits o c = rw (append-nil past) (c.bounded a)
attempts-Covers ip a ((caller, now) ∷ events) past last hits o c =
    elim (Bool-cases (caller == ip)) [
      | inr f ↦ rw f (
          attempts-Covers ip a events past now (throttle caller now hits).1 o.1
            (other-Covers caller ip past last now hits f o.0 c))
      | inl t ↦
          let own : Covers (if is_ok (throttle caller now hits).0 then past ++ now ∷ [] else past)
              (window_of (lookup ip (throttle caller now hits).1)) now =
            subst
              (λ z.
                Covers (if is_ok (throttle z now hits).0 then past ++ now ∷ [] else past)
                  (window_of (lookup ip (throttle z now hits).1)) now)
              (sym ((eq_iff caller ip).0 t)) (step-Covers ip past last now hits o.0 c) in
          rw t (elim (Bool-cases (is_ok (throttle caller now hits).0)) [
            | inl y ↦ rw y (
                subst (λ xs. count (in_window a) xs ≤ rate_limit)
                  (append-cons past now (attempts ip events (throttle caller now hits).1))
                  (attempts-Covers ip a events (past ++ now ∷ []) now (throttle caller now hits).1
                    o.1
                    (subst
                      (λ b.
                        Covers (if b then past ++ now ∷ [] else past)
                          (window_of (lookup ip (throttle caller now hits).1)) now)
                      y own)))
            | inr n ↦ rw n (
                attempts-Covers ip a events past now (throttle caller now hits).1 o.1 (
                  subst
                    (λ b.
                      Covers (if b then past ++ now ∷ [] else past)
                        (window_of (lookup ip (throttle caller now hits).1)) now)
                    n own))
          ])
    ]

-- However the attempts at the routes that sign in follow one another, as long as the clock does not go back,
-- no window of the length of the limit has more than ten attempts of one caller that are let through.
pub attempts_bounded :
    (ip : String) (a : ℕ) (events : List (String × ℕ))
    → IsOrdered 0 events
    → length (keep (in_window a) (attempts ip events [])) ≤ rate_limit
unfolding lookup
attempts_bounded ip a events o =
    attempts-Covers ip a events [] 0 [] o
      (record { same = λ n h. refl; bounded = λ b. omega arith })
