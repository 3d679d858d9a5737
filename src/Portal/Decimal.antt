-- ===== src/Portal/Decimal.antt =====
-- The number of workers in a request is read back as the number that was asked for.
use Prim.Native.Nat.{◌/◌, ◌%◌}
use Prim.Native.String.append.{nil, cons}
use Prim.Native.Char.{Char, code}
use auto_repair.Common.{
  ℕ, zero, suc, ◌+◌, ◌-◌, ◌*◌, ◌≤◌, ◌<◌, String, ◌<>◌, Bool, true, ◌≡◌, refl, sym, ap, ◌∙◌, arith,
  List, length, ltb, if◌then◌else◌, ◌==◌, inl, inr, Bool-cases,
}
use auto_repair.Common.Int.{ℤ, pos}
use auto_repair.Settings.{atoi, parse_uint, parse_uint_loop, number, positive, negative}
use auto_repair.Portal.{Target, digit, itoa_loop, itoa, up_request, down_request}

-- The largest `int` of 64 bits.
abbrev pub max_int : ℕ
max_int = 9_223_372_036_854_775_807

-- The text begins with a decimal digit.
abbrev BeginsWithDigit : String → Type 0
BeginsWithDigit String.[] = ⊥
BeginsWithDigit (String.◌∷◌ c s) = (b'0' ≤ code c) × (code c ≤ b'9')

one_char : (c : Char) (s : String) → String.◌∷◌ c String.[] <> s ≡ String.◌∷◌ c s
one_char c s = (λ i. cons c String.[] s i) ∙ ap (λ r. String.◌∷◌ c r) (λ i. nil s i)

parse_digit :
    (c : Char) (s : String) (m : ℕ)
    → b'0' ≤ code c
    → code c ≤ b'9'
    → m * 10 + (code c - b'0') ≤ max_int
    → parse_uint_loop (String.◌∷◌ c s) m ≡ parse_uint_loop s (m * 10 + (code c - b'0'))
unfolding parse_uint_loop
parse_digit c s m low high fits = ground arith

-- A digit is one character, of its value.
abbrev Shows : String → ℕ → Type 0
Shows t d =
    (s : String)
    → (c : Char) × (t <> s ≡ String.◌∷◌ c s)
      × (b'0' ≤ code c)
      × (code c ≤ b'9')
      × (code c - b'0' ≡ d)

digit-Shows : (d : ℕ) → d < 10 → Shows (digit d) d
unfolding digit
digit-Shows zero h s = ("0", one_char "0" s, omega arith, omega arith, refl)
digit-Shows (suc zero) h s = ("1", one_char "1" s, omega arith, omega arith, refl)
digit-Shows (suc (suc zero)) h s = ("2", one_char "2" s, omega arith, omega arith, refl)
digit-Shows (suc (suc (suc zero))) h s = ("3", one_char "3" s, omega arith, omega arith, refl)
digit-Shows (suc (suc (suc (suc zero)))) h s = ("4", one_char "4" s, omega arith, omega arith, refl)
digit-Shows (suc (suc (suc (suc (suc zero))))) h s =
    ("5", one_char "5" s, omega arith, omega arith, refl)
digit-Shows (suc (suc (suc (suc (suc (suc zero)))))) h s =
    ("6", one_char "6" s, omega arith, omega arith, refl)
digit-Shows (suc (suc (suc (suc (suc (suc (suc zero))))))) h s =
    ("7", one_char "7" s, omega arith, omega arith, refl)
digit-Shows (suc (suc (suc (suc (suc (suc (suc (suc zero)))))))) h s =
    ("8", one_char "8" s, omega arith, omega arith, refl)
digit-Shows (suc (suc (suc (suc (suc (suc (suc (suc (suc zero))))))))) h s =
    ("9", one_char "9" s, omega arith, omega arith, refl)
digit-Shows (suc (suc (suc (suc (suc (suc (suc (suc (suc (suc n)))))))))) h s =
    absurd (omega (arith, h))

parse_shown :
    (t s : String) (d m : ℕ)
    → Shows t d
    → m * 10 + d ≤ max_int
    → (parse_uint_loop (t <> s) m ≡ parse_uint_loop s (m * 10 + d)) × BeginsWithDigit (t <> s)
parse_shown t s d m shows fits =
    let (c, e, low, high, value) = shows s in
    rw (e, sym value) (parse_digit c s m low high (rw value fits), (low, high))

-- Reading the print of `n` before `s` is reading `s` after `n`.
read_back :
    (f n : ℕ) (s : String)
    → n < f
    → n ≤ max_int
    → (parse_uint_loop (itoa_loop f n s) 0 ≡ parse_uint_loop s n)
      × BeginsWithDigit (itoa_loop f n s)
unfolding itoa_loop
read_back zero n s h fits = absurd (omega (arith, h))
read_back (suc f) n s h fits = elim (Bool-cases (ltb n 10)) [
  | inl small ↦ rw small (
      let (parsed, begins) =
        parse_shown (digit n) s n 0 (digit-Shows n (ground arith)) (omega (arith, fits)) in
      (parsed ∙ ap (parse_uint_loop s) (omega arith), begins))
  | inr large ↦ rw large (
      let (parsed, begins) =
        read_back f (n / 10) (digit (n % 10) <> s) (ground arith) (omega (arith, fits)) in
      let (last, _) =
        parse_shown (digit (n % 10)) s (n % 10) (n / 10) (digit-Shows (n % 10) (omega arith))
          (omega (arith, fits)) in
      (parsed ∙ last ∙ ap (parse_uint_loop s) (omega arith), begins))
]

parse_uint-cons :
    (c : Char) (s : String) → parse_uint (String.◌∷◌ c s) ≡ parse_uint_loop (String.◌∷◌ c s) 0
unfolding parse_uint
parse_uint-cons c s = refl

positive-number : (n : ℕ) → n ≤ max_int → positive (number n) ≡ (pos n, true)
positive-number n fits = ground arith

atoi_of_loop :
    (s : String) (n : ℕ)
    → BeginsWithDigit s
    → parse_uint_loop s 0 ≡ number n
    → n ≤ max_int
    → atoi s ≡ (pos n, true)
unfolding atoi
atoi_of_loop String.[] n h e fits = absurd h
atoi_of_loop (String.◌∷◌ c s) n (low, high) e fits =
    no_sign (code c) low _ (ap positive (parse_uint-cons c s ∙ e) ∙ positive-number n fits)
  where
    no_sign :
        (k : ℕ)
        → b'0' ≤ k
        → (r : ℤ × Bool) → r ≡ (pos n, true)
        → (if k == b'-'
            then negative (parse_uint s)
            else if k == b'+'
            then positive (parse_uint s)
            else r)
          ≡ (pos n, true)
    no_sign k low r e = ground arith

parse_nothing : (n : ℕ) → parse_uint_loop String.[] n ≡ number n
unfolding parse_uint_loop
parse_nothing n = refl

-- strconv.Atoi reads back what strconv.Itoa prints.
atoi-itoa : (n : ℕ) → n ≤ max_int → atoi (itoa n) ≡ (pos n, true)
unfolding itoa
atoi-itoa n fits =
    let (parsed, begins) = read_back (suc n) n String.[] (omega arith) fits in
    atoi_of_loop (itoa_loop (suc n) n String.[]) n begins (parsed ∙ parse_nothing n) fits

-- The number of workers in the body of a request reads back as what was asked for: for a request of
-- more workers the number, for one that removes workers how many there are, up to the largest int.
pub worker_count-atoi :
    (x : Target) (n : ℕ) (names : List String)
    → n ≤ max_int
    → length names ≤ max_int
    → (atoi (up_request x n).worker_count ≡ (pos n, true))
      × (atoi (down_request x names).worker_count ≡ (pos (length names), true))
worker_count-atoi x n names h g = (atoi-itoa n h, atoi-itoa (length names) g)
