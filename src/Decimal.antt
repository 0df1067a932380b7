-- ===== src/Decimal.antt =====
-- `strconv.FormatInt` and `strconv.ParseInt` in base 10 and 64 bits.
use Prim.Native.Char.{code}
use complytime_core.Prelude.{
  All, ℕ, zero, suc, ◌+◌, ◌-◌, ◌*◌, ◌/◌, ◌%◌, ◌<◌, ◌≤◌, ◌≡◌, refl, ◌∙◌, ap, Bool, true, false, ◌&&◌,
  String, List, [], ◌∷◌, Option, none, some, arith, codes, nat_eq, nat_eq_iff, leb, ltb, Bool-cases,
  inl, inr, if◌then◌else◌, itoa, itoa_loop, decimal_digit, passes_under, passes_under_lem,
}

-- The integers, `negsuc n` is `- (n + 1)`.
pub data ℤ : Type 0 where
  pos : ℕ → ℤ
  negsuc : ℕ → ℤ

abbrev is_digit : ℕ → Bool
is_digit c = leb b'0' c && leb c b'9'

-- The number of some digits, behind the digits so far.
unfoldable digits_value : ℕ → List ℕ → Option ℕ
digits_value acc [] = some acc
digits_value acc (c ∷ l) =
    let rest = digits_value (acc * 10 + (c - b'0')) l in if is_digit c then rest else none

-- A text without digits is no number.
abbrev unsigned : List ℕ → Option ℕ
unsigned [] = none
unsigned (c ∷ l) = digits_value 0 (c ∷ l)

abbrev pub max_int64 : ℕ
max_int64 = 9_223_372_036_854_775_807

-- A syntax error gives 0, and a number out of range the last one in it: the value that the call returns
-- beside its error.
abbrev positive : Option ℕ → ℤ
positive none = pos 0
positive (some n) = if leb n max_int64 then pos n else pos max_int64

abbrev negative : Option ℕ → ℤ
negative none = pos 0
negative (some zero) = pos 0
negative (some (suc n)) = if leb n max_int64 then negsuc n else negsuc max_int64

unfoldable pub parse_int : List ℕ → ℤ
unfolding digits_value
parse_int [] = pos 0
parse_int (c ∷ l) =
    if nat_eq c b'-'
    then negative (unsigned l)
    else if nat_eq c b'+'
    then positive (unsigned l)
    else positive (unsigned (c ∷ l))

abbrev reads : ℕ → Bool
reads n = nat_eq (code (decimal_digit n)) (b'0' + n)

digits_read : passes_under reads 10 ≡ true
unfolding passes_under
digits_read = refl

decimal_digit-code : (n : ℕ) → n < 10 → code (decimal_digit n) ≡ b'0' + n
decimal_digit-code n small =
    (nat_eq_iff (code (decimal_digit n)) (b'0' + n)).0
      (passes_under_lem reads 10 n small digits_read)

digits_value-digit :
    (acc n : ℕ) (s : String)
    → n < 10
    → digits_value acc (codes (String.◌∷◌ (decimal_digit n) s))
      ≡ digits_value (acc * 10 + n) (codes s)
unfolding digits_value
digits_value-digit acc n s small =
    let e = decimal_digit-code n small in
    let yes : is_digit (b'0' + n) ≡ true = ground arith in
    let same : b'0' + n - b'0' ≡ n = omega arith in
    rw (e, yes) (ap (λ k. digits_value (acc * 10 + k) (codes s)) same)

digits_value-itoa_loop :
    (fuel n : ℕ) (s : String)
    → n < fuel
    → digits_value 0 (codes (itoa_loop fuel n s)) ≡ digits_value n (codes s)
unfolding itoa_loop
digits_value-itoa_loop zero n s h = absurd (omega arith)
digits_value-itoa_loop (suc fuel) n s h = elim (Bool-cases (ltb n 10)) [
  | inl e ↦
      let same : 0 * 10 + n ≡ n = omega arith in
      rw e (digits_value-digit 0 n s (ground arith) ∙ ap (λ k. digits_value k (codes s)) same)
  | inr e ↦
      let big : 9 < n = ground arith in
      let less : n / 10 < fuel = omega arith in
      let whole : n / 10 * 10 + n % 10 ≡ n = omega arith in
      rw e (
        digits_value-itoa_loop fuel (n / 10) (String.◌∷◌ (decimal_digit (n % 10)) s) less
        ∙ digits_value-digit (n / 10) (n % 10) s (omega arith)
        ∙ ap (λ k. digits_value k (codes s)) whole)
]

digits_value-itoa : (n : ℕ) → digits_value 0 (codes (itoa n)) ≡ some n
unfolding itoa digits_value
digits_value-itoa n = digits_value-itoa_loop (suc n) n "" (omega arith)

-- Digits are bytes.
digits-bytes : (acc n : ℕ) (l : List ℕ) → digits_value acc l ≡ some n → All (λ c. c < 256) l
unfolding digits_value
digits-bytes acc n [] h = tt
digits-bytes acc n (c ∷ l) h = elim (Bool-cases (is_digit c)) [
  | inl e ↦ (ground arith, digits-bytes (acc * 10 + (c - b'0')) n l (rw e at h))
  | inr e ↦ absurd (ground (arith, e))
]

parse_int-digits :
    (n : ℕ) (l : List ℕ) → digits_value 0 l ≡ some n → n ≤ max_int64 → parse_int l ≡ pos n
unfolding parse_int digits_value
parse_int-digits n [] h small = cc h
parse_int-digits n (c ∷ l) h small = elim (Bool-cases (is_digit c)) [
  | inr e ↦ absurd (ground (arith, e))
  | inl e ↦
      let minus : nat_eq c b'-' ≡ false = ground arith in
      let plus : nat_eq c b'+' ≡ false = ground arith in
      let fits : leb n max_int64 ≡ true = ground arith in rw (minus, plus, h, fits) refl
]

pub itoa-bytes : (n : ℕ) → All (λ c. c < 256) (codes (itoa n))
itoa-bytes n = digits-bytes 0 n (codes (itoa n)) (digits_value-itoa n)

-- A number that is printed and parsed is the same number, if 64 bits hold it.
pub parse_int-itoa : (n : ℕ) → n ≤ max_int64 → parse_int (codes (itoa n)) ≡ pos n
parse_int-itoa n small = parse_int-digits n (codes (itoa n)) (digits_value-itoa n) small
