-- ===== src/Base64.antt =====
-- `base64.StdEncoding` of Go's encoding/base64, on texts as their code points.
use Prim.Native.Char.{code}
use Prim.Native.String.{char_at}
use complytime_core.Prelude.{
  ℕ, ◌+◌, ◌-◌, ◌*◌, ◌/◌, ◌%◌, ◌<◌, ◌≡◌, refl, Bool, true, false, ◌&&◌, ◌||◌, not, String, List, [],
  ◌∷◌, Option, none, some, arith, All, codes, nat_eq, nat_eq_iff, leb, ap, ◌∙◌, Option-cases, inl,
  inr, if◌then◌else◌, passes_under, passes_under_lem,
}
use complytime_core.Locker.Log.{Bytes}

abbrev alphabet : String
alphabet = "ABCDEFGHIJKLMNOPQRSTUVWXYZabcdefghijklmnopqrstuvwxyz0123456789+/"

-- The digit of six bits before a text.
abbrev digit : ℕ → String → String
digit n s = String.◌∷◌ (char_at alphabet n) s

abbrev padding : String → String
padding s = String.◌∷◌ "=" s

-- EncodeToString: three bytes are four digits.
unfoldable pub encode_to_string : Bytes → String
encode_to_string [] = ""
encode_to_string (a ∷ []) = digit (a / 4) (digit ((a % 4) * 16) (padding (padding "")))
encode_to_string (a ∷ b ∷ []) =
    digit (a / 4) (digit ((a % 4) * 16 + b / 16) (digit ((b % 16) * 4) (padding "")))
encode_to_string (a ∷ b ∷ c ∷ rest) = digit (a / 4) (
    digit ((a % 4) * 16 + b / 16)
      (digit ((b % 16) * 4 + c / 64) (digit (c % 64) (encode_to_string rest))))

-- The six bits of a digit.
unfoldable value : ℕ → Option ℕ
value c =
    if leb b'A' c && leb c b'Z'
    then some (c - b'A')
    else if leb b'a' c && leb c b'z'
    then some (c - b'a' + 26)
    else if leb b'0' c && leb c b'9'
    then some (c - b'0' + 52)
    else if nat_eq c b'+'
    then some 62
    else if nat_eq c b'/'
    then some 63
    else none

-- The bytes of two, three and four digits, as far as they are whole.
abbrev one_byte : Option ℕ → Option ℕ → Option Bytes
one_byte (some u) (some v) = some ((u * 4 + v / 16) ∷ [])
one_byte _ _ = none

abbrev two_bytes : Option ℕ → Option ℕ → Option ℕ → Option Bytes
two_bytes (some u) (some v) (some w) = some ((u * 4 + v / 16) ∷ ((v % 16) * 16 + w / 4) ∷ [])
two_bytes _ _ _ = none

abbrev three_bytes : Option ℕ → Option ℕ → Option ℕ → Option ℕ → Option Bytes → Option Bytes
three_bytes (some u) (some v) (some w) (some x) (some rest) =
    some ((u * 4 + v / 16) ∷ ((v % 16) * 16 + w / 4) ∷ ((w % 4) * 64 + x) ∷ rest)
three_bytes _ _ _ _ _ = none

abbrev is_last : List ℕ → Bool
is_last [] = true
is_last (c ∷ l) = false

unfoldable pub decode_digits : List ℕ → Option Bytes
unfolding value
decode_digits [] = some []
decode_digits (a ∷ []) = none
decode_digits (a ∷ b ∷ []) = none
decode_digits (a ∷ b ∷ c ∷ []) = none
decode_digits (a ∷ b ∷ c ∷ d ∷ rest) =
    let later = decode_digits rest in
    if nat_eq d b'='
    then if is_last rest
      then if nat_eq c b'='
        then one_byte (value a) (value b)
        else two_bytes (value a) (value b) (value c)
      else none
    else three_bytes (value a) (value b) (value c) (value d) later

-- Line breaks are skipped.
abbrev skip_breaks : List ℕ → List ℕ
skip_breaks [] = []
skip_breaks (c ∷ l) =
    let rest = skip_breaks l in if nat_eq c 10 || nat_eq c 13 then rest else c ∷ rest

-- DecodeString.
unfoldable pub decode_string : String → Option Bytes
unfolding decode_digits
decode_string s = decode_digits (skip_breaks (codes s))

abbrev is_digit : ℕ → ℕ → Bool
is_digit n c =
    elim (value c) as (λ _. Bool) [ none ↦ false | some v ↦ nat_eq v n ]
    && (not (nat_eq c b'=') && not (nat_eq c 10 || nat_eq c 13))

digits_are_digits : passes_under (λ n. is_digit n (code (char_at alphabet n))) 64 ≡ true
unfolding passes_under value
digits_are_digits = refl

-- What the decoding reads of a digit.
record IsDigit (n c : ℕ) : Type 0 where
  pub has_value : value c ≡ some n
  pub no_padding : nat_eq c b'=' ≡ false
  pub no_break : (nat_eq c 10 || nat_eq c 13) ≡ false

is_digit-IsDigit : (n c : ℕ) → is_digit n c ≡ true → IsDigit n c
is_digit-IsDigit n c h = elim (Option-cases (value c)) [
  | inl e ↦ absurd (ground (arith, e))
  | inr (v, e) ↦ record {
    has_value = e ∙ ap some ((nat_eq_iff v n).0 (ground (arith, e)));
    no_padding = ground (arith, e);
    no_break = ground (arith, e);
  }
]

value-alphabet : (n : ℕ) → n < 64 → IsDigit n (code (char_at alphabet n))
value-alphabet n small =
    is_digit-IsDigit n (code (char_at alphabet n))
      (passes_under_lem (λ k. is_digit k (code (char_at alphabet k))) 64 n small digits_are_digits)

abbrev code_of : ℕ → ℕ
code_of n = code (char_at alphabet n)

-- Decoding four digits, three and a padding, and two and two paddings.
decode_four :
    (u v w x : ℕ) (rest : List ℕ) (bytes : Bytes)
    → u < 64
    → v < 64
    → w < 64
    → x < 64
    → decode_digits rest ≡ some bytes
    → decode_digits (code_of u ∷ code_of v ∷ code_of w ∷ code_of x ∷ rest)
      ≡ three_bytes (some u) (some v) (some w) (some x) (some bytes)
unfolding decode_digits
decode_four u v w x rest bytes p q r s h =
    let a = value-alphabet u p in
    let b = value-alphabet v q in
    let c = value-alphabet w r in
    let d = value-alphabet x s in
    rw (d.no_padding, a.has_value, b.has_value, c.has_value, d.has_value, h) refl

decode_three :
    (u v w : ℕ)
    → u < 64
    → v < 64
    → w < 64
    → decode_digits (code_of u ∷ code_of v ∷ code_of w ∷ b'=' ∷ [])
      ≡ two_bytes (some u) (some v) (some w)
unfolding decode_digits
decode_three u v w p q r =
    let a = value-alphabet u p in
    let b = value-alphabet v q in
    let c = value-alphabet w r in rw (c.no_padding, a.has_value, b.has_value, c.has_value) refl

decode_two :
    (u v : ℕ)
    → u < 64
    → v < 64
    → decode_digits (code_of u ∷ code_of v ∷ b'=' ∷ b'=' ∷ []) ≡ one_byte (some u) (some v)
unfolding decode_digits
decode_two u v p q =
    let a = value-alphabet u p in let b = value-alphabet v q in rw (a.has_value, b.has_value) refl

-- Skipping line breaks leaves a digit where it is.
skip_digit :
    (n : ℕ) (s : String)
    → n < 64
    → skip_breaks (codes (digit n s)) ≡ code_of n ∷ skip_breaks (codes s)
skip_digit n s small = rw ((value-alphabet n small).no_break) refl

skip_four :
    (u v w x : ℕ) (s : String)
    → u < 64
    → v < 64
    → w < 64
    → x < 64
    → skip_breaks (codes (digit u (digit v (digit w (digit x s)))))
      ≡ code_of u ∷ code_of v ∷ code_of w ∷ code_of x ∷ skip_breaks (codes s)
skip_four u v w x s p q r t =
    skip_digit u (digit v (digit w (digit x s))) p
    ∙ ap (λ l. code_of u ∷ l)
        (skip_digit v (digit w (digit x s)) q
          ∙ ap (λ l. code_of v ∷ l)
              (skip_digit w (digit x s) r ∙ ap (λ l. code_of w ∷ l) (skip_digit x s t)))

three-same :
    (a b c : ℕ) (rest : Bytes)
    → a < 256
    → b < 256
    → c < 256
    → three_bytes
        (some (a / 4))
        (some ((a % 4) * 16 + b / 16))
        (some ((b % 16) * 4 + c / 64))
        (some (c % 64))
        (some rest)
      ≡ some (a ∷ b ∷ c ∷ rest)
three-same a b c rest p q r =
    let first : a / 4 * 4 + ((a % 4) * 16 + b / 16) / 16 ≡ a = omega arith in
    let second : (((a % 4) * 16 + b / 16) % 16) * 16 + ((b % 16) * 4 + c / 64) / 4 ≡ b =
      omega arith in
    let third : (((b % 16) * 4 + c / 64) % 4) * 64 + c % 64 ≡ c = omega arith in
    cc (first, second, third)

-- Bytes that are encoded and decoded are the same bytes.
pub decode_string-encode_to_string :
    (l : Bytes) → All (λ b. b < 256) l → decode_string (encode_to_string l) ≡ some l
unfolding decode_string encode_to_string
decode_string-encode_to_string [] h = refl
decode_string-encode_to_string (a ∷ []) h =
    let u : a / 4 < 64 = omega (arith, h.0) in
    let v : (a % 4) * 16 < 64 = omega arith in
    let first : a / 4 * 4 + ((a % 4) * 16) / 16 ≡ a = omega arith in
    ap decode_digits (
      skip_digit (a / 4) (digit ((a % 4) * 16) (padding (padding ""))) u
      ∙ ap (λ l. code_of (a / 4) ∷ l) (skip_digit ((a % 4) * 16) (padding (padding "")) v))
    ∙ decode_two (a / 4) ((a % 4) * 16) u v
    ∙ cc first
decode_string-encode_to_string (a ∷ b ∷ []) h =
    let u : a / 4 < 64 = omega (arith, h.0) in
    let v : (a % 4) * 16 + b / 16 < 64 = omega (arith, h.1.0) in
    let w : (b % 16) * 4 < 64 = omega arith in
    let first : a / 4 * 4 + ((a % 4) * 16 + b / 16) / 16 ≡ a = omega (arith, h.1.0) in
    let second : (((a % 4) * 16 + b / 16) % 16) * 16 + ((b % 16) * 4) / 4 ≡ b =
      omega (arith, h.1.0) in
    ap decode_digits (
      skip_digit (a / 4) (digit ((a % 4) * 16 + b / 16) (digit ((b % 16) * 4) (padding ""))) u
      ∙ ap (λ l. code_of (a / 4) ∷ l)
          (skip_digit ((a % 4) * 16 + b / 16) (digit ((b % 16) * 4) (padding "")) v
            ∙ ap (λ l. code_of ((a % 4) * 16 + b / 16) ∷ l)
                (skip_digit ((b % 16) * 4) (padding "") w)))
    ∙ decode_three (a / 4) ((a % 4) * 16 + b / 16) ((b % 16) * 4) u v w
    ∙ cc (first, second)
decode_string-encode_to_string (a ∷ b ∷ c ∷ rest) h =
    let before = decode_string-encode_to_string rest h.1.1.1 in
    let u : a / 4 < 64 = omega (arith, h.0) in
    let v : (a % 4) * 16 + b / 16 < 64 = omega (arith, h.1.0) in
    let w : (b % 16) * 4 + c / 64 < 64 = omega (arith, h.1.1.0) in
    let x : c % 64 < 64 = omega arith in
    let s = encode_to_string rest in
    ap decode_digits
      (skip_four (a / 4) ((a % 4) * 16 + b / 16) ((b % 16) * 4 + c / 64) (c % 64) s u v w x)
    ∙ decode_four (a / 4) ((a % 4) * 16 + b / 16) ((b % 16) * 4 + c / 64) (c % 64)
        (skip_breaks (codes s)) rest u v w x before
    ∙ three-same a b c rest h.0 h.1.0 h.1.1.0
