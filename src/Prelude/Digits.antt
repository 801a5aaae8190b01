-- ===== src/Prelude/Digits.antt =====
-- Numbers as text in a base up to 36, as `strconv.FormatInt`, `%d` and `strconv.ParseInt` write
-- and read them.
use Prim.Native.Nat.{ℕ, zero, suc, ◌+◌, ◌-◌, ◌*◌, ◌/◌, ◌%◌, ◌≤◌, ◌<◌}
use Prim.Native.Char.{Char, code}
use Prim.Native.String.{String}
use mathlib.Core.Path.{◌≡◌, refl, sym, ap, ◌∙◌}
use mathlib.Core.Logic.{inl, inr}
use mathlib.Core.Bool.{Bool, true, false, not, ◌&&◌}
use mathlib.Core.Option.{Option, none, some}
use native.Mathlib.Omega.{arith}
use m_aistr.Prelude.Tests.{leb, ltb, ◌==◌, if◌then◌else◌, Bool-cases}

abbrev pub letters : String
letters = "0123456789abcdefghijklmnopqrstuvwxyz"

abbrev zero_char : Char
zero_char = "0"

char_at : String → ℕ → Char
char_at String.[] i = zero_char
char_at (String.◌∷◌ c s) zero = c
char_at (String.◌∷◌ c s) (suc i) = char_at s i

-- The digits of `n` in front of `acc`, none for 0. A fuel of `n` is enough, since each round
-- divides by the base.
digits_loop : ℕ → ℕ → ℕ → String → String
digits_loop zero base n acc = acc
digits_loop (suc f) base n acc =
    let rest = digits_loop f base (n / base) (String.◌∷◌ (char_at letters (n % base)) acc) in
    if n == 0 then acc else rest

unfoldable pub format_int : ℕ → ℕ → String
unfolding digits_loop char_at
format_int n base = if n == 0 then "0" else digits_loop n base n ""

-- The value of a digit, in either case.
digit_value : ℕ → Option ℕ
digit_value c =
    if leb b'0' c && leb c b'9'
    then some (c - b'0')
    else if leb b'a' c && leb c b'z'
    then some (c - b'a' + 10)
    else if leb b'A' c && leb c b'Z'
    then some (c - b'A' + 10)
    else none

-- One digit more behind a value; `none` where the character is no digit of the base.
push_digit : ℕ → ℕ → Option ℕ → Option ℕ
push_digit base acc none = none
push_digit base acc (some d) = if ltb d base then some (acc * base + d) else none

read_digits : ℕ → Option ℕ → String → Option ℕ
read_digits base acc String.[] = acc
read_digits base acc (String.◌∷◌ c s) =
    read_digits base (elim acc [ none ↦ none | some a ↦ push_digit base a (digit_value (code c)) ])
      s

-- `strconv.ParseUint` without its bound on the size.
unfoldable pub parse_digits : ℕ → String → Option ℕ
unfolding read_digits push_digit digit_value
parse_digits base String.[] = none
parse_digits base (String.◌∷◌ c s) = read_digits base (some 0) (String.◌∷◌ c s)

-- A test of every digit below a base, and what it says of one digit.
every_digit : (ℕ → Bool) → ℕ → Bool
every_digit test zero = true
every_digit test (suc base) = every_digit test base && test base

every_digit_lem :
    (test : ℕ → Bool) (base : ℕ) {d : ℕ} → every_digit test base ≡ true → d < base → test d ≡ true
unfolding every_digit
every_digit_lem test zero every small = absurd (omega arith)
every_digit_lem test (suc base) {d = d} every small =
    ground (arith, every_digit_lem test base {d = d})

abbrev is_some_value : Option ℕ → ℕ → Bool
is_some_value none d = false
is_some_value (some v) d = v == d

is_some_value_lem : (o : Option ℕ) (d : ℕ) → is_some_value o d ≡ true → o ≡ some d
is_some_value_lem none d h = ground arith
is_some_value_lem (some v) d h = ground arith

letter_table : every_digit (λ d. is_some_value (digit_value (code (char_at letters d))) d) 36 ≡ true
unfolding every_digit digit_value char_at
letter_table = refl

digit_value-letter : (d : ℕ) → d < 36 → digit_value (code (char_at letters d)) ≡ some d
digit_value-letter d h = is_some_value_lem _ d (every_digit_lem _ 36 {d = d} letter_table h)

push_digit-letter :
    (a d : ℕ)
    → d < 36
    → push_digit 36 a (digit_value (code (char_at letters d))) ≡ some (a * 36 + d)
unfolding push_digit
push_digit-letter a d h = ground (arith, digit_value-letter d)

-- The digits of `n` are read back as `n`, whatever stands behind them.
read_digits-digits_loop :
    (f n : ℕ) (acc : String)
    → n ≤ f
    → read_digits 36 (some 0) (digits_loop f 36 n acc) ≡ read_digits 36 (some n) acc
unfolding digits_loop read_digits
read_digits-digits_loop zero n acc h = ground arith
read_digits-digits_loop (suc f) n acc h = ground (
  arith,
  read_digits-digits_loop f (n / 36) (String.◌∷◌ (char_at letters (n % 36)) acc),
  push_digit-letter (n / 36) (n % 36),
)

parse_digits-digits_loop :
    (f n : ℕ) (c : Char) (acc : String)
    → parse_digits 36 (digits_loop f 36 n (String.◌∷◌ c acc))
      ≡ read_digits 36 (some 0) (digits_loop f 36 n (String.◌∷◌ c acc))
unfolding parse_digits digits_loop
parse_digits-digits_loop zero n c acc = refl
parse_digits-digits_loop (suc f) n c acc = elim (Bool-cases (n == 0)) [
  | inl e ↦ rw e
  | inr e ↦ rw e (parse_digits-digits_loop f (n / 36) _ (String.◌∷◌ c acc))
]

digits_loop-step :
    (f n : ℕ)
    → 0 < n
    → digits_loop (suc f) 36 n ""
      ≡ digits_loop f 36 (n / 36) (String.◌∷◌ (char_at letters (n % 36)) "")
unfolding digits_loop
digits_loop-step f n h = ground arith

parse_positive : (n : ℕ) → parse_digits 36 (digits_loop (suc n) 36 (suc n) "") ≡ some (suc n)
unfolding read_digits
parse_positive n = rw (digits_loop-step n (suc n) (omega arith)) (
    parse_digits-digits_loop n (suc n / 36) _ ""
    ∙ ap (read_digits 36 (some 0)) (sym (digits_loop-step n (suc n) (omega arith)))
    ∙ read_digits-digits_loop (suc n) (suc n) "" (omega arith))

format_int-positive : (n : ℕ) → format_int (suc n) 36 ≡ digits_loop (suc n) 36 (suc n) ""
unfolding format_int
format_int-positive n = ground arith

-- What `format_int` writes in base 36 is read back.
pub parse_digits-format_int : (n : ℕ) → parse_digits 36 (format_int n 36) ≡ some n
unfolding parse_digits format_int
parse_digits-format_int zero = refl
parse_digits-format_int (suc n) = ap (parse_digits 36) (format_int-positive n) ∙ parse_positive n

-- Whether a text begins with a character that is no sign.
abbrev pub starts_plain : String → Bool
starts_plain String.[] = false
starts_plain (String.◌∷◌ c s) = not (code c == b'+') && not (code c == b'-')

plain_table : every_digit (λ d. starts_plain (String.◌∷◌ (char_at letters d) "")) 36 ≡ true
unfolding every_digit char_at
plain_table = refl

starts_plain-letter :
    (d : ℕ) (s : String) → d < 36 → starts_plain (String.◌∷◌ (char_at letters d) s) ≡ true
starts_plain-letter d s h =
    every_digit_lem (λ e. starts_plain (String.◌∷◌ (char_at letters e) "")) 36 {d = d} plain_table h

starts_plain-digits_loop :
    (f n : ℕ) (acc : String)
    → starts_plain acc ≡ true
    → starts_plain (digits_loop f 36 n acc) ≡ true
unfolding digits_loop
starts_plain-digits_loop zero n acc h = h
starts_plain-digits_loop (suc f) n acc h = elim (Bool-cases (n == 0)) [
  | inl e ↦ rw e h
  | inr e ↦
      rw e (starts_plain-digits_loop f (n / 36) _ (starts_plain-letter (n % 36) acc (omega arith)))
]

pub starts_plain-format_int : (n : ℕ) → starts_plain (format_int n 36) ≡ true
unfolding format_int
starts_plain-format_int zero = refl
starts_plain-format_int (suc n) =
    ap starts_plain (format_int-positive n ∙ digits_loop-step n (suc n) (omega arith))
    ∙ starts_plain-digits_loop n (suc n / 36) _ (starts_plain-letter (suc n % 36) "" (omega arith))
