-- ===== src/TaskManager/Ids.antt =====
-- internal/taskmgr: genID of model.go and taskSequence of recovery.go.
use Prim.Native.String.{◌++◌}
use text.Mathlib.TextLemmas.{nil-append, cons-append}
use Prim.Native.Char.{code}
use m_aistr.Prelude.{
  ℕ, zero, suc, ◌<◌, ◌^◌, ◌≡◌, ap, ◌∙◌, Bool, true, false, Option, none, some, String, arith, ltb,
  ◌==◌, if◌then◌else◌,
}
use m_aistr.Prelude.Integers.{ℤ, pos, negsuc}
use m_aistr.Prelude.Digits.{
  format_int, parse_digits, parse_digits-format_int, starts_plain, starts_plain-format_int,
}

-- The digits of `seq` in base 36, behind a prefix.
unfoldable pub gen_id : ℕ → String
gen_id seq = "task-" ++ format_int seq 36

cut_prefix : String → String → Option String
cut_prefix String.[] s = some s
cut_prefix (String.◌∷◌ p ps) String.[] = none
cut_prefix (String.◌∷◌ p ps) (String.◌∷◌ c s) = if code p == code c then cut_prefix ps s else none

-- The range check of `strconv.ParseInt` at 32 bits.
signed_32 : Bool → Option ℕ → Option ℤ
signed_32 negative none = none
signed_32 false (some n) = if ltb n (2 ^ 31) then some (pos n) else none
signed_32 true (some zero) = some (pos zero)
signed_32 true (some (suc n)) = if ltb n (2 ^ 31) then some (negsuc n) else none

-- strconv.ParseInt(s, 36, 32); `none` stands for its errors.
parse_int_36 : String → Option ℤ
parse_int_36 String.[] = none
parse_int_36 (String.◌∷◌ c s) =
    if code c == b'+'
    then signed_32 false (parse_digits 36 s)
    else if code c == b'-'
    then signed_32 true (parse_digits 36 s)
    else signed_32 false (parse_digits 36 (String.◌∷◌ c s))

or_zero : Option ℤ → ℤ
or_zero none = pos 0
or_zero (some n) = n

sequence_of : Option String → ℤ
sequence_of none = pos 0
sequence_of (some value) = or_zero (parse_int_36 value)

unfoldable pub task_sequence : String → ℤ
unfolding cut_prefix sequence_of or_zero parse_int_36 signed_32
task_sequence id = sequence_of (cut_prefix "task-" id)

-- `if sequence := taskSequence(id); sequence > m.seq { m.seq = sequence }`
unfoldable pub raise_seq : ℤ → ℕ → ℕ
raise_seq (pos n) seq = if ltb seq n then n else seq
raise_seq (negsuc n) seq = seq

cut_prefix-append : (p s : String) → cut_prefix p (p ++ s) ≡ some s
unfolding cut_prefix
cut_prefix-append String.[] s = rw (nil-append s)
cut_prefix-append (String.◌∷◌ c p) s =
    rw (cons-append c p s) (ground (arith, cut_prefix-append p s))

parse_int_36-plain :
    (s : String) → starts_plain s ≡ true → parse_int_36 s ≡ signed_32 false (parse_digits 36 s)
unfolding parse_int_36
parse_int_36-plain String.[] h = ground arith
parse_int_36-plain (String.◌∷◌ c s) h = ground arith

parse_int_36-format_int : (n : ℕ) → n < 2 ^ 31 → parse_int_36 (format_int n 36) ≡ some (pos n)
unfolding signed_32
parse_int_36-format_int n h =
    parse_int_36-plain _ (starts_plain-format_int n)
    ∙ ap (signed_32 false) (parse_digits-format_int n)
    ∙ ground arith

-- The sequence number that an id was generated from is read back from it, below 2^31.
pub task_sequence-gen_id : (seq : ℕ) → seq < 2 ^ 31 → task_sequence (gen_id seq) ≡ pos seq
unfolding task_sequence gen_id
task_sequence-gen_id seq h =
    ap sequence_of (cut_prefix-append "task-" (format_int seq 36))
    ∙ ap or_zero (parse_int_36-format_int seq h)

-- So ids generated from different numbers differ.
pub gen_id_injective : (a b : ℕ) → a < 2 ^ 31 → b < 2 ^ 31 → gen_id a ≡ gen_id b → a ≡ b
gen_id_injective a b ha hb e = cc (task_sequence-gen_id a ha, task_sequence-gen_id b hb)
