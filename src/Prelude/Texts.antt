-- ===== src/Prelude/Texts.antt =====
-- The methods of Python's `str` that the program calls, on lists of code points. Letters, digits
-- and blanks are those of ASCII, and the two blanks of Latin-1.
use Prim.Native.Nat.{ℕ, zero, suc, ◌+◌, ◌-◌, ◌*◌, ◌/◌, ◌%◌, ◌<◌}
use mathlib.Core.Bool.{Bool, true, false, ◌&&◌, ◌||◌, not}
use mathlib.Core.List.{List, [], ◌∷◌, ◌++◌, reverse}
use mathlib.Core.Logic.{inl, inr}
use mathlib.Core.Option
use mathlib.Core.Option.{Option, none, some}
use mathlib.Core.Path.{◌≡◌, refl, ap, ap₂, ◌∙◌}
use native.Mathlib.Omega.{arith}
use homeassistant_2gig_gc.Prelude.Equality.{Text, codes}
use homeassistant_2gig_gc.Prelude.Int.{ℤ, pos, negsuc, signed}
use homeassistant_2gig_gc.Prelude.Lists.{is_empty}
use homeassistant_2gig_gc.Prelude.Tests.{ltb, leb, nat_eq, if◌then◌else◌, Bool-cases}

unfoldable pub lower_char : ℕ → ℕ
lower_char c = if leb b'A' c && leb c b'Z' then c + 32 else c

-- `s.lower()`
unfoldable pub lower : Text → Text
unfolding lower_char
lower [] = []
lower (c ∷ s) = lower_char c ∷ lower s

unfoldable pub is_space : ℕ → Bool
is_space c = (leb 9 c && leb c 13) || (leb 28 c && leb c 32) || nat_eq c 0x85 || nat_eq c 0xa0

unfoldable pub strip_left : Text → Text
unfolding is_space
strip_left [] = []
strip_left (c ∷ s) = let rest = strip_left s in if is_space c then rest else c ∷ s

-- `s.strip()`
unfoldable pub strip : Text → Text
unfolding strip_left
strip s = reverse (strip_left (reverse (strip_left s)))

-- `s.startswith(k)`
unfoldable pub starts_with : Text → Text → Bool
starts_with s [] = true
starts_with [] (c ∷ k) = false
starts_with (d ∷ s) (c ∷ k) = nat_eq d c && starts_with s k

-- `k in s`
unfoldable pub is_in : Text → Text → Bool
unfolding starts_with
is_in k [] = starts_with [] k
is_in k (c ∷ s) = starts_with (c ∷ s) k || is_in k s

-- `s.endswith(k)`
unfoldable pub ends_with : Text → Text → Bool
unfolding starts_with
ends_with s k = starts_with (reverse s) (reverse k)

abbrev pub cons_char : ℕ → List Text → List Text
cons_char c [] = (c ∷ []) ∷ []
cons_char c (part ∷ parts) = (c ∷ part) ∷ parts

-- `s.split(sep)` for a `sep` of one character: one part at least.
unfoldable pub split : ℕ → Text → List Text
split sep [] = [] ∷ []
split sep (c ∷ s) =
    let parts = split sep s in if nat_eq c sep then [] ∷ parts else cons_char c parts

-- `s.split(sep, 1)[0]`
unfoldable pub before_first : ℕ → Text → Text
before_first sep [] = []
before_first sep (c ∷ s) = let rest = before_first sep s in if nat_eq c sep then [] else c ∷ rest

-- Where `str.splitlines` ends a line.
abbrev pub is_line_break : ℕ → Bool
is_line_break c =
    (leb 10 c && leb c 13)
    || (leb 28 c && leb c 30)
    || nat_eq c 0x85
    || nat_eq c 0x2028
    || nat_eq c 0x2029

-- The lines that are left, behind the start of one; the flag is whether a `\r` stands just before.
lines_from : Bool → Text → Text → List Text
lines_from after_return line [] = if is_empty line then [] else line ∷ []
lines_from after_return line (c ∷ s) =
    let rest = lines_from (nat_eq c 13) (if is_line_break c then [] else line ++ c ∷ []) s in
    if not (is_line_break c) || (after_return && nat_eq c 10) then rest else line ∷ rest

-- `s.splitlines()`
unfoldable pub splitlines : Text → List Text
unfolding lines_from
splitlines s = lines_from false [] s

abbrev pub is_digit_char : ℕ → Bool
is_digit_char c = leb b'0' c && leb c b'9'

abbrev all_digits : Text → Bool
all_digits [] = true
all_digits (c ∷ s) = is_digit_char c && all_digits s

-- `s.isdigit()`
unfoldable pub is_digit : Text → Bool
is_digit [] = false
is_digit (c ∷ s) = is_digit_char c && all_digits s

-- The number that a run of digits adds to: `int(s)` for an `s` of digits is `parse_digits 0 s`.
unfoldable pub parse_digits : ℕ → Text → ℕ
parse_digits n [] = n
parse_digits n (c ∷ s) = parse_digits (n * 10 + (c - b'0')) s

-- The digits of `int(s)`, which single underscores may separate; the flag is whether a digit
-- stands before.
parse_unsigned : Bool → ℕ → Text → Option ℕ
parse_unsigned before n [] = if before then some n else none
parse_unsigned before n (c ∷ s) =
    let digit = is_digit_char c in
    let rest = parse_unsigned digit (if digit then n * 10 + (c - b'0') else n) s in
    if digit || (nat_eq c b'_' && before) then rest else none

parse_signed : Text → Option ℤ
unfolding parse_unsigned
parse_signed [] = none
parse_signed (c ∷ s) =
    if nat_eq c b'-'
    then Option.map (signed true) (parse_unsigned false 0 s)
    else if nat_eq c b'+'
    then Option.map (signed false) (parse_unsigned false 0 s)
    else Option.map (signed false) (parse_unsigned false 0 (c ∷ s))

-- `int(s)`; `none` is the `ValueError`.
unfoldable pub parse_int : Text → Option ℤ
unfolding parse_signed strip
parse_int s = parse_signed (strip s)

-- The decimal digits of a number before `acc`; the first argument bounds their number.
digits_before : ℕ → ℕ → Text → Text
digits_before zero n acc = acc
digits_before (suc fuel) n acc =
    let rest = digits_before fuel (n / 10) ((n % 10 + b'0') ∷ acc) in
    if ltb n 10 then (n + b'0') ∷ acc else rest

-- `str(n)`
unfoldable pub decimal : ℕ → Text
unfolding digits_before
decimal n = digits_before (suc n) n []

unfoldable pub int_text : ℤ → Text
unfolding decimal
int_text (pos n) = decimal n
int_text (negsuc n) = b'-' ∷ decimal (suc n)

parse_digits-digits_before :
    (fuel n : ℕ) (acc : Text)
    → n < fuel
    → parse_digits 0 (digits_before fuel n acc) ≡ parse_digits n acc
unfolding parse_digits digits_before
parse_digits-digits_before zero n acc h = absurd (omega arith)
parse_digits-digits_before (suc fuel) n acc h = elim (Bool-cases (ltb n 10)) [
  | inl small ↦ rw small (ap (λ k. parse_digits k acc) (omega arith))
  | inr large ↦
      let rest = parse_digits-digits_before fuel (n / 10) ((n % 10 + b'0') ∷ acc) (ground arith) in
      rw large (rest ∙ ap (λ k. parse_digits k acc) (omega arith))
]

-- The digits of a number read back as the number.
pub parse_digits-decimal : (n : ℕ) → parse_digits 0 (decimal n) ≡ n
unfolding decimal parse_digits
parse_digits-decimal n = parse_digits-digits_before (suc n) n [] (omega arith)

pub lower_char_idem : (c : ℕ) → lower_char (lower_char c) ≡ lower_char c
unfolding lower_char
lower_char_idem c = ground arith

pub lower_idem : (s : Text) → lower (lower s) ≡ lower s
unfolding lower
lower_idem [] = refl
lower_idem (c ∷ s) = ap₂ ◌∷◌ (lower_char_idem c) (lower_idem s)

parse_int_signed : parse_int (codes " -1_024 ") ≡ some (negsuc 1023)
unfolding parse_int
parse_int_signed = refl

parse_int_rejects : parse_int (codes "1__0") ≡ none
unfolding parse_int
parse_int_rejects = refl

decimal_runs : decimal 3000 ≡ codes "3000"
unfolding decimal
decimal_runs = refl
