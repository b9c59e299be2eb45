-- ===== src/Decimal.antt =====
-- Decimal text of the C++ standard library over bytes: `std::to_string` of an unsigned number and
-- `std::stoul`, which the metadata and merge code call.
pub mod RoundTrip
use gekko_fwd.Base.{
  ℕ, zero, suc, ◌+◌, ◌-◌, ◌*◌, ◌/◌, ◌%◌, List, [], ◌∷◌, Bool, true, false, ◌&&◌, ◌||◌, Option, none,
  some, ltb, leb, ◌==◌, if◌then◌else◌,
}
use gekko_fwd.Base.Words.{word, sign_bit, sub64}

abbrev pub Bytes : Type 0
Bytes = List ℕ

-- The digits of `n` in front of `out`, with one round of fuel for each digit.
print_digits : ℕ → ℕ → Bytes → Bytes
print_digits zero n out = out
print_digits (suc fuel) n out =
    let more = print_digits fuel (n / 10) ((b'0' + n % 10) ∷ out) in
    if ltb n 10 then (b'0' + n) ∷ out else more

-- `n + 1` rounds are enough, since each divides by ten.
unfoldable pub to_string : ℕ → Bytes
unfolding print_digits
to_string n = print_digits (suc n) n []

abbrev pub is_digit : ℕ → Bool
is_digit c = leb b'0' c && leb c b'9'

abbrev is_space : ℕ → Bool
is_space c = c == 32 || (leb 9 c && leb c 13)

-- The value of the leading digits, how many they are, and what is left.
abbrev pub Parsed : Type 0
Parsed = record { value : ℕ; read : ℕ; rest : Bytes }

unfoldable pub scan_digits : Bytes → ℕ → ℕ → Parsed
scan_digits [] value read = record { value = value; read = read; rest = [] }
scan_digits (c ∷ s) value read =
    let more = scan_digits s (value * 10 + (c - b'0')) (read + 1) in
    if is_digit c then more else record { value = value; read = read; rest = c ∷ s }

skip_space : Bytes → ℕ → Bytes × ℕ
skip_space [] n = ([], n)
skip_space (c ∷ s) n = let more = skip_space s (n + 1) in if is_space c then more else (c ∷ s, n)

-- No digit is `invalid_argument`, a magnitude at or past its end is `out_of_range`: both throw.
checked : ℕ → ℕ → ℕ → Bool → Parsed → Option Parsed
checked ends neg_ends before negative p =
    if p.read == before || leb (if negative then neg_ends else ends) p.value
    then none
    else some (record {
      value = if negative then sub64 0 p.value else p.value;
      read = p.read;
      rest = p.rest;
    })

signed : ℕ → ℕ → Bytes → ℕ → Option Parsed
unfolding scan_digits checked
signed ends neg_ends [] n = none
signed ends neg_ends (c ∷ s) n =
    if c == b'-'
    then checked ends neg_ends (n + 1) true (scan_digits s 0 (n + 1))
    else if c == b'+'
    then checked ends neg_ends (n + 1) false (scan_digits s 0 (n + 1))
    else checked ends neg_ends n false (scan_digits (c ∷ s) 0 n)

parse_number : ℕ → ℕ → Bytes → Option Parsed
unfolding skip_space signed
parse_number ends neg_ends s = let (t, n) = skip_space s 0 in signed ends neg_ends t n

-- `std::stoul(s, &read)`; `none` is a thrown exception.
unfoldable pub stoul : Bytes → Option Parsed
unfolding parse_number
stoul = parse_number word word

-- `std::stol(s, &read)`: a signed word, as its bit pattern.
unfoldable pub stol : Bytes → Option Parsed
unfolding parse_number
stol = parse_number sign_bit (sign_bit + 1)
