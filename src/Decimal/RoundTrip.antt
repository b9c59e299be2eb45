-- ===== src/Decimal/RoundTrip.antt =====
-- `std::stoul` reads back what `std::to_string` prints.
use native.Mathlib.Nat.{zero-add}
use gekko_fwd.Base.{
  ℕ, zero, suc, ◌+◌, ◌/◌, ◌%◌, ◌≤◌, ◌<◌, ◌≡◌, refl, [], ◌∷◌, ◌++◌, true, false, none, some, arith,
  length, ltb, Bool-cases, inl, inr, ◌∙◌, ap, length-append,
}
use gekko_fwd.Base.Words.{word, sign_bit}
use gekko_fwd.Decimal.{
  Bytes, is_digit, print_digits, to_string, scan_digits, checked, parse_number, stoul, stol,
}

-- What follows the number does not begin with a digit.
abbrev pub StopsDigits : Bytes → Type 0
StopsDigits [] = Unit {0}
StopsDigits (c ∷ s) = is_digit c ≡ false

scan_digits_stop :
    (rest : Bytes) (v n : ℕ)
    → StopsDigits rest
    → scan_digits rest v n ≡ record { value = v; read = n; rest = rest }
unfolding scan_digits
scan_digits_stop [] v n h = refl
scan_digits_stop (c ∷ s) v n h = ground arith

scan-print_digits :
    (fuel n : ℕ) (out : Bytes) (r : ℕ)
    → n < fuel
    → (d : ℕ) × (length (print_digits fuel n out) ≡ d + length out)
      × (0 < d)
      × (scan_digits (print_digits fuel n out) 0 r ≡ scan_digits out n (r + d))
unfolding print_digits scan_digits
scan-print_digits zero n out r h = elim h [ ]
scan-print_digits (suc fuel) n out r h = elim (Bool-cases (ltb n 10)) [
  | inl e ↦ (1, rw e (omega arith), omega arith, rw e (ground arith))
  | inr e ↦
      let (d, len, pos, same) =
        scan-print_digits fuel (n / 10) ((b'0' + n % 10) ∷ out) r (ground arith) in
      (suc d, rw e (omega (arith, len)), omega arith, rw e (same ∙ (ground arith)))
]

print_digits-append :
    (fuel n : ℕ) (out rest : Bytes)
    → print_digits fuel n out ++ rest ≡ print_digits fuel n (out ++ rest)
unfolding print_digits
print_digits-append zero n out rest = refl
print_digits-append (suc fuel) n out rest =
    ground (arith, print_digits-append fuel (n / 10) ((b'0' + n % 10) ∷ out) rest)

print_digits_head :
    (fuel n : ℕ) (out : Bytes)
    → n < fuel
    → (c : ℕ) × (s : Bytes) × (print_digits fuel n out ≡ c ∷ s) × (is_digit c ≡ true)
unfolding print_digits
print_digits_head zero n out h = elim h [ ]
print_digits_head (suc fuel) n out h = elim (Bool-cases (ltb n 10)) [
  | inl e ↦ (b'0' + n, out, rw e, ground arith)
  | inr e ↦ rw e (print_digits_head fuel (n / 10) ((b'0' + n % 10) ∷ out) (ground arith))
]

parse_number_digit :
    (ends neg_ends c : ℕ) (s : Bytes)
    → is_digit c ≡ true
    → parse_number ends neg_ends (c ∷ s) ≡ checked ends neg_ends 0 false (scan_digits (c ∷ s) 0 0)
unfolding parse_number
parse_number_digit ends neg_ends c s h = ground arith

parse_number-print :
    (ends neg_ends : ℕ) (t rest : Bytes) (n d : ℕ)
    → (c : ℕ) × (s : Bytes) × (t ≡ c ∷ s) × (is_digit c ≡ true)
    → scan_digits t 0 0 ≡ record { value = n; read = d; rest = rest }
    → 0 < d
    → n < ends
    → parse_number ends neg_ends t ≡ some (record { value = n; read = d; rest = rest })
unfolding checked
parse_number-print ends neg_ends t rest n d (c, s, e, digit) scanned pos fits =
    rw (e, parse_number_digit ends neg_ends c s digit, ← e, scanned) (ground arith)

print_digits-scanned :
    (n : ℕ) (rest : Bytes)
    → StopsDigits rest
    → let t = print_digits (suc n) n [] in
      (scan_digits (t ++ rest) 0 0 ≡ record { value = n; read = length t; rest = rest })
      × (0 < length t)
print_digits-scanned n rest stops = go (scan-print_digits (suc n) n rest 0 (omega arith))
  where
    shown : print_digits (suc n) n [] ++ rest ≡ print_digits (suc n) n rest
    shown = print_digits-append (suc n) n [] rest

    go :
        (d : ℕ) × (length (print_digits (suc n) n rest) ≡ d + length rest)
          × (0 < d)
          × (scan_digits (print_digits (suc n) n rest) 0 0 ≡ scan_digits rest n (0 + d))
        → (scan_digits (print_digits (suc n) n [] ++ rest) 0 0
            ≡ record { value = n; read = length (print_digits (suc n) n []); rest = rest })
          × (0 < length (print_digits (suc n) n []))
    go (d, len, pos, same) =
        let size : length (print_digits (suc n) n []) ≡ d =
          omega (arith, len, ap length shown, length-append (print_digits (suc n) n []) rest) in
        let ends : scan_digits rest n (0 + d) ≡ record { value = n; read = d; rest = rest } =
          rw zero-add (scan_digits_stop rest n d stops) in
        (rw (shown, size) (same ∙ ends), rw size pos)

parse_number-to_string :
    (ends neg_ends n : ℕ) (rest : Bytes)
    → n < ends
    → StopsDigits rest
    → parse_number ends neg_ends (to_string n ++ rest)
      ≡ some (record { value = n; read = length (to_string n); rest = rest })
unfolding to_string
parse_number-to_string ends neg_ends n rest fits stops =
    let (scanned, pos) = print_digits-scanned n rest stops in
    parse_number-print ends neg_ends _ rest n _
      (rw (print_digits-append (suc n) n [] rest) (print_digits_head (suc n) n rest (omega arith)))
      scanned pos fits

-- Every 64-bit number that is printed in front of a text that does not begin with a digit is read
-- back: its value, the number of characters read, and the rest.
pub stoul-to_string :
    (n : ℕ) (rest : Bytes)
    → n < word
    → StopsDigits rest
    → stoul (to_string n ++ rest)
      ≡ some (record { value = n; read = length (to_string n); rest = rest })
unfolding stoul
stoul-to_string = parse_number-to_string word word

-- The signed parser reads back what fits its positive half.
pub stol-to_string :
    (n : ℕ) (rest : Bytes)
    → n < sign_bit
    → StopsDigits rest
    → stol (to_string n ++ rest)
      ≡ some (record { value = n; read = length (to_string n); rest = rest })
unfolding stol
stol-to_string = parse_number-to_string sign_bit (sign_bit + 1)

parse_number-print_overflow :
    (ends neg_ends : ℕ) (t rest : Bytes) (n d : ℕ)
    → (c : ℕ) × (s : Bytes) × (t ≡ c ∷ s) × (is_digit c ≡ true)
    → scan_digits t 0 0 ≡ record { value = n; read = d; rest = rest }
    → ends ≤ n
    → parse_number ends neg_ends t ≡ none
unfolding checked
parse_number-print_overflow ends neg_ends t rest n d (c, s, e, digit) scanned big =
    rw (e, parse_number_digit ends neg_ends c s digit, ← e, scanned) (ground arith)

-- What does not fit the signed parser throws.
pub stol-to_string_overflow :
    (n : ℕ) (rest : Bytes) → sign_bit ≤ n → StopsDigits rest → stol (to_string n ++ rest) ≡ none
unfolding stol to_string
stol-to_string_overflow n rest big stops =
    parse_number-print_overflow sign_bit (sign_bit + 1) (to_string n ++ rest) rest n _
      (rw (print_digits-append (suc n) n [] rest) (print_digits_head (suc n) n rest (omega arith)))
      (print_digits-scanned n rest stops).0 big
