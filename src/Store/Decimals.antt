-- ===== src/Store/Decimals.antt =====
-- data_collection.cpp: a number that was printed is read back by a conversion of sscanf.
use embedded_project_pc.Common.{
  ℕ, zero, suc, ◌+◌, ◌-◌, ◌*◌, ◌/◌, ◌%◌, ◌^◌, ◌≤◌, ◌<◌, ◌≡◌, refl, sym, ap, ◌∙◌, [], ◌∷◌, ◌++◌,
  some, Bool, true, false, ltb, if◌then◌else◌, le_or_lt, inl, inr, arith,
}
use native.Mathlib.Numerals.{unary_clauses}
use embedded_project_pc.Common.Text.{Text}
use embedded_project_pc.Protocol.{IsU16, ok}
use embedded_project_pc.Store.{
  put_digits, print_unsigned, print_int16, is_digit, scan_digits, Conversion, signed, converted,
  scan_number, scan_sign, skip_space,
}

-- What follows a number does not go on with a digit.
abbrev pub Stops : Text → Type 0
Stops [] = Unit
Stops (c ∷ text) = is_digit c ≡ false

put_digits-append :
    (k n : ℕ) (out rest : Text) → put_digits k n out ++ rest ≡ put_digits k n (out ++ rest)
unfolding put_digits
put_digits-append zero n out rest = refl
put_digits-append (suc k) n out rest = elim (le_or_lt 10 n) [
  | inl more ↦ ground (arith, put_digits-append k (n / 10) ((48 + n % 10) ∷ out) rest)
  | inr less ↦ ground arith
]

pow_suc : (k : ℕ) → 10 ^ suc k ≡ 10 * 10 ^ k
pow_suc k = simp unary_clauses (ground arith)

scan_digits-put_digits :
    (k n : ℕ) (out : Text)
    → n < 10 ^ suc k
    → scan_digits (put_digits (suc k) n out) 0 ≡ scan_digits out n
unfolding put_digits scan_digits
scan_digits-put_digits zero n out h = ground arith
scan_digits-put_digits (suc k) n out h = elim (le_or_lt 10 n) [
  | inl more ↦
      let smaller : n / 10 < 10 ^ suc k = omega (arith, pow_suc (suc k)) in
      ground (arith, scan_digits-put_digits k (n / 10) ((48 + n % 10) ∷ out) smaller)
  | inr less ↦ ground arith
]

scan_digits-Stops : (text : Text) (n : ℕ) → Stops text → scan_digits text n ≡ (n, text)
unfolding scan_digits
scan_digits-Stops [] n h = refl
scan_digits-Stops (c ∷ text) n h = ground (arith, h)

-- Printing begins with a digit.
front_digit :
    (k n : ℕ) (out : Text)
    → (c : ℕ) × ((rest : Text) × ((put_digits (suc k) n out ≡ c ∷ rest) × ((48 ≤ c) × (c ≤ 57))))
unfolding put_digits
front_digit zero n out = elim (le_or_lt 10 n) [
  | inl more ↦ ((48 + n % 10), (out, (ground arith, (omega arith, omega arith))))
  | inr less ↦ ((48 + n), (out, (ground arith, (omega arith, omega arith))))
]
front_digit (suc k) n out = elim (le_or_lt 10 n) [
  | inl more ↦
      let (c, (rest, (e, b))) = front_digit k (n / 10) ((48 + n % 10) ∷ out) in
      (c, (rest, (ground (arith, e), b)))
  | inr less ↦ ((48 + n), (out, (ground arith, (omega arith, omega arith))))
]

-- A text that begins with a digit is no white space, and has no sign.
skip_space-digit : (c : ℕ) (rest : Text) → 48 ≤ c → c ≤ 57 → skip_space (c ∷ rest) ≡ c ∷ rest
unfolding skip_space
skip_space-digit c rest h k = ground arith

scan_sign-digit :
    (conversion : Conversion) (c : ℕ) (rest : Text)
    → 48 ≤ c
    → c ≤ 57
    → scan_sign conversion (c ∷ rest) ≡ scan_number conversion false (c ∷ rest)
unfolding scan_sign
scan_sign-digit conversion c rest h k = ground arith

scan_number-print_unsigned :
    (conversion : Conversion) (negative : Bool) (n v : ℕ) (rest : Text)
    → n < 2 ^ 32
    → converted conversion negative n ≡ ok v
    → Stops rest
    → scan_number conversion negative (print_unsigned n ++ rest) ≡ ok (some (v, rest))
unfolding scan_number print_unsigned
scan_number-print_unsigned conversion negative n v rest h e stops =
    let (c, (more, (front, (low, high)))) = front_digit 9 n rest in
    let scanned : scan_digits (c ∷ more) 0 ≡ (n, rest) =
      ap (λ t. scan_digits t 0) (sym front)
      ∙ scan_digits-put_digits 9 n rest (omega arith)
      ∙ scan_digits-Stops rest n stops in
    ap (scan_number conversion negative) (put_digits-append 10 n [] rest ∙ front)
    ∙ ground (arith, scanned, e)

-- A printed number, followed by no digit, is converted to what its digits stand for.
pub scan_sign-print_unsigned :
    (conversion : Conversion) (n v : ℕ) (rest : Text)
    → n < 2 ^ 32
    → converted conversion false n ≡ ok v
    → Stops rest
    → scan_sign conversion (skip_space (print_unsigned n ++ rest)) ≡ ok (some (v, rest))
unfolding print_unsigned
scan_sign-print_unsigned conversion n v rest h e stops =
    let (c, (more, (front, (low, high)))) = front_digit 9 n rest in
    let same : print_unsigned n ++ rest ≡ c ∷ more = put_digits-append 10 n [] rest ∙ front in
    ap (λ t. scan_sign conversion (skip_space t)) same
    ∙ ap (scan_sign conversion) (skip_space-digit c more low high)
    ∙ scan_sign-digit conversion c more low high
    ∙ ap (scan_number conversion false) (sym same)
    ∙ scan_number-print_unsigned conversion false n v rest h e stops

-- The 32 bits of the int that an int16_t is converted to.
abbrev pub int_of_int16 : ℕ → ℕ
int_of_int16 n = if ltb n (2 ^ 15) then n else (2 ^ 32 - (2 ^ 16 - n)) % 2 ^ 32

pub scan_sign-print_int16 :
    (n : ℕ) (rest : Text)
    → IsU16 n
    → Stops rest
    → scan_sign signed (skip_space (print_int16 n ++ rest)) ≡ ok (some (int_of_int16 n, rest))
unfolding print_int16 converted skip_space scan_sign
scan_sign-print_int16 n rest h stops = elim (le_or_lt (2 ^ 15) n) [
  | inl negative ↦
      let digits =
        scan_number-print_unsigned signed true (2 ^ 16 - n) (int_of_int16 n) rest (omega arith)
          (ground arith) stops in
      ground (arith, digits)
  | inr positive ↦
      ground (arith, scan_sign-print_unsigned signed n n rest (omega arith) (ground arith) stops)
]
