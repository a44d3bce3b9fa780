-- ===== src/Text/Decimal.antt =====
-- String(n) and parseInt(s, 10), and their round trip.
use wfmcontrol_m.Prelude.{
  ℕ, zero, suc, ◌+◌, ◌-◌, ◌*◌, ◌/◌, ◌%◌, ◌<◌, ◌≡◌, ap, ◌∙◌, sym, Bool, true, false, Option, none,
  some, [], ◌∷◌, any, leb, refl, ltb, ◌==◌, if◌then◌else◌, arith, inl, inr, Bool-cases,
}
use wfmcontrol_m.Prelude.Int.{ℤ, pos, negsuc}
use wfmcontrol_m.Text.{Text, is_digit, trim_start}

-- The digits of `n` before `rest`; the fuel `n` is enough.
digits_onto : ℕ → ℕ → Text → Text
digits_onto zero n rest = rest
digits_onto (suc f) n rest =
    let more = digits_onto f (n / 10) ((b'0' + n % 10) ∷ rest) in
    if ltb n 10 then (b'0' + n) ∷ rest else more

unfoldable pub show_nat : ℕ → Text
unfolding digits_onto
show_nat n = digits_onto (suc n) n []

-- String(n)
unfoldable pub show_int : ℤ → Text
unfolding show_nat
show_int (pos n) = show_nat n
show_int (negsuc n) = b'-' ∷ show_nat (suc n)

-- The longest prefix of digits, read onto `acc`.
unfoldable pub read_digits : ℕ → Text → ℕ
read_digits acc [] = acc
read_digits acc (c ∷ s) =
    let more = read_digits (acc * 10 + (c - b'0')) s in if is_digit c then more else acc

abbrev starts_digit : Text → Bool
starts_digit [] = false
starts_digit (c ∷ s) = is_digit c

abbrev negate : ℕ → ℤ
negate zero = pos 0
negate (suc n) = negsuc n

unfoldable pub read_signed : Text → Option ℤ
unfolding read_digits
read_signed [] = none
read_signed (c ∷ s) =
    if c == b'-'
    then if starts_digit s then some (negate (read_digits 0 s)) else none
    else if c == b'+'
    then if starts_digit s then some (pos (read_digits 0 s)) else none
    else if is_digit c
    then some (pos (read_digits 0 (c ∷ s)))
    else none

-- parseInt(s, 10): white space, a sign, and as many digits as there are
unfoldable pub parse_int : Text → Option ℤ
unfolding read_signed trim_start
parse_int s = read_signed (trim_start s)

-- `n` after `acc` in decimal: acc * 10 ^ (number of digits of n) + n
shift : ℕ → ℕ → ℕ → ℕ
shift zero acc n = acc
shift (suc f) acc n =
    let more = shift f acc (n / 10) * 10 + n % 10 in if ltb n 10 then acc * 10 + n else more

read-digits_onto :
    (f n acc : ℕ) (rest : Text)
    → n < f
    → read_digits acc (digits_onto f n rest) ≡ read_digits (shift f acc n) rest
unfolding read_digits digits_onto shift
read-digits_onto zero n acc rest h = elim h [ ]
read-digits_onto (suc f) n acc rest h =
    ground (arith, read-digits_onto f (n / 10) acc ((b'0' + n % 10) ∷ rest))

shift_zero : (f n : ℕ) → n < f → shift f 0 n ≡ n
unfolding shift
shift_zero zero n h = elim h [ ]
shift_zero (suc f) n h = ground (arith, shift_zero f (n / 10))

pub read-show_nat : (n : ℕ) → read_digits 0 (show_nat n) ≡ n
read-show_nat n =
    unfold show_nat in
    read-digits_onto (suc n) n 0 [] (omega arith)
    ∙ unfold read_digits in shift_zero (suc n) n (omega arith)

digits_onto-head :
    (f n : ℕ) (rest : Text)
    → n < f
    → (c : ℕ) × (s : Text) × (digits_onto f n rest ≡ c ∷ s) × (is_digit c ≡ true)
unfolding digits_onto
digits_onto-head zero n rest h = elim h [ ]
digits_onto-head (suc f) n rest h = elim (Bool-cases (ltb n 10)) [
  | inl e ↦ (b'0' + n, rest, rw e, ground arith)
  | inr e ↦ rw e (digits_onto-head f (n / 10) ((b'0' + n % 10) ∷ rest) (ground arith))
]

read_signed-digit :
    (c : ℕ) (s : Text)
    → is_digit c ≡ true
    → read_signed (trim_start (c ∷ s)) ≡ some (pos (read_digits 0 (c ∷ s)))
unfolding read_signed trim_start
read_signed-digit c s h = ground arith

read_signed-minus :
    (c : ℕ) (s : Text)
    → is_digit c ≡ true
    → read_signed (trim_start (b'-' ∷ c ∷ s)) ≡ some (negate (read_digits 0 (c ∷ s)))
unfolding read_signed trim_start
read_signed-minus c s h = ground arith

-- Reading a printed integer gives it back.
pub parse_int-show_int : (n : ℤ) → parse_int (show_int n) ≡ some n
parse_int-show_int (pos n) =
    let (c, s, e, d) = digits_onto-head (suc n) n [] (omega arith) in
    let e' : show_nat n ≡ c ∷ s = unfold show_nat in e in
    unfold parse_int show_int in
    rw e' (
      read_signed-digit c s d
      ∙ ap (λ m. some (pos m)) (ap (read_digits 0) (sym e') ∙ read-show_nat n))
parse_int-show_int (negsuc n) =
    let (c, s, e, d) = digits_onto-head (suc (suc n)) (suc n) [] (omega arith) in
    let e' : show_nat (suc n) ≡ c ∷ s = unfold show_nat in e in
    unfold parse_int show_int in
    rw e' (
      read_signed-minus c s d
      ∙ ap (λ m. some (negate m)) (ap (read_digits 0) (sym e') ∙ read-show_nat (suc n)))

-- Different integers are printed differently.
pub show_int-injective : (a b : ℤ) → show_int a ≡ show_int b → a ≡ b
show_int-injective a b e = cc (parse_int-show_int a, parse_int-show_int b)

-- No code unit of a text is 128 or more.
abbrev pub beyond_ascii : Text → Bool
beyond_ascii s = any (λ c. leb 128 c) s

digits_onto-ascii :
    (f n : ℕ) (rest : Text)
    → beyond_ascii rest ≡ false
    → beyond_ascii (digits_onto f n rest) ≡ false
unfolding digits_onto
digits_onto-ascii zero n rest h = h
digits_onto-ascii (suc f) n rest h = elim (Bool-cases (ltb n 10)) [
  | inl e ↦ simp e (ground (arith, e))
  | inr e ↦ simp e (
      digits_onto-ascii f (n / 10) ((b'0' + n % 10) ∷ rest)
        (let small : leb 128 (b'0' + n % 10) ≡ false = ground arith in rw small h))
]

-- A printed integer is ASCII.
pub show_int-ascii : (n : ℤ) → beyond_ascii (show_int n) ≡ false
unfolding show_int show_nat
show_int-ascii (pos n) = digits_onto-ascii (suc n) n [] refl
show_int-ascii (negsuc n) = digits_onto-ascii (suc (suc n)) (suc n) [] refl
