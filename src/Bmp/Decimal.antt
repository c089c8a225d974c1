-- ===== src/Bmp/Decimal.antt =====
-- Numbers in decimal and lists of fields, as far as outlet/routing/provider/bmp/rd.go uses the
-- packages strconv, strings, fmt and net of Go. A text is the list of its bytes.
use akvorado.Prelude.{
  ℕ, zero, suc, ◌+◌, ◌-◌, ◌*◌, ◌/◌, ◌%◌, ◌^◌, ◌≤◌, ◌<◌, ◌≡◌, refl, sym, ◌∙◌, ap, Bool, true, false,
  not, ◌&&◌, Option, none, some, List, [], ◌∷◌, ◌++◌, ltb, leb, ◌==◌, if◌then◌else◌, ◌>>=◌, arith,
  Bool-cases, inl, inr, ltb→le,
}

abbrev pub colon : ℕ
colon = 58

abbrev pub dot : ℕ
dot = 46

unfoldable pub is_digit : ℕ → Bool
is_digit b = leb 48 b && leb b 57

-- The digits of a number before the digits `acc`.
unfoldable pub digits : ℕ → ℕ → List ℕ → List ℕ
digits zero n acc = acc
digits (suc fuel) n acc =
    let rest = digits fuel (n / 10) ((48 + n % 10) ∷ acc) in
    if ltb n 10 then (48 + n) ∷ acc else rest

-- `%d`: a number has fewer digits than its size.
unfoldable pub print : ℕ → List ℕ
unfolding digits
print n = digits (suc n) n []

-- The number that digits after the number `acc` make.
unfoldable pub parse_digits : ℕ → List ℕ → Option ℕ
parse_digits acc [] = some acc
parse_digits acc (b ∷ rest) =
    let n = parse_digits (acc * 10 + (b - 48)) rest in if is_digit b then n else none

-- `strconv.ParseUint` in base 10.
unfoldable pub parse_uint : ℕ → List ℕ → Option ℕ
unfolding parse_digits
parse_uint bits [] = none
parse_uint bits (b ∷ rest) = do
  n ← parse_digits 0 (b ∷ rest)
  if ltb n (2 ^ bits) then some n else none

-- `strings.Split` by one byte.
unfoldable pub push : ℕ → List (List ℕ) → List (List ℕ)
push b [] = (b ∷ []) ∷ []
push b (xs ∷ xss) = (b ∷ xs) ∷ xss

unfoldable pub split : ℕ → List ℕ → List (List ℕ)
unfolding push
split s [] = [] ∷ []
split s (b ∷ rest) = let xss = split s rest in if b == s then [] ∷ xss else push b xss

-- No byte is the separator.
unfoldable pub lacks : ℕ → List ℕ → Bool
lacks s [] = true
lacks s (b ∷ rest) = not (b == s) && lacks s rest

pub split_one : (s : ℕ) (xs : List ℕ) → lacks s xs ≡ true → split s xs ≡ xs ∷ []
unfolding split lacks push
split_one s [] h = refl
split_one s (b ∷ rest) h = ground (arith, split_one s rest)

pub split_more :
    (s : ℕ) (xs ys : List ℕ) → lacks s xs ≡ true → split s (xs ++ s ∷ ys) ≡ xs ∷ split s ys
unfolding split lacks push
split_more s [] ys h = ground arith
split_more s (b ∷ rest) ys h = ground (arith, split_more s rest ys)

pub lacks-digits :
    (s fuel n : ℕ) (acc : List ℕ)
    → is_digit s ≡ false
    → lacks s acc ≡ true
    → lacks s (digits fuel n acc) ≡ true
unfolding digits lacks is_digit
lacks-digits s zero n acc d h = h
lacks-digits s (suc fuel) n acc d h = elim (Bool-cases (ltb n 10)) [
  | inl e ↦ rw e (ground arith)
  | inr e ↦ rw e (lacks-digits s fuel (n / 10) _ d (ground arith))
]

parse_digits_step :
    (acc b : ℕ) (rest : List ℕ)
    → b < 10
    → parse_digits acc ((48 + b) ∷ rest) ≡ parse_digits (acc * 10 + b) rest
unfolding parse_digits is_digit
parse_digits_step acc b rest h =
    let e : 48 + b - 48 ≡ b = omega arith in
    let f : is_digit (48 + b) ≡ true = ground arith in rw (f, e) refl

zero_tens : (n : ℕ) → 0 * 10 + n ≡ n
zero_tens n = omega arith

pub parse_digits-digits :
    (fuel n : ℕ) (acc : List ℕ) → n < fuel → parse_digits 0 (digits fuel n acc) ≡ parse_digits n acc
unfolding digits
parse_digits-digits zero n acc h = elim h [ ]
parse_digits-digits (suc fuel) n acc h = elim (Bool-cases (ltb n 10)) [
  | inl e ↦
      rw e (parse_digits_step 0 n acc (ground arith) ∙ ap (λ m. parse_digits m acc) (zero_tens n))
  | inr e ↦
      let q : n / 10 * 10 + n % 10 ≡ n = omega arith in
      let small : n / 10 < fuel = omega (arith, ltb→le n 10 e) in
      rw e (
        parse_digits-digits fuel (n / 10) _ small
        ∙ parse_digits_step (n / 10) (n % 10) acc (omega arith)
        ∙ ap (λ m. parse_digits m acc) q)
]

-- The digits of a number, of which the first is not a 0 unless the number is 0.
pub digits_head :
    (fuel n : ℕ) (acc : List ℕ)
    → n < fuel
    → (b : ℕ) × (rest : List ℕ) × (digits fuel n acc ≡ b ∷ rest) × (1 ≤ n → (b == 48) ≡ false)
unfolding digits
digits_head zero n acc h = elim h [ ]
digits_head (suc fuel) n acc h = elim (Bool-cases (ltb n 10)) [
  | inl e ↦ rw e (48 + n, acc, refl, λ p. ground arith)
  | inr e ↦
      let le = ltb→le n 10 e in
      let (b, rest, eq, head) = digits_head fuel (n / 10) ((48 + n % 10) ∷ acc) (omega arith) in
      rw e (b, rest, eq, λ p. head (omega arith))
]

pub parse_uint-print :
    (bits n : ℕ) → parse_uint bits (print n) ≡ (if ltb n (2 ^ bits) then some n else none)
unfolding parse_uint print
parse_uint-print bits n =
    let (b, rest, eq, head) = digits_head (suc n) n [] (omega arith) in
    let value : parse_digits 0 (b ∷ rest) ≡ some n =
      ap (parse_digits 0) (sym eq) ∙ parse_digits-digits (suc n) n [] (omega arith) in
    ap (parse_uint bits) eq ∙ ap (λ m. m >>= λ k. if ltb k (2 ^ bits) then some k else none) value

pub lacks-print : (s n : ℕ) → is_digit s ≡ false → lacks s (print n) ≡ true
unfolding print lacks
lacks-print s n d = lacks-digits s (suc n) n [] d refl

-- A 0 before other digits.
unfoldable pub leads_zero : List ℕ → Bool
leads_zero [] = false
leads_zero (b ∷ []) = false
leads_zero (b ∷ c ∷ rest) = b == 48

-- The part of a dotted IPv4 address that `net.ParseIP` accepts.
unfoldable pub octet : List ℕ → Option ℕ
unfolding leads_zero parse_uint
octet bytes = if leads_zero bytes then none else parse_uint 8 bytes

leads_zero_cons : (b : ℕ) (rest : List ℕ) → (b == 48) ≡ false → leads_zero (b ∷ rest) ≡ false
unfolding leads_zero
leads_zero_cons b [] h = refl
leads_zero_cons b (c ∷ rest) h = h

leads_zero-print : (n : ℕ) → leads_zero (print n) ≡ false
unfolding leads_zero print digits
leads_zero-print zero = refl
leads_zero-print (suc n) =
    let (b, rest, eq, head) = digits_head (suc (suc n)) (suc n) [] (omega arith) in
    ap leads_zero eq ∙ leads_zero_cons b rest (head (omega arith))

pub octet-print : (n : ℕ) → n < 256 → octet (print n) ≡ some n
unfolding octet
octet-print n h =
    let small : ltb n (2 ^ 8) ≡ true = ground arith in
    rw (leads_zero-print n) (parse_uint-print 8 n ∙ rw small refl)
