-- ===== src/Bmp/Rd/RoundTrip.antt =====
-- The texts of route distinguishers (outlet/routing/provider/bmp/rd.go) are read back.
use akvorado.Prelude.{
  ℕ, ◌+◌, ◌*◌, ◌/◌, ◌%◌, ◌^◌, ◌<◌, ◌≡◌, refl, ◌∙◌, ap, true, false, some, List, [], ◌∷◌, ◌++◌, ltb,
  leb, ◌==◌, if◌then◌else◌, arith, Bool-cases, inl, inr,
}
use akvorado.Bmp.Decimal.{
  is_digit, colon, dot, print, parse_uint, split, lacks, split_one, split_more, parse_uint-print,
  lacks-print, octet-print,
}
use akvorado.Bmp.Rd.{
  dotted, ipv4_text, asn_text, ok, error, bad_asn4, not_a_number, ip4_of, of_ipv4, of_asn, of_pair,
  of_fields, unmarshal_text, string,
}

parse_small : (bits n : ℕ) → n < 2 ^ bits → parse_uint bits (print n) ≡ some n
parse_small bits n h =
    let e : ltb n (2 ^ bits) ≡ true = ground arith in parse_uint-print bits n ∙ rw e refl

split_pair :
    (s a b : ℕ)
    → lacks s (print a) ≡ true
    → lacks s (print b) ≡ true
    → split s (print a ++ s ∷ print b) ≡ print a ∷ print b ∷ []
split_pair s a b h k =
    split_more s (print a) (print b) h ∙ ap (λ xss. print a ∷ xss) (split_one s (print b) k)

-- Neither separator is a digit.
no_colon : (n : ℕ) → lacks colon (print n) ≡ true
unfolding is_digit
no_colon n = lacks-print colon n refl

no_dot : (n : ℕ) → lacks dot (print n) ≡ true
unfolding is_digit
no_dot n = lacks-print dot n refl

-- An ASN and an index, without a type: a small ASN makes an RD of type 0, and a large one an RD of
-- type 2 if the index is small too. Else the text is refused.
pub unmarshal_text-asn_text :
    (asn index : ℕ)
    → asn < 2 ^ 32
    → index < 2 ^ 32
    → unmarshal_text (asn_text asn index) ≡ (
        if leb asn 65535
        then ok (asn * 2 ^ 32 + index)
        else if ltb 65535 index
        then error bad_asn4
        else ok (2 * 2 ^ 48 + asn * 2 ^ 16 + index))
unfolding unmarshal_text of_pair of_asn asn_text of_fields
unmarshal_text-asn_text asn index h k =
    ap of_fields (split_pair colon asn index (no_colon asn) (no_colon index))
    ∙ rw (no_dot asn, parse_small 32 asn h, parse_small 32 index k) (ground arith)

-- The same with the type 2 in front.
unmarshal_text_typed :
    (asn index : ℕ)
    → asn < 2 ^ 32
    → index < 2 ^ 16
    → unmarshal_text (print 2 ++ (colon ∷ asn_text asn index))
      ≡ ok (2 * 2 ^ 48 + asn * 2 ^ 16 + index)
unfolding unmarshal_text of_pair of_asn asn_text of_fields print parse_uint is_digit
unmarshal_text_typed asn index h k =
    ap of_fields (
      split_more colon (print 2) _ (no_colon 2)
      ∙ ap (λ xss. print 2 ∷ xss) (split_pair colon asn index (no_colon asn) (no_colon index)))
    ∙ rw (parse_small 32 asn h, parse_small 32 index (omega arith)) (ground arith)

ip4_of-split : (ip : ℕ) → ip < 2 ^ 32 → ip4_of (split dot (dotted ip)) ≡ some ip
unfolding ip4_of dotted
ip4_of-split ip h =
    let a = ip / 2 ^ 24 % 2 ^ 8 in
    let b = ip / 2 ^ 16 % 2 ^ 8 in
    let c = ip / 2 ^ 8 % 2 ^ 8 in
    let d = ip % 2 ^ 8 in
    let total : a * 2 ^ 24 + b * 2 ^ 16 + c * 2 ^ 8 + d ≡ ip = omega arith in
    ap ip4_of (
      split_more dot (print a) _ (no_dot a)
      ∙ ap (λ xss. print a ∷ xss)
          (split_more dot (print b) _ (no_dot b)
            ∙ ap (λ xss. print b ∷ xss) (split_pair dot c d (no_dot c) (no_dot d))))
    ∙ rw
        (
          octet-print a (omega arith),
          octet-print b (omega arith),
          octet-print c (omega arith),
          octet-print d (omega arith),
        )
        (ap some total)

lacks-append :
    (s : ℕ) (xs ys : List ℕ) → lacks s xs ≡ true → lacks s ys ≡ true → lacks s (xs ++ ys) ≡ true
unfolding lacks
lacks-append s [] ys h k = k
lacks-append s (x ∷ xs) ys h k = ground (arith, lacks-append s xs ys)

lacks_middle : (xs ys : List ℕ) → lacks dot (xs ++ (dot ∷ ys)) ≡ false
unfolding lacks
lacks_middle [] ys = ground arith
lacks_middle (x ∷ xs) ys = ground (arith, lacks_middle xs ys)

lacks-dotted : (ip : ℕ) → lacks dot (dotted ip) ≡ false
unfolding dotted
lacks-dotted ip = lacks_middle (print (ip / 2 ^ 24 % 2 ^ 8)) _

no_colon-dotted : (ip : ℕ) → lacks colon (dotted ip) ≡ true
unfolding lacks dotted
no_colon-dotted ip = lacks-append colon (print (ip / 2 ^ 24 % 2 ^ 8)) _ (no_colon _) (
    lacks-append colon (print (ip / 2 ^ 16 % 2 ^ 8)) _ (no_colon _)
      (lacks-append colon (print (ip / 2 ^ 8 % 2 ^ 8)) _ (no_colon _) (no_colon _)))

unmarshal_text-ipv4_text :
    (ip index : ℕ)
    → ip < 2 ^ 32
    → index < 2 ^ 16
    → unmarshal_text (ipv4_text ip index) ≡ ok (2 ^ 48 + ip * 2 ^ 16 + index)
unfolding unmarshal_text of_pair of_ipv4 ipv4_text of_fields
unmarshal_text-ipv4_text ip index h k =
    ap of_fields (
      split_more colon (dotted ip) (print index) (no_colon-dotted ip)
      ∙ ap (λ xss. dotted ip ∷ xss) (split_one colon (print index) (no_colon index)))
    ∙ rw (lacks-dotted ip, ip4_of-split ip h, parse_small 16 index k) refl

string_type0 : (rd : ℕ) → rd / 2 ^ 48 ≡ 0 → unmarshal_text (string rd) ≡ ok rd
unfolding string
string_type0 rd e =
    let a = rd % 2 ^ 48 / 2 ^ 32 % 2 ^ 16 in
    let i = rd % 2 ^ 48 % 2 ^ 32 in
    let total : a * 2 ^ 32 + i ≡ rd = omega arith in
    let small : leb a 65535 ≡ true = ground arith in
    rw (e, string)
      (unmarshal_text-asn_text a i (omega arith) (omega arith) ∙ rw small (ap ok total))

string_type1 : (rd : ℕ) → rd / 2 ^ 48 ≡ 1 → unmarshal_text (string rd) ≡ ok rd
unfolding string
string_type1 rd e =
    let ip = rd % 2 ^ 48 / 2 ^ 16 in
    let i = rd % 2 ^ 48 % 2 ^ 16 in
    let total : 2 ^ 48 + ip * 2 ^ 16 + i ≡ rd = omega arith in
    rw (e, string) (unmarshal_text-ipv4_text ip i (omega arith) (omega arith) ∙ ap ok total)

string_type2 : (rd : ℕ) → rd / 2 ^ 48 ≡ 2 → unmarshal_text (string rd) ≡ ok rd
unfolding string
string_type2 rd e =
    let a = rd % 2 ^ 48 / 2 ^ 16 % 2 ^ 32 in
    let i = rd % 2 ^ 48 % 2 ^ 16 in
    let total : 2 * 2 ^ 48 + a * 2 ^ 16 + i ≡ rd = omega arith in
    elim (Bool-cases (leb a 65535)) [
      | inl small ↦
          rw (e, string, small) (unmarshal_text_typed a i (omega arith) (omega arith) ∙ ap ok total)
      | inr large ↦
          rw (e, string, large)
            (unmarshal_text-asn_text a i (omega arith) (omega arith) ∙ ground (arith, large, total))
    ]

unmarshal_empty : unmarshal_text [] ≡ error not_a_number
unfolding unmarshal_text of_fields split parse_uint
unmarshal_empty = refl

-- The text of an RD is read back as that RD, when its type is 0, 1 or 2. The text of any other RD is
-- empty, and reading it is an error.
pub unmarshal_text-string :
    (rd : ℕ)
    → unmarshal_text (string rd) ≡ (if leb (rd / 2 ^ 48) 2 then ok rd else error not_a_number)
unfolding string
unmarshal_text-string rd = elim (Bool-cases (rd / 2 ^ 48 == 0)) [
  | inl e ↦ string_type0 rd (ground (arith, e)) ∙ ground (arith, e)
  | inr e ↦ elim (Bool-cases (rd / 2 ^ 48 == 1)) [
    | inl f ↦ string_type1 rd (ground (arith, f)) ∙ ground (arith, f)
    | inr f ↦ elim (Bool-cases (rd / 2 ^ 48 == 2)) [
      | inl g ↦ string_type2 rd (ground (arith, g)) ∙ ground (arith, g)
      | inr g ↦ rw (e, f, g, string) (unmarshal_empty ∙ ground (arith, e, f, g))
    ]
  ]
]
