-- ===== src/Bmp/Rd.antt =====
-- outlet/routing/provider/bmp/rd.go: route distinguishers and their texts. The conversion from GoBGP
-- reads the eight bytes that it gives.
pub mod RoundTrip
use akvorado.Prelude.{
  ℕ, ◌+◌, ◌*◌, ◌/◌, ◌%◌, ◌^◌, Bool, true, false, not, ◌&&◌, ◌||◌, Option, none, some, List, [], ◌∷◌,
  ◌++◌, length, ltb, leb, ◌==◌, if◌then◌else◌, ◌>>=◌,
}
use akvorado.Packet.Bytes.{big_endian}
use akvorado.Bmp.Decimal.{colon, dot, print, parse_uint, split, lacks, octet}

-- The errors of `UnmarshalText`.
pub data RdError : Type 0 where
  not_a_number bad_type bad_ipv4 bad_asn bad_asn2 bad_asn4 bad_rd : RdError

pub data Result : Type 0 where
  ok : ℕ → Result
  error : RdError → Result

-- The type of an RD, when the text gives it: `strconv.Atoi`, of 0, 1 or 2. There may be a sign.
unfoldable pub parse_type : List ℕ → Option ℕ
parse_type [] = none
parse_type (b ∷ rest) = do
  n ← parse_uint 63 (if b == 43 || b == 45 then rest else b ∷ rest)
  if leb n 2 && (not (b == 45) || n == 0) then some n else none

-- `net.ParseIP` of a text without a colon, by its fields between dots.
unfoldable pub ip4_of : List (List ℕ) → Option ℕ
ip4_of (a ∷ b ∷ c ∷ d ∷ []) = do
  i ← octet a
  j ← octet b
  k ← octet c
  l ← octet d
  some (i * 2 ^ 24 + j * 2 ^ 16 + k * 2 ^ 8 + l)
ip4_of _ = none

-- An IPv4 address and an index.
unfoldable pub of_ipv4 : Option ℕ → Option ℕ → Result
of_ipv4 (some ip) (some index) = ok (2 ^ 48 + ip * 2 ^ 16 + index)
of_ipv4 _ _ = error bad_ipv4

-- An ASN and an index: the type may be missing.
unfoldable pub of_asn : Option ℕ → Option ℕ → Option ℕ → Result
of_asn type_id (some asn) (some index) =
    let is_type : ℕ → Bool = λ n. elim type_id [ none ↦ false | some t ↦ t == n ] in
    if is_type 0 && ltb 65535 asn
    then error bad_asn2
    else if leb asn 65535 && not (is_type 2)
    then ok (asn * 2 ^ 32 + index)
    else if ltb 65535 index
    then error bad_asn4
    else ok (2 * 2 ^ 48 + asn * 2 ^ 16 + index)
of_asn type_id _ _ = error bad_asn

-- The last two fields, with the type if there is one.
unfoldable pub of_pair : Option ℕ → List ℕ → List ℕ → Result
unfolding ip4_of of_ipv4 of_asn
of_pair type_id first index =
    if elim type_id [ none ↦ not (lacks dot first) | some t ↦ t == 1 ]
    then of_ipv4 (ip4_of (split dot first)) (parse_uint 16 index)
    else of_asn type_id (parse_uint 32 first) (parse_uint 32 index)

-- The fields between colons.
unfoldable pub of_fields : List (List ℕ) → Result
unfolding parse_type of_pair
of_fields (text ∷ []) = elim (parse_uint 64 text) [ none ↦ error not_a_number | some n ↦ ok n ]
of_fields (first ∷ index ∷ []) = of_pair none first index
of_fields (type_text ∷ first ∷ index ∷ []) = elim (parse_type type_text) [
  | none ↦ error bad_type
  | some t ↦ of_pair (some t) first index
]
of_fields _ = error bad_rd

-- `UnmarshalText`
unfoldable pub unmarshal_text : List ℕ → Result
unfolding of_fields
unmarshal_text text = of_fields (split colon text)

-- An ASN or an address and an index.
unfoldable pub asn_text : ℕ → ℕ → List ℕ
asn_text asn index = print asn ++ colon ∷ print index

unfoldable pub dotted : ℕ → List ℕ
dotted ip =
    print (ip / 2 ^ 24 % 2 ^ 8)
    ++ (dot
        ∷ (print (ip / 2 ^ 16 % 2 ^ 8)
            ++ (dot ∷ (print (ip / 2 ^ 8 % 2 ^ 8) ++ (dot ∷ print (ip % 2 ^ 8))))))

unfoldable pub ipv4_text : ℕ → ℕ → List ℕ
unfolding dotted
ipv4_text ip index = dotted ip ++ (colon ∷ print index)

-- `String`: the type is in the upper 16 bits.
unfoldable pub string : ℕ → List ℕ
unfolding asn_text ipv4_text
string rd =
    let type_id = rd / 2 ^ 48 in
    let remaining = rd % 2 ^ 48 in
    let asn = remaining / 2 ^ 16 % 2 ^ 32 in
    if type_id == 0
    then asn_text (remaining / 2 ^ 32 % 2 ^ 16) (remaining % 2 ^ 32)
    else if type_id == 1
    then ipv4_text (remaining / 2 ^ 16) (remaining % 2 ^ 16)
    else if type_id == 2
    then if leb asn 65535
      then print 2 ++ (colon ∷ asn_text asn (remaining % 2 ^ 16))
      else asn_text asn (remaining % 2 ^ 16)
    else []

abbrev pub error_rd : ℕ
error_rd = 65535 * 2 ^ 48

-- `RDFromRouteDistinguisherInterface`, of the bytes that GoBGP serializes.
unfoldable pub from_bytes : Option (List ℕ) → ℕ
unfolding big_endian
from_bytes none = error_rd
from_bytes (some buf) = if length buf == 8 then big_endian buf else error_rd
