-- ===== src/Tests/Distinguishers.antt =====
-- Route distinguishers and their texts.
use akvorado.Prelude.{◌/◌, ◌+◌, ◌*◌, ◌^◌, ◌≡◌, ltb, leb, if◌then◌else◌, arith}
use akvorado.Bmp.Rd.{ok, error, bad_asn4, not_a_number, asn_text, unmarshal_text, string}
use akvorado.Bmp.Rd.RoundTrip.{unmarshal_text-asn_text, unmarshal_text-string}

unmarshal_text-asn_text_example : unmarshal_text (asn_text 70000 80000) ≡ (
    if leb 70000 65535
    then ok (70000 * 2 ^ 32 + 80000)
    else if ltb 65535 80000
    then error bad_asn4
    else ok (2 * 2 ^ 48 + 70000 * 2 ^ 16 + 80000))
unmarshal_text-asn_text_example = unmarshal_text-asn_text 70000 80000 (omega arith) (omega arith)

unmarshal_text-string_example :
    unmarshal_text (string (2 ^ 48 + 258))
    ≡ (if leb ((2 ^ 48 + 258) / 2 ^ 48) 2 then ok (2 ^ 48 + 258) else error not_a_number)
unmarshal_text-string_example = unmarshal_text-string (2 ^ 48 + 258)
