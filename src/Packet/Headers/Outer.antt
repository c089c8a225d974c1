-- ===== src/Packet/Headers/Outer.antt =====
-- The outer header of a packet that is to be decapsulated, in outlet/flow/decoder/helpers.go.
use akvorado.Prelude.{
  ◌≤◌, arith, ℕ, ◌+◌, ◌%◌, ◌^◌, ◌*◌, ◌≡◌, refl, ap, ◌⊎◌, Bool, true, false, Option, none, some,
  List, [], ◌∷◌, length, drop, ltb, leb, ◌==◌, if◌then◌else◌, ◌>>=◌, Bool-cases, inl, inr,
}
use akvorado.Schema.Keys.{ColumnGroup}
use akvorado.Schema.Columns.{ChGo}
use akvorado.Schema.Message.{FlowMessage}
use akvorado.Packet.Bytes.{byte, uint16, slice_from_within, slice_from_cases}
use akvorado.Packet.Headers.{
  Decapsulation, is_none, Parsed, L4Parser, outer_length, ipv4_payload, parse_ipv4_with,
  parse_ipv6_with,
}

-- The parser panicked, gave up, or went on with the payload.
abbrev pub IsOuter : L4Parser → FlowMessage → List ℕ → Parsed → Type 0
IsOuter l4 bf bytes r =
    (r ≡ none) ⊎ (r ≡ some (0, bf)) ⊎ ((n : ℕ) × (proto : ℕ) × (r ≡ l4 bf (drop n bytes) proto))

module _ (l4 : L4Parser) (bf : FlowMessage) (bytes : List ℕ) where
  IsOuter-if :
      (t : Bool) (m n : Parsed)
      → IsOuter l4 bf bytes m
      → IsOuter l4 bf bytes n
      → IsOuter l4 bf bytes (if t then m else n)
  IsOuter-if true m n h k = h
  IsOuter-if false m n h k = k

  IsOuter-read :
      {A : Type 0} (m : Option A) (f : A → Parsed)
      → ((a : A) → IsOuter l4 bf bytes (f a))
      → IsOuter l4 bf bytes (m >>= f)
  IsOuter-read none f h = inl refl
  IsOuter-read (some a) f h = h a

drop-length : (bytes : List ℕ) → [] ≡ drop (length bytes) bytes
drop-length [] = refl
drop-length (b ∷ bytes) = drop-length bytes

module _ (ch : ChGo) (is_disabled : ColumnGroup → Bool) (l4 : L4Parser) (decap : Decapsulation)
    (bf : FlowMessage) (bytes : List ℕ) (outer : is_none decap ≡ false) where
  outer_length_lem : (n : ℕ) (r : Parsed) → (r >>= outer_length ch is_disabled decap n) ≡ r
  unfolding outer_length
  outer_length_lem n none = refl
  outer_length_lem n (some p) = rw outer refl

  payload_end :
      (first : ℕ) → (n : ℕ) × (ipv4_payload ch is_disabled bytes first ≡ some (drop n bytes))
  unfolding ipv4_payload
  payload_end first = elim (Bool-cases (leb (first % 16 * 4) (length bytes))) [
    | inl e ↦
        let short : first % 16 * 4 ≤ length bytes = ground (arith, e) in
        (first % 16 * 4, rw e (slice_from_within bytes (first % 16 * 4) short))
    | inr e ↦ (length bytes, rw e (ap some (drop-length bytes)))
  ]

  -- The payload is an end of the packet.
  IsOuter-payload :
      (first : ℕ) (f : List ℕ → Parsed)
      → ((n : ℕ) → IsOuter l4 bf bytes (f (drop n bytes)))
      → IsOuter l4 bf bytes (ipv4_payload ch is_disabled bytes first >>= f)
  IsOuter-payload first f h = let (n, e) = payload_end first in rw e (h n)

  pub parse_ipv4_with-IsOuter :
      IsOuter l4 bf bytes (parse_ipv4_with ch is_disabled l4 decap bf bytes)
  unfolding parse_ipv4_with
  parse_ipv4_with-IsOuter = IsOuter-if l4 bf bytes (ltb (length bytes) 20) _ _ (inr (inl refl)) (
      IsOuter-read l4 bf bytes (uint16 bytes 2) _ (λ l3_length.
        IsOuter-read l4 bf bytes (uint16 bytes 6) _ (λ fragment.
          IsOuter-read l4 bf bytes (byte bytes 9) _ (λ proto. rw outer (
            IsOuter-read l4 bf bytes (byte bytes 0) _ (λ first. IsOuter-payload first _ (λ n.
              IsOuter-if l4 bf bytes (fragment % 2 ^ 13 == 0) _ _
                (inr (inr (n, proto, outer_length_lem l3_length _))) (inr (inl refl)))))))))

  pub parse_ipv6_with-IsOuter :
      IsOuter l4 bf bytes (parse_ipv6_with ch is_disabled l4 decap bf bytes)
  unfolding parse_ipv6_with
  parse_ipv6_with-IsOuter = IsOuter-if l4 bf bytes (ltb (length bytes) 40) _ _ (inr (inl refl)) (
      IsOuter-read l4 bf bytes (uint16 bytes 4) _ (λ payload_length.
        IsOuter-read l4 bf bytes (byte bytes 6) _ (λ proto.
          rw outer (elim (slice_from_cases bytes 40) [
            | inl e ↦ rw e (inl refl)
            | inr e ↦ rw e (inr (inr (40, proto, outer_length_lem (payload_length + 40) _)))
          ]))))
