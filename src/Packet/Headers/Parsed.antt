-- ===== src/Packet/Headers/Parsed.antt =====
-- Results of the parsers of outlet/flow/decoder/helpers.go: what it takes for one to be there.
use akvorado.Prelude.{
  length, drop, ℕ, ◌<◌, ◌≤◌, ◌≡◌, refl, Bool, true, false, ◌&&◌, Option, none, some, List, ltb,
  if◌then◌else◌, ◌>>=◌, Returns, Returns-bind, arith,
}
use akvorado.Schema.Keys.{ColumnGroup}
use akvorado.Schema.Columns.{ChGo}
use akvorado.Schema.Message.{Batch, FlowMessage}
use akvorado.Schema.Message.Pending.{IsBuilding}
use akvorado.Schema.Message.Safe.{IsSafe, IsSafe-some}
use akvorado.Packet.Bytes.{slice_from, slice_from_within}
use akvorado.Packet.Headers.{
  Decapsulation, Parsed, L4Parser, FrameParser, with_length, when, outer_length,
}

-- The result is there, and the message is one of a flow that is being built.
pub record IsParsed (base : Batch) (m : Parsed) : Type 0 where
  pub returns : Returns (λ p. IsBuilding base p.1) m

abbrev pub IsL4Safe : Batch → L4Parser → Type 0
IsL4Safe base l4 =
    (bf : FlowMessage) (bytes : List ℕ) (proto : ℕ)
    → IsBuilding base bf
    → IsParsed base (l4 bf bytes proto)

abbrev pub IsFrameSafe : Batch → FrameParser → Type 0
IsFrameSafe base frame =
    (bf : FlowMessage) (bytes : List ℕ) → IsBuilding base bf → IsParsed base (frame bf bytes)

module _ {base : Batch} where
  pub IsParsed-some : (n : ℕ) (bf : FlowMessage) → IsBuilding base bf → IsParsed base (some (n, bf))
  IsParsed-some n bf b = record { returns = b }

  pub IsParsed-with_length :
      (n : ℕ) (m : Option FlowMessage) → IsSafe base m → IsParsed base (with_length n m)
  IsParsed-with_length n none h = record { returns = h.returns }
  IsParsed-with_length n (some bf) h = record { returns = h.returns }

  pub IsParsed-bind :
      (m : Option FlowMessage) (f : FlowMessage → Parsed)
      → IsSafe base m
      → ((bf : FlowMessage) → IsBuilding base bf → IsParsed base (f bf))
      → IsParsed base (m >>= f)
  IsParsed-bind m f h k = record {
    returns =
        Returns-bind (IsBuilding base) (λ p. IsBuilding base p.1) m f h.returns
          (λ bf b. (k bf b).returns);
  }

  pub IsParsed-if :
      (t : Bool) (m n : Parsed)
      → (t ≡ true → IsParsed base m)
      → (t ≡ false → IsParsed base n)
      → IsParsed base (if t then m else n)
  IsParsed-if true m n h k = h refl
  IsParsed-if false m n h k = k refl

  -- A read that does not fail.
  pub IsParsed-read :
      {A : Type 0} (m : Option A) (f : A → Parsed)
      → Returns (λ a. Unit {0}) m
      → ((a : A) → IsParsed base (f a))
      → IsParsed base (m >>= f)
  IsParsed-read none f h k = absurd h
  IsParsed-read (some a) f h k = k a

  -- A result that is there and meets a predicate.
  pub IsParsed-taken :
      {A : Type 0} (P : A → Type 0) (m : Option A) (f : A → Parsed)
      → Returns P m
      → ((a : A) → P a → IsParsed base (f a))
      → IsParsed base (m >>= f)
  IsParsed-taken P none f h k = absurd h
  IsParsed-taken P (some a) f h k = k a h

  -- A slice that stays within the packet.
  pub IsParsed-slice_from :
      (bytes : List ℕ) (n : ℕ) (f : List ℕ → Parsed)
      → n ≤ length bytes
      → IsParsed base (f (drop n bytes))
      → IsParsed base (slice_from bytes n >>= f)
  IsParsed-slice_from bytes n f h k = rw (slice_from_within bytes n h) k

  pub IsSafe-read :
      {A : Type 0} (m : Option A) (f : A → Option FlowMessage)
      → Returns (λ a. Unit {0}) m
      → ((a : A) → IsSafe base (f a))
      → IsSafe base (m >>= f)
  IsSafe-read none f h k = absurd h
  IsSafe-read (some a) f h k = k a

  pub IsSafe-when :
      (t : Bool) (f : FlowMessage → Option FlowMessage) (bf : FlowMessage)
      → IsBuilding base bf
      → (t ≡ true → IsSafe base (f bf))
      → IsSafe base (when t f bf)
  IsSafe-when true f bf b h = h refl
  IsSafe-when false f bf b h = IsSafe-some bf b

  pub outer_length-IsParsed :
      (ch : ChGo) (is_disabled : ColumnGroup → Bool) (decap : Decapsulation) (n : ℕ) (m : Parsed)
      → IsParsed base m
      → IsParsed base (m >>= outer_length ch is_disabled decap n)
  unfolding outer_length
  outer_length-IsParsed ch is_disabled decap n none h = h
  outer_length-IsParsed ch is_disabled decap n (some p) h = record { returns = h.returns }

pub le_of : (a b : ℕ) → ltb a b ≡ false → b ≤ a
le_of a b h = ground arith

pub lt_of : (a b : ℕ) → ltb a b ≡ true → a < b
lt_of a b h = ground arith

pub and_right : (a b : Bool) → (a && b) ≡ true → b ≡ true
and_right a b h = ground arith
