-- ===== src/Packet/Frames/Within.antt =====
-- What the loops of `ParseEthernet` in outlet/flow/decoder/helpers.go leave of a packet, and the look
-- at what is behind the labels.
use akvorado.Prelude.{
  ℕ, ◌+◌, ◌*◌, ◌/◌, ◌%◌, ◌^◌, ◌≤◌, ◌≡◌, refl, Bool, true, false, Option, none, some, List, [], ◌∷◌,
  ◌++◌, length, ltb, ◌==◌, if◌then◌else◌, Returns, Returns-bind, arith,
}
use akvorado.Packet.Bytes.{etype_vlan, byte, uint32, byte-Returns, uint32-Returns}
use akvorado.Packet.Headers.Parsed.{le_of}
use akvorado.Packet.Frames.{
  Payload, ethernet, unknown, skip_vlans, mpls_stack, control_word, mpls_payload,
}

-- What is left of the packet is no longer than `n`.
abbrev pub Within : {A B : Type 0} → ℕ → Option (A × B × List ℕ) → Type 0
Within n none = Unit
Within n (some (a, b, rest)) = length rest ≤ n

Within-weaken :
    {A B : Type 0} (m n : ℕ) (o : Option (A × B × List ℕ)) → m ≤ n → Within m o → Within n o
Within-weaken m n none h w = tt
Within-weaken m n (some (a, b, rest)) h w = omega arith

Within-if :
    {A B : Type 0} (n : ℕ) (t : Bool) (o p : Option (A × B × List ℕ))
    → Within n o
    → Within n p
    → Within n (if t then o else p)
Within-if n true o p h k = h
Within-if n false o p h k = k

pub skip_vlans-Within :
    (wanted : Bool) (etype vlan : ℕ) (bytes : List ℕ)
    → Within (length bytes) (skip_vlans wanted etype vlan bytes)
unfolding skip_vlans
skip_vlans-Within wanted etype vlan (a ∷ b ∷ c ∷ d ∷ rest) =
    Within-if _ (etype == etype_vlan) _ _
      (Within-weaken (length rest) _ _ (omega arith)
        (skip_vlans-Within wanted (c * 256 + d) (if wanted then a % 16 * 256 + b else vlan) rest))
      (omega arith)
skip_vlans-Within wanted etype vlan [] = Within-if _ (etype == etype_vlan) _ _ tt (omega arith)
skip_vlans-Within wanted etype vlan (a ∷ []) =
    Within-if _ (etype == etype_vlan) _ _ tt (omega arith)
skip_vlans-Within wanted etype vlan (a ∷ b ∷ []) =
    Within-if _ (etype == etype_vlan) _ _ tt (omega arith)
skip_vlans-Within wanted etype vlan (a ∷ b ∷ c ∷ []) =
    Within-if _ (etype == etype_vlan) _ _ tt (omega arith)

pub mpls_stack-Within : (labels bytes : List ℕ) → Within (length bytes) (mpls_stack labels bytes)
unfolding mpls_stack
mpls_stack-Within labels (a ∷ b ∷ c ∷ d ∷ rest) = Within-if _ (length rest == 0) _ _ tt (
    Within-if _ (c % 2 == 1) _ _ (omega arith) (
      Within-weaken (length rest) _ _ (omega arith)
        (mpls_stack-Within (labels ++ (a * 2 ^ 16 + b * 2 ^ 8 + c) / 16 ∷ []) rest)))
mpls_stack-Within labels [] = tt
mpls_stack-Within labels (a ∷ []) = tt
mpls_stack-Within labels (a ∷ b ∷ []) = tt
mpls_stack-Within labels (a ∷ b ∷ c ∷ []) = tt

Returns-if :
    {A : Type 0} (P : A → Type 0) (t : Bool) (m n : Option A)
    → (t ≡ true → Returns P m)
    → (t ≡ false → Returns P n)
    → Returns P (if t then m else n)
Returns-if P true m n h k = h refl
Returns-if P false m n h k = k refl

-- A frame is only found behind a control word.
abbrev pub HasRoom : List ℕ → Payload → Type 0
HasRoom bytes ethernet = 4 ≤ length bytes
HasRoom bytes _ = Unit {0}

word_payload-HasRoom :
    (bytes : List ℕ) (zero_word : Bool)
    → 4 ≤ length bytes
    → HasRoom bytes (if zero_word then ethernet else unknown)
word_payload-HasRoom bytes true h = h
word_payload-HasRoom bytes false h = tt

control_word-Returns : (bytes : List ℕ) → Returns (HasRoom bytes) (control_word bytes)
unfolding control_word
control_word-Returns bytes =
    Returns-if (HasRoom bytes) (ltb (length bytes) 4) _ _ (λ t. tt)
      (λ t.
        Returns-bind (λ w. Unit {0}) (HasRoom bytes) (uint32 bytes 0) _
          (uint32-Returns bytes 0 (le_of (length bytes) 4 t))
          (λ w u. word_payload-HasRoom bytes (w == 0) (le_of (length bytes) 4 t)))

pub mpls_payload-Returns :
    (label : ℕ) (bytes : List ℕ) → Returns (HasRoom bytes) (mpls_payload label bytes)
unfolding mpls_payload
mpls_payload-Returns label bytes =
    Returns-if (HasRoom bytes) (label == 0) _ _ (λ t. tt)
      (λ t.
        Returns-if (HasRoom bytes) (label == 2) _ _ (λ t. tt)
          (λ t.
            Returns-if (HasRoom bytes) (ltb (length bytes) 1) _ _ (λ t. tt)
              (λ t.
                Returns-bind (λ w. Unit {0}) (HasRoom bytes) (byte bytes 0) _
                  (byte-Returns bytes 0 (le_of (length bytes) 1 t))
                  (λ first u.
                    Returns-if (HasRoom bytes) (first / 16 == 4) _ _ (λ t. tt)
                      (λ t.
                        Returns-if (HasRoom bytes) (first / 16 == 6) _ _ (λ t. tt)
                          (λ t.
                            Returns-if (HasRoom bytes) (first / 16 == 0) _ _
                              (λ t. control_word-Returns bytes) (λ t. tt)))))))
