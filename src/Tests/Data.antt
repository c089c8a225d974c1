-- ===== src/Tests/Data.antt =====
-- A ch-go that appends to lists, and a schema with all its columns, whose reverse table swaps the
-- VLANs and the interfaces' speeds.
use akvorado.Prelude.{
  ℕ, ◌+◌, refl, false, [], ◌∷◌, ◌++◌, length, ◌==◌, if◌then◌else◌, arith, Bool-cases, inl, inr,
  ==_iff,
}
use akvorado.Schema.Keys
use akvorado.Schema.Keys.{column_types, column_type}
use akvorado.Schema.Columns.{ChGo, empty_column}
use akvorado.Schema.Message.{Schema, FlowMessage, new_flow_message}
use akvorado.Schema.Message.Pending.{IsBuilding}
use akvorado.Schema.Batch.Aligned.{IsAligned, IsAligned-IsBuilding}
use akvorado.Schema.Batch.Fresh.{IsSchema, new_flow_message-IsAligned}

abbrev pub test_ch : ChGo
test_ch = record {
  append = λ rows v. rows ++ v ∷ [];
  append_lem = λ rows v. refl;
  offsets = λ offs items vs. offs ++ (length items + length vs) ∷ [];
  offsets_lem = λ offs items vs. refl;
  items = λ old vs. old ++ vs;
  items_lem = λ old vs. refl;
  reset = λ c. empty_column c;
  reset_lem = λ c. refl;
}

abbrev pub test_reverse : ℕ → ℕ
test_reverse k =
    if k == Keys.src_vlan then Keys.dst_vlan else if k == Keys.dst_vlan then Keys.src_vlan else k

abbrev pub test_schema : Schema
test_schema = record {
  column_disabled = λ k. false;
  is_disabled = λ g. false;
  reverse_table = test_reverse;
  protobuf_index = λ k. k;
}

pub test_schema-IsSchema : IsSchema test_schema
test_schema-IsSchema = record {
  reverse_width = λ k h. elim (Bool-cases (k == Keys.src_vlan)) [
    | inl e ↦ rw e (omega arith)
    | inr e ↦
        rw e
          (elim (Bool-cases (k == Keys.dst_vlan)) [ inl f ↦ rw f (omega arith) | inr f ↦ rw f h ])
  ];
  reverse_types = λ k. elim (Bool-cases (k == Keys.src_vlan)) [
    | inl e ↦ rw (e, (==_iff k Keys.src_vlan).0 e) refl
    | inr e ↦ rw e (elim (Bool-cases (k == Keys.dst_vlan)) [
      | inl f ↦ rw (f, (==_iff k Keys.dst_vlan).0 f) refl
      | inr f ↦ rw f refl
    ])
  ];
}

abbrev pub test_flow : FlowMessage
test_flow = new_flow_message test_schema

pub test_flow-IsAligned : IsAligned test_flow
test_flow-IsAligned = new_flow_message-IsAligned test_schema test_schema-IsSchema

pub test_flow-IsBuilding : IsBuilding test_flow.batch test_flow
test_flow-IsBuilding = IsAligned-IsBuilding test_flow test_flow-IsAligned
