-- ===== src/Tests/Decoding.antt =====
-- Decoders on samples and records.
use native.Mathlib.Decide.{ℕ_discrete}
use akvorado.GoMap
use akvorado.Prelude.{ℕ, ◌^◌, ◌≡◌, refl, false, none, some, List, [], ◌∷◌, replicate}
use akvorado.Schema.Message.{reset, new_flow_message}
use akvorado.Packet.Headers.{decap_none, decap_gre}
use akvorado.Flow.Sflow.{decode_sample, add_records, begin_sample}
use akvorado.Flow.Stream.{FinalizeFlow}
use akvorado.Flow.Sflow.{flow_sample, sampled_header, decode_samples}
use akvorado.Flow.Netflow.{DataField, ts_input, TemplatesAndOptions, get_sampling_rate}
use akvorado.Flow.Netflow.Record.{BitSet}
use akvorado.Flow.Netflow.Decode.{
  add_option, decoding_error, learn_sampling_rate, learn_sampling_rates,
}
use akvorado.Flow.Netflow.Rates.{or_else, latest_rate, learn_sampling_rates-get}
use akvorado.Flow.Decode
use akvorado.Flow.Decode.{RawFlow, Libraries, decoder_sflow}
use akvorado.Tests.Data.{test_ch, test_flow}

-- The callback notes the input interfaces.
abbrev note_interface : FinalizeFlow (List ℕ)
note_interface (bf, x) = some (reset bf, bf.in_if ∷ x)

-- A sample that is not encapsulated is dropped, but its interfaces stay in the message, and the next
-- sample keeps the input interface if its own is not an index.
dropped_sample_stays :
    decode_samples test_ch
      (λ g. false)
      decap_gre
      note_interface
      []
      (flow_sample 10 5 6 [] ∷ [])
      (test_flow, [])
    ≡ some (record test_flow { sampling_rate = 10; in_if = 5; out_if = 6 }, [])
unfolding decode_samples new_flow_message decode_sample add_records
dropped_sample_stays = refl

next_sample_keeps :
    (begin_sample (flow_sample 10 (2 ^ 31) 7 []) (record test_flow { in_if = 5 })).2.in_if ≡ 5
unfolding begin_sample new_flow_message
next_sample_keeps = refl

abbrev no_bits : BitSet (List ℕ)
no_bits = record { new = λ n. []; set = λ n b. n ∷ b; test = λ n b. false }

abbrev pub libraries : Libraries (List ℕ) ℕ
libraries = record {
  bits = no_bits;
  goflow = record {
    decode_v5 = λ bytes. none;
    decode_v9 = λ get bytes. ([], decoding_error);
    decode_ipfix = λ get bytes. ([], decoding_error);
  };
  decode_sflow = λ bytes. some (record {
    agent_ip = 192 ∷ 0 ∷ 2 ∷ 1 ∷ [];
    samples = flow_sample 10 5 6 (sampled_header 11 (0x45 ∷ replicate 39 1) ∷ []) ∷ [];
  });
  text = λ a. [];
}

abbrev pub raw : RawFlow
raw = record {
  time_received = 100;
  payload = 1 ∷ [];
  source_address = replicate 16 1;
  use_source_address = false;
  decoder = decoder_sflow;
  timestamp_source = ts_input;
  decapsulation_protocol = decap_none;
  rate_limit = 0;
}

-- A relation that always holds, and a callback that takes every flow back.
abbrev Anything : ℕ → ℕ → Type 0
Anything rows x = Unit {0}

-- An options record: 1 out of 100 packets for the sampler 3.
abbrev options : List DataField
options =
    record { pen_provided = false; pen = 0; type_id = 302; value = some (3 ∷ []) }
    ∷ record { pen_provided = false; pen = 0; type_id = 305; value = some (1 ∷ []) }
    ∷ record { pen_provided = false; pen = 0; type_id = 306; value = some (99 ∷ []) }
    ∷ []

abbrev no_rates : TemplatesAndOptions ℕ
no_rates = record { templates = []; sampling_rates = [] }

-- Then 1 out of 50 packets for the sampler 4.
abbrev other_options : List DataField
other_options =
    record { pen_provided = false; pen = 0; type_id = 48; value = some (4 ∷ []) }
    ∷ record { pen_provided = false; pen = 0; type_id = 34; value = some (50 ∷ []) }
    ∷ []

learn_sampling_rates-get_example :
    get_sampling_rate (learn_sampling_rates 10 1 (options ∷ other_options ∷ []) no_rates) (10, 1, 3)
    ≡ or_else
        (latest_rate 10 1 (options ∷ other_options ∷ []) (10, 1, 3))
        (get_sampling_rate no_rates (10, 1, 3))
learn_sampling_rates-get_example =
    learn_sampling_rates-get 10 1 (options ∷ other_options ∷ []) no_rates (10, 1, 3)

learned_rate : get_sampling_rate (learn_sampling_rate 10 1 options no_rates) (10, 1, 3) ≡ 100
unfolding get_sampling_rate learn_sampling_rate GoMap.get GoMap.put add_option ℕ_discrete
learned_rate = refl
