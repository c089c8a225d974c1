-- ===== src/Flow/Netflow/Rates.antt =====
-- The sampling rates that exporters announce in options records
-- (outlet/flow/decoder/netflow/decode.go and templates.go).
use mathlib.Core.Logic.{ite}
use akvorado.Prelude.{
  ℕ, ◌+◌, ◌/◌, ◌%◌, ◌^◌, ◌≡◌, refl, ◌∙◌, ap, Bool, not, ◌&&◌, ◌||◌, Option, none, some, List, [],
  ◌∷◌, ltb, ◌==◌, if◌then◌else◌, Bool-cases, Option-cases, inl, inr, arith,
}
use akvorado.GoMap.{get-put}
use akvorado.Flow.Netflow.{
  decode_u_number, DataField, key_discrete, Key, TemplatesAndOptions, get_sampling_rate,
  set_sampling_rate,
}
use akvorado.Flow.Netflow.Decode.{
  SamplingOptions, add_option, add_options, option_rate, learn_sampling_rate, learn_sampling_rates,
}

abbrev pub or_else : Option ℕ → ℕ → ℕ
or_else none d = d
or_else (some n) d = n

abbrev pub low_word : Option ℕ → Option ℕ
low_word none = none
low_word (some n) = some (n % 2 ^ 32)

-- The number of a standard field, if it has one of the types.
unfoldable pub number_of : (ℕ → Bool) → DataField → Option ℕ
unfolding decode_u_number
number_of wanted f = elim f.value [
  | none ↦ none
  | some v ↦ if not f.pen_provided && wanted f.type_id then some (decode_u_number v) else none
]

-- The number of the last field of one of the types.
unfoldable pub last_number : (ℕ → Bool) → List DataField → Option ℕ
last_number wanted [] = none
last_number wanted (f ∷ fields) = elim (last_number wanted fields) [
  | some n ↦ some n
  | none ↦ number_of wanted f
]

-- The types of the fields (samplingInterval and samplerRandomInterval; samplerId and selectorId;
-- samplingPacketInterval; samplingPacketSpace).
abbrev pub tells_rate : ℕ → Bool
tells_rate n = n == 34 || n == 50

abbrev pub tells_sampler : ℕ → Bool
tells_sampler n = n == 48 || n == 302

abbrev pub tells_interval : ℕ → Bool
tells_interval n = n == 305

abbrev pub tells_space : ℕ → Bool
tells_space n = n == 306

module _ (f : DataField) (o : SamplingOptions) where
  add_option-sampler_id :
      (add_option f o).sampler_id ≡ or_else (number_of tells_sampler f) o.sampler_id
  unfolding add_option number_of
  add_option-sampler_id = elim (Option-cases f.value) [
    | inl e ↦ rw e (ground arith)
    | inr (v, e) ↦ rw e (ground arith)
  ]

  add_option-sampling_rate :
      (add_option f o).sampling_rate ≡ or_else (low_word (number_of tells_rate f)) o.sampling_rate
  unfolding add_option number_of
  add_option-sampling_rate = elim (Option-cases f.value) [
    | inl e ↦ rw e (ground arith)
    | inr (v, e) ↦ rw e (ground arith)
  ]

  add_option-packet_interval :
      (add_option f o).packet_interval
      ≡ or_else (low_word (number_of tells_interval f)) o.packet_interval
  unfolding add_option number_of
  add_option-packet_interval = elim (Option-cases f.value) [
    | inl e ↦ rw e (ground arith)
    | inr (v, e) ↦ rw e (ground arith)
  ]

  add_option-packet_space :
      (add_option f o).packet_space ≡ or_else (low_word (number_of tells_space f)) o.packet_space
  unfolding add_option number_of
  add_option-packet_space = elim (Option-cases f.value) [
    | inl e ↦ rw e (ground arith)
    | inr (v, e) ↦ rw e (ground arith)
  ]

-- What the last field of a type gives, over the fields before it.
or_else-last_number :
    (wanted : ℕ → Bool) (f : DataField) (fields : List DataField) (d : ℕ)
    → or_else (last_number wanted fields) (or_else (number_of wanted f) d)
      ≡ or_else (last_number wanted (f ∷ fields)) d
unfolding last_number
or_else-last_number wanted f fields d = elim (Option-cases (last_number wanted fields)) [
  | inl e ↦ rw e refl
  | inr (n, e) ↦ rw e refl
]

or_else-low_word :
    (wanted : ℕ → Bool) (f : DataField) (fields : List DataField) (d : ℕ)
    → or_else (low_word (last_number wanted fields)) (or_else (low_word (number_of wanted f)) d)
      ≡ or_else (low_word (last_number wanted (f ∷ fields))) d
unfolding last_number
or_else-low_word wanted f fields d = elim (Option-cases (last_number wanted fields)) [
  | inl e ↦ rw e refl
  | inr (n, e) ↦ rw e refl
]

add_options_lem :
    (fields : List DataField) (o : SamplingOptions)
    → ((add_options fields o).sampler_id ≡ or_else (last_number tells_sampler fields) o.sampler_id)
      × ((add_options fields o).sampling_rate
          ≡ or_else (low_word (last_number tells_rate fields)) o.sampling_rate)
      × ((add_options fields o).packet_interval
          ≡ or_else (low_word (last_number tells_interval fields)) o.packet_interval)
      × ((add_options fields o).packet_space
          ≡ or_else (low_word (last_number tells_space fields)) o.packet_space)
unfolding add_options last_number
add_options_lem [] o = (refl, refl, refl, refl)
add_options_lem (f ∷ fields) o =
    let (a, b, c, d) = add_options_lem fields (add_option f o) in
    (
      a
          ∙ ap (or_else (last_number tells_sampler fields)) (add_option-sampler_id f o)
          ∙ or_else-last_number tells_sampler f fields o.sampler_id,
      b
          ∙ ap (or_else (low_word (last_number tells_rate fields))) (add_option-sampling_rate f o)
          ∙ or_else-low_word tells_rate f fields o.sampling_rate,
      c
          ∙ ap (or_else (low_word (last_number tells_interval fields)))
              (add_option-packet_interval f o)
          ∙ or_else-low_word tells_interval f fields o.packet_interval,
      d
          ∙ ap (or_else (low_word (last_number tells_space fields))) (add_option-packet_space f o)
          ∙ or_else-low_word tells_space f fields o.packet_space,
    )

-- The rate that an options record announces: all packets of a period over the sampled ones, or the
-- plain rate where there is no period. Numbers are uint32.
unfoldable pub announced_rate : List DataField → ℕ
announced_rate fields =
    let interval = or_else (low_word (last_number tells_interval fields)) 0 in
    let space = or_else (low_word (last_number tells_space fields)) 0 in
    if ltb 0 interval
    then (interval + space) % 2 ^ 32 / interval
    else or_else (low_word (last_number tells_rate fields)) 0

-- The last rate above 0 that options records announce for a sampler.
unfoldable pub latest_rate : ℕ → ℕ → List (List DataField) → Key → Option ℕ
latest_rate version domain [] key = none
latest_rate version domain (fields ∷ records) key = elim (latest_rate version domain records key) [
  | some rate ↦ some rate
  | none ↦
      if ltb 0 (announced_rate fields)
      then ite (key_discrete (version, domain, or_else (last_number tells_sampler fields) 0) key)
          (some (announced_rate fields)) none
      else none
]

abbrev no_options : SamplingOptions
no_options = record { sampling_rate = 0; sampler_id = 0; packet_interval = 0; packet_space = 0 }

option_rate_lem :
    (fields : List DataField) → option_rate (add_options fields no_options) ≡ announced_rate fields
unfolding option_rate announced_rate
option_rate_lem fields = let (a, b, c, d) = add_options_lem fields no_options in rw (b, c, d) refl

module _ {T : Type 0} (version domain : ℕ) where
  learn_sampling_rate-get :
      (fields : List DataField) (tao : TemplatesAndOptions T) (key : Key)
      → get_sampling_rate (learn_sampling_rate version domain fields tao) key ≡ (
          if ltb 0 (announced_rate fields)
          then ite
              (key_discrete (version, domain, or_else (last_number tells_sampler fields) 0) key)
              (announced_rate fields)
              (get_sampling_rate tao key)
          else get_sampling_rate tao key)
  unfolding learn_sampling_rate get_sampling_rate set_sampling_rate
  learn_sampling_rate-get fields tao key =
      let (id, b, c, d) = add_options_lem fields no_options in
      rw (option_rate_lem fields, id)
        (elim (Bool-cases (ltb 0 (announced_rate fields))) [
          | inr e ↦ rw e refl
          | inl e ↦ rw e (
              ground (
                arith,
                get-put key_discrete (version, domain, or_else (last_number tells_sampler fields) 0)
                    key (announced_rate fields) tao.sampling_rates,
              ))
        ])

  -- After any options records, the rate of a sampler is the last one above 0 that they announce for this
  -- sampler of this observation domain, or the one before them if there is none. A record announces
  -- it by its last fields of the types for it: (interval + space) / interval, else the plain rate.
  pub learn_sampling_rates-get :
      (records : List (List DataField)) (tao : TemplatesAndOptions T) (key : Key)
      → get_sampling_rate (learn_sampling_rates version domain records tao) key
        ≡ or_else (latest_rate version domain records key) (get_sampling_rate tao key)
  unfolding learn_sampling_rates latest_rate
  learn_sampling_rates-get [] tao key = refl
  learn_sampling_rates-get (fields ∷ records) tao key =
      learn_sampling_rates-get records (learn_sampling_rate version domain fields tao) key
      ∙ ap (or_else (latest_rate version domain records key))
          (learn_sampling_rate-get fields tao key)
      ∙ elim (Option-cases (latest_rate version domain records key)) [
        | inr (rate, e) ↦ rw e refl
        | inl e ↦ rw e (ground arith)
      ]
