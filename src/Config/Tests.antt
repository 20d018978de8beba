-- ===== src/Config/Tests.antt =====
-- Configurations of small models.
use llm_engine.Base.{ℕ, ◌≡◌, refl, true}
use llm_engine.Config.Defs.{
  ℤ, Field, EosField, Fields, File, Loaded, magnitude, check_heads, load_rest, load_fields, load,
  gqa_group,
}
use llm_engine.Config.Heads.{Outcome, load-Outcome}

abbrev fields : Fields
fields = record {
  model_type = Field.given true;
  hidden_size = Field.given (ℤ.pos 896);
  intermediate_size = Field.given (ℤ.pos 4864);
  num_hidden_layers = Field.given (ℤ.pos 24);
  num_attention_heads = Field.given (ℤ.pos 14);
  num_key_value_heads = Field.given (ℤ.pos 2);
  head_dim = Field.absent;
  vocab_size = Field.given (ℤ.pos 151936);
  max_position_embeddings = Field.given (ℤ.pos 32768);
  tie_word_embeddings = Field.given true;
  attention_bias = Field.absent;
  bos_token_id = Field.absent;
  eos_token_id = EosField.first_eos (ℤ.pos 151645);
}

group_of : Loaded → ℕ
group_of (Loaded.loaded c) = magnitude (gqa_group c)
group_of Loaded.thrown = 0
group_of Loaded.bad_heads = 0
group_of Loaded.undefined = 0

seven_to_one : group_of (load (File.object fields)) ≡ 7
unfolding group_of load load_fields load_rest check_heads gqa_group
seven_to_one = refl

three_kv_heads :
    load (File.object (record fields { num_key_value_heads = Field.given (ℤ.pos 3) }))
    ≡ Loaded.bad_heads
unfolding load load_fields load_rest check_heads
three_kv_heads = refl

-- A number that divides is accepted whatever its sign.
negative_kv_heads :
    group_of (load (File.object (record fields { num_key_value_heads = Field.given (ℤ.negsuc 1) })))
    ≡ 7
unfolding group_of load load_fields load_rest check_heads gqa_group
negative_kv_heads = refl

-- The head dimension is given, and still the hidden size is divided by the number of heads.
no_heads :
    load (
      File.object (record fields {
        num_attention_heads = Field.given (ℤ.pos 0);
        head_dim = Field.given (ℤ.pos 64);
      }))
    ≡ Loaded.undefined
unfolding load load_fields load_rest check_heads
no_heads = refl

load-Outcome_example : Outcome (File.object fields) (load (File.object fields))
load-Outcome_example = load-Outcome (File.object fields)
