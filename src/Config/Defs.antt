-- ===== src/Config/Defs.antt =====
-- include/engine/config.h and src/config/config.cpp, `ModelConfig::load`: what is read from the fields of
-- `config.json`, which the JSON library gives. The two floating-point fields are left out.
use llm_engine.Base.{ℕ, zero, suc, ◌/◌, ◌%◌, Bool, false, if◌then◌else◌, ◌==◌}

-- An `int`: `negsuc n` is -(n + 1).
pub data ℤ : Type 0 where
  pos negsuc : ℕ → ℤ

abbrev pub magnitude : ℤ → ℕ
magnitude (ℤ.pos n) = n
magnitude (ℤ.negsuc n) = suc n

abbrev pub negate : ℕ → ℤ
negate zero = ℤ.pos 0
negate (suc n) = ℤ.negsuc n

-- `/` of two numbers that are not divided by zero: rounded towards zero.
abbrev pub quotient : ℤ → ℤ → ℤ
quotient (ℤ.pos a) (ℤ.pos b) = ℤ.pos (a / b)
quotient (ℤ.pos a) (ℤ.negsuc b) = negate (a / suc b)
quotient (ℤ.negsuc a) (ℤ.pos b) = negate (suc a / b)
quotient (ℤ.negsuc a) (ℤ.negsuc b) = ℤ.pos (suc a / suc b)

-- A field of the file: it can be missing, or of a type that the library does not convert.
pub data Field (A : Type 0) : Type 0 where
  absent mistyped : Field A
  given : A → Field A

-- `eos_token_id`; the first element of an array counts, and an array can be empty.
pub data EosField : Type 0 where
  no_eos mistyped_eos empty_array : EosField
  one_eos : ℤ → EosField
  first_eos : ℤ → EosField

pub record Fields : Type 0 where
  -- whether it is "qwen2"
  pub model_type : Field Bool
  pub hidden_size : Field ℤ
  pub intermediate_size : Field ℤ
  pub num_hidden_layers : Field ℤ
  pub num_attention_heads : Field ℤ
  pub num_key_value_heads : Field ℤ
  pub head_dim : Field ℤ
  pub vocab_size : Field ℤ
  pub max_position_embeddings : Field ℤ
  pub tie_word_embeddings : Field Bool
  pub attention_bias : Field Bool
  pub bos_token_id : Field ℤ
  pub eos_token_id : EosField

pub record ModelConfig : Type 0 where
  pub hidden_size : ℤ
  pub intermediate_size : ℤ
  pub num_hidden_layers : ℤ
  pub num_attention_heads : ℤ
  pub num_key_value_heads : ℤ
  pub head_dim : ℤ
  pub vocab_size : ℤ
  pub max_position_embeddings : ℤ
  pub tie_word_embeddings : Bool
  pub attention_bias : Bool
  pub bos_token_id : ℤ
  pub eos_token_id : ℤ

-- `thrown` is an exception of the JSON library, or of the file; `undefined` is a division by zero, or the
-- first element of an empty array.
pub data Loaded : Type 0 where
  loaded : ModelConfig → Loaded
  thrown bad_heads undefined : Loaded

-- `j.at`
abbrev pub required : Field ℤ → (ℤ → Loaded) → Loaded
required Field.absent f = Loaded.thrown
required Field.mistyped f = Loaded.thrown
required (Field.given n) f = f n

-- `j.value`
abbrev pub value : {A : Type 0} → Field A → A → (A → Loaded) → Loaded
value Field.absent d f = f d
value Field.mistyped d f = Loaded.thrown
value (Field.given x) d f = f x

abbrev pub minus_one : ℤ
minus_one = ℤ.negsuc 0

abbrev pub with_eos : EosField → (ℤ → Loaded) → Loaded
with_eos EosField.no_eos f = f minus_one
with_eos EosField.mistyped_eos f = Loaded.thrown
with_eos EosField.empty_array f = Loaded.undefined
with_eos (EosField.one_eos n) f = f n
with_eos (EosField.first_eos n) f = f n

-- The test of the heads.
unfoldable pub check_heads : ModelConfig → Loaded
check_heads c =
    if magnitude c.num_key_value_heads == 0
    then Loaded.undefined
    else if magnitude c.num_attention_heads % magnitude c.num_key_value_heads == 0
    then Loaded.loaded c
    else Loaded.bad_heads

-- The rest, from `vocab_size` on.
unfoldable pub load_rest : Fields → Bool → ℤ → ℤ → ℤ → ℤ → ℤ → ℤ → Loaded
load_rest j is_qwen2 hidden intermediate layers heads kv_heads dim = required j.vocab_size (λ vocab.
    value j.max_position_embeddings (ℤ.pos 4096) (λ positions.
      value j.tie_word_embeddings false (λ tie. value j.attention_bias is_qwen2 (λ bias.
        value j.bos_token_id minus_one (λ bos. with_eos j.eos_token_id (λ eos. check_heads record {
          hidden_size = hidden;
          intermediate_size = intermediate;
          num_hidden_layers = layers;
          num_attention_heads = heads;
          num_key_value_heads = kv_heads;
          head_dim = dim;
          vocab_size = vocab;
          max_position_embeddings = positions;
          tie_word_embeddings = tie;
          attention_bias = bias;
          bos_token_id = bos;
          eos_token_id = eos;
        }))))))

-- The argument of `j.value` for `head_dim` divides by the number of heads, whether it is used or not.
unfoldable pub load_fields : Fields → Loaded
load_fields j = value j.model_type false (λ is_qwen2. required j.hidden_size (λ hidden.
    required j.intermediate_size (λ intermediate. required j.num_hidden_layers (λ layers.
      required j.num_attention_heads (λ heads. value j.num_key_value_heads heads (λ kv_heads.
        let rest =
          value j.head_dim (quotient hidden heads)
            (load_rest j is_qwen2 hidden intermediate layers heads kv_heads) in
        if magnitude heads == 0 then Loaded.undefined else rest))))))

-- A file: it cannot be opened, it is no JSON object, or it has fields.
pub data File : Type 0 where
  unreadable no_object : File
  object : Fields → File

unfoldable pub load : File → Loaded
load File.unreadable = Loaded.thrown
load File.no_object = Loaded.thrown
load (File.object j) = load_fields j

unfoldable pub gqa_group : ModelConfig → ℤ
gqa_group c = quotient c.num_attention_heads c.num_key_value_heads
