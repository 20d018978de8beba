-- ===== src/Config/Heads.antt =====
-- src/config/config.cpp, `ModelConfig::load`: what is known of the heads, and why a file is refused.
use native.Mathlib.Nat.{div-add-mod', div-lt_iff_lt-mul, mul_comm, mod_self}
use llm_engine.Base.{
  ℕ, zero, suc, ◌*◌, ◌/◌, ◌%◌, ◌<◌, ◌≡◌, ◌≢◌, refl, sym, ap, subst, ◌∙◌, ◌⊎◌, Bool, true, false,
  ◌==◌, ◌&&◌, arith, Bool-cases, inl, inr,
}
use llm_engine.Config.Defs.{
  ℤ, magnitude, negate, quotient, Field, EosField, Fields, File, ModelConfig, Loaded, required,
  value, with_eos, check_heads, load_rest, load_fields, load, gqa_group,
}

-- The numbers of heads are not 0, one divides the other, and the size of a group is the quotient.
pub record Grouped (c : ModelConfig) : Type 0 where
  pub kv_heads : 0 < magnitude c.num_key_value_heads
  pub heads : 0 < magnitude c.num_attention_heads
  pub multiple :
      magnitude c.num_attention_heads ≡ magnitude (gqa_group c) * magnitude c.num_key_value_heads
  -- every query head has a KV head
  pub kv_head :
      (h : ℕ)
      → h < magnitude c.num_attention_heads
      → h / magnitude (gqa_group c) < magnitude c.num_key_value_heads

abbrev is_given : Field ℤ → Bool
is_given Field.absent = false
is_given Field.mistyped = false
is_given (Field.given n) = true

abbrev is_typed : {A : Type 0} → Field A → Bool
is_typed Field.absent = true
is_typed Field.mistyped = false
is_typed (Field.given n) = true

abbrev is_typed_eos : EosField → Bool
is_typed_eos EosField.mistyped_eos = false
is_typed_eos EosField.no_eos = true
is_typed_eos EosField.empty_array = true
is_typed_eos (EosField.one_eos n) = true
is_typed_eos (EosField.first_eos n) = true

-- The fields that are needed are there, and each that is there has its type.
abbrev complete_fields : Fields → Bool
complete_fields j =
    is_given j.hidden_size
    && is_given j.intermediate_size
    && is_given j.num_hidden_layers
    && is_given j.num_attention_heads
    && is_given j.vocab_size
    && is_typed j.model_type
    && is_typed j.num_key_value_heads
    && is_typed j.head_dim
    && is_typed j.max_position_embeddings
    && is_typed j.tie_word_embeddings
    && is_typed j.attention_bias
    && is_typed j.bos_token_id
    && is_typed_eos j.eos_token_id

-- What each result tells of the fields.
abbrev FieldOutcome : Fields → Loaded → Type 0
FieldOutcome j (Loaded.loaded c) = Grouped c
FieldOutcome j Loaded.thrown = complete_fields j ≡ false
FieldOutcome j Loaded.bad_heads =
    (n : ℤ) × (k : ℤ) × (j.num_attention_heads ≡ Field.given n)
    × (j.num_key_value_heads ≡ Field.given k)
    × (magnitude n % magnitude k ≢ 0)
FieldOutcome j Loaded.undefined =
    ((n : ℤ) × (j.num_attention_heads ≡ Field.given n) × (magnitude n ≡ 0))
    ⊎ ((k : ℤ) × (j.num_key_value_heads ≡ Field.given k) × (magnitude k ≡ 0))
    ⊎ (j.eos_token_id ≡ EosField.empty_array)

abbrev pub Outcome : File → Loaded → Type 0
Outcome File.unreadable l = l ≡ Loaded.thrown
Outcome File.no_object l = l ≡ Loaded.thrown
Outcome (File.object j) l = FieldOutcome j l

magnitude-negate : (n : ℕ) → magnitude (negate n) ≡ n
magnitude-negate zero = refl
magnitude-negate (suc n) = refl

magnitude-quotient : (a b : ℤ) → magnitude (quotient a b) ≡ magnitude a / magnitude b
magnitude-quotient (ℤ.pos a) (ℤ.pos b) = refl
magnitude-quotient (ℤ.pos a) (ℤ.negsuc b) = magnitude-negate (a / suc b)
magnitude-quotient (ℤ.negsuc a) (ℤ.pos b) = magnitude-negate (suc a / b)
magnitude-quotient (ℤ.negsuc a) (ℤ.negsuc b) = refl

positive_factor : (g k n : ℕ) → 0 < n → n ≡ g * k → 0 < g
positive_factor zero k n pos e = omega arith
positive_factor (suc g) k n pos e = omega arith

Grouped-checked :
    (c : ModelConfig)
    → 0 < magnitude c.num_attention_heads
    → (magnitude c.num_key_value_heads == 0) ≡ false
    → (magnitude c.num_attention_heads % magnitude c.num_key_value_heads == 0) ≡ true
    → Grouped c
unfolding gqa_group
Grouped-checked c some_head kv even =
    let k = magnitude c.num_key_value_heads in
    let n = magnitude c.num_attention_heads in
    let g = magnitude-quotient c.num_attention_heads c.num_key_value_heads in
    let exact : n % k ≡ 0 = ground arith in
    let multiple : n ≡ n / k * k = omega (arith, div-add-mod' n k, exact) in
    let group = positive_factor (n / k) k n some_head multiple in
    record {
      kv_heads = ground (arith, kv);
      heads = some_head;
      multiple = multiple ∙ ap (λ x. x * k) (sym g);
      kv_head = λ h below.
          subst (λ x. h / x < k) (sym g)
            ((div-lt_iff_lt-mul group).1 (omega (arith, multiple, below, mul_comm (n / k) k)));
    }

-- A number of KV heads that the test fails on was in the file.
data Read (j : Fields) (heads k : ℤ) : Type 0 where
  from_file : j.num_key_value_heads ≡ Field.given k → Read j heads k
  default : k ≡ heads → Read j heads k

check_heads-Outcome :
    (j : Fields) (c : ModelConfig)
    → j.num_attention_heads ≡ Field.given c.num_attention_heads
    → 0 < magnitude c.num_attention_heads
    → Read j c.num_attention_heads c.num_key_value_heads
    → FieldOutcome j (check_heads c)
unfolding check_heads
check_heads-Outcome j c there pos read = elim (Bool-cases (magnitude c.num_key_value_heads == 0)) [
  | inl none_kv ↦
      let zero_kv : magnitude c.num_key_value_heads ≡ 0 = ground arith in
      simp none_kv (elim read [
        | from_file e ↦ inr (inl (c.num_key_value_heads, e, zero_kv))
        | default e ↦ absurd (omega (arith, pos, zero_kv, ap magnitude e))
      ])
  | inr some_kv ↦
      elim (Bool-cases (magnitude c.num_attention_heads % magnitude c.num_key_value_heads == 0)) [
        | inl even ↦ simp (some_kv, even) (Grouped-checked c pos some_kv even)
        | inr odd ↦
            let uneven : magnitude c.num_attention_heads % magnitude c.num_key_value_heads ≢ 0 =
              λ e. absurd (ground (arith, e, odd)) in
            simp (some_kv, odd)
              (elim read [
                | from_file e ↦ (c.num_attention_heads, c.num_key_value_heads, there, e, uneven)
                | default e ↦
                    absurd
                      (uneven (rw (ap magnitude e) (mod_self (magnitude c.num_attention_heads))))
              ])
      ]
]

required_cases :
    (P : Loaded → Type 0) (o : Field ℤ) (f : ℤ → Loaded)
    → (is_given o ≡ false → P Loaded.thrown)
    → ((n : ℤ) → o ≡ Field.given n → P (f n))
    → P (required o f)
required_cases P Field.absent f lacks has = lacks refl
required_cases P Field.mistyped f lacks has = lacks refl
required_cases P (Field.given n) f lacks has = has n refl

value_cases :
    {A : Type 0} (P : Loaded → Type 0) (o : Field A) (d : A) (f : A → Loaded)
    → (is_typed o ≡ false → P Loaded.thrown)
    → ((x : A) → (o ≡ Field.given x) ⊎ (x ≡ d) → P (f x))
    → P (value o d f)
value_cases P Field.absent d f bad has = has d (inr refl)
value_cases P Field.mistyped d f bad has = bad refl
value_cases P (Field.given x) d f bad has = has x (inl refl)

with_eos_cases :
    (P : Loaded → Type 0) (e : EosField) (f : ℤ → Loaded)
    → (is_typed_eos e ≡ false → P Loaded.thrown)
    → (e ≡ EosField.empty_array → P Loaded.undefined)
    → ((n : ℤ) → P (f n))
    → P (with_eos e f)
with_eos_cases P EosField.no_eos f bad none has = has _
with_eos_cases P EosField.mistyped_eos f bad none has = bad refl
with_eos_cases P EosField.empty_array f bad none has = none refl
with_eos_cases P (EosField.one_eos n) f bad none has = has n
with_eos_cases P (EosField.first_eos n) f bad none has = has n

load_rest-Outcome :
    (j : Fields) (is_qwen2 : Bool) (hidden intermediate layers heads kv dim : ℤ)
    → j.num_attention_heads ≡ Field.given heads
    → 0 < magnitude heads
    → Read j heads kv
    → FieldOutcome j (load_rest j is_qwen2 hidden intermediate layers heads kv dim)
unfolding load_rest
load_rest-Outcome j is_qwen2 hidden intermediate layers heads kv dim there pos read =
    let P = FieldOutcome j in
    required_cases P j.vocab_size _ (λ e. ground (arith, e))
      (λ vocab _.
        value_cases P j.max_position_embeddings _ _ (λ e. ground (arith, e))
          (λ positions _.
            value_cases P j.tie_word_embeddings _ _ (λ e. ground (arith, e))
              (λ tie _.
                value_cases P j.attention_bias _ _ (λ e. ground (arith, e))
                  (λ bias _.
                    value_cases P j.bos_token_id _ _ (λ e. ground (arith, e))
                      (λ bos _.
                        with_eos_cases P j.eos_token_id _ (λ e. ground (arith, e))
                          (λ e. inr (inr e)) (λ eos. check_heads-Outcome j _ there pos read))))))

-- Of a configuration that is loaded neither number of heads is 0, the size of `gqa_group`, signs
-- aside, times that of the KV heads is that of the query heads, and every query head belongs to a KV
-- head, its index divided by the size of the group. Loading throws an exception of the library or
-- the file only if the file cannot be opened or holds no object, a field that is needed is missing,
-- or one has another type; it refuses the heads only if the one number does not divide the other. It
-- divides by zero, or reads the first element of an empty array, only if the file has no heads, no
-- KV heads or an empty array of tokens.
pub load-Outcome : (file : File) → Outcome file (load file)
unfolding load load_fields
load-Outcome File.unreadable = refl
load-Outcome File.no_object = refl
load-Outcome (File.object j) =
    let P = FieldOutcome j in
    value_cases P j.model_type _ _ (λ e. ground (arith, e))
      (λ is_qwen2 _.
        required_cases P j.hidden_size _ (λ e. ground (arith, e))
          (λ hidden _.
            required_cases P j.intermediate_size _ (λ e. ground (arith, e))
              (λ intermediate _.
                required_cases P j.num_hidden_layers _ (λ e. ground (arith, e))
                  (λ layers _.
                    required_cases P j.num_attention_heads _ (λ e. ground (arith, e))
                      (λ heads there.
                        value_cases P j.num_key_value_heads _ _ (λ e. ground (arith, e))
                          (λ kv from. elim (Bool-cases (magnitude heads == 0)) [
                            | inl none_at_all ↦ simp none_at_all (inl (heads, there, ground arith))
                            | inr some_heads ↦ simp some_heads (
                                value_cases P j.head_dim _ _ (λ e. ground (arith, e))
                                  (λ dim _.
                                    load_rest-Outcome j is_qwen2 hidden intermediate layers heads kv
                                      dim there (ground (arith, some_heads))
                                      (elim from [ inl e ↦ from_file e | inr e ↦ default e ])))
                          ]))))))
