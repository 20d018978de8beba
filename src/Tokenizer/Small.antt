-- ===== src/Tokenizer/Small.antt =====
-- A small byte-level vocabulary, for tests.
use llm_engine.Base.{
  ℕ, zero, suc, ◌+◌, false, ◌++◌, get_elem?, subst, ap, ◌∙◌, ◌≡◌, ◌<◌, refl, List, [], ◌∷◌, none,
  some, if◌then◌else◌, ◌==◌, ◌&&◌, arith,
}
use llm_engine.Tokenizer.Split.{Tables}
use llm_engine.Tokenizer.Merge.{Merges}
use llm_engine.Tokenizer.Symbols.{symbols, unicode_to_byte-symbol}
use llm_engine.Tokenizer.Vocab.{
  Tokenizer, TokenizerFamily, AddedToken, is_added, byte_to_unicode, unicode_to_byte,
}
use llm_engine.Tokenizer.Spelling.{Spelled, IsByteLevel}
use llm_engine.Tokenizer.Special.{IsAdded}

abbrev tables : Tables
tables = record {
  letters = (65, 90) ∷ (97, 122) ∷ [];
  numbers = (48, 57) ∷ [];
  spaces = (9, 13) ∷ (32, 32) ∷ [];
}

-- A vocabulary of the 256 bytes, the merge of `h` and `i`, and one added token, `<e>`.
unfoldable pub byte_tokens : ℕ → ℕ → List (List ℕ)
byte_tokens b zero = []
byte_tokens b (suc n) = byte_to_unicode b ∷ byte_tokens (suc b) n

abbrev pub joined : Merges
joined x y = if x == 104 && y == 105 then some (record { rank = 0; id = 256 }) else none

abbrev pub special : AddedToken
special = record { content = 60 ∷ 101 ∷ 62 ∷ []; id = 257 }

abbrev pub small : Tokenizer
small = record {
  tables = tables;
  token_to_id = unicode_to_byte;
  id_to_token = byte_tokens 0 256 ++ (symbols (104 ∷ 105 ∷ []) ∷ special.content ∷ []);
  merges = joined;
  added_tokens = special ∷ [];
  family = TokenizerFamily.byte_level;
  byte_fallback = λ b. none;
  unk_id = none;
  bos_id = none;
  prepend_bos = false;
  chatml = false;
}

byte_tokens-at :
    (n b i : ℕ) (rest : List (List ℕ))
    → i < n
    → get_elem? (byte_tokens b n ++ rest) i ≡ some (byte_to_unicode (b + i))
unfolding byte_tokens
byte_tokens-at zero b i rest h = absurd (omega arith)
byte_tokens-at (suc n) b zero rest h = ap (λ k. some (byte_to_unicode k)) (omega arith)
byte_tokens-at (suc n) b (suc i) rest h =
    byte_tokens-at n (suc b) i rest (omega arith) ∙ ap (λ k. some (byte_to_unicode k)) (omega arith)

append-nil : (xs : List ℕ) → xs ≡ xs ++ []
append-nil [] = refl
append-nil (x ∷ xs) = ap (λ l. x ∷ l) (append-nil xs)

byte-Spelled : (b : ℕ) → b < 256 → Spelled small b (b ∷ [])
unfolding symbols is_added
byte-Spelled b h = record {
  stored =
      byte_tokens-at 256 0 b (symbols (104 ∷ 105 ∷ []) ∷ special.content ∷ []) h
      ∙ ap some (ap byte_to_unicode (omega arith) ∙ append-nil (byte_to_unicode b));
  plain = ground (arith, h);
  bytes = (h, tt);
}

hi-Spelled : Spelled small 256 (104 ∷ 105 ∷ [])
unfolding byte_tokens is_added
hi-Spelled = record { stored = refl; plain = refl; bytes = (omega arith, (omega arith, tt)) }

pub small-IsByteLevel : IsByteLevel small
small-IsByteLevel = record {
  family = refl;
  bytes = λ b h. (b, unicode_to_byte-symbol b h, byte-Spelled b h);
  ranked = λ x y g e. ground (arith, e);
  merged = λ x y g e.
      let left : 104 ≡ x = ground (arith, e) in
      let right : 105 ≡ y = ground (arith, e) in
      let both : 256 ≡ g.id = ground (arith, e) in
      (
        104 ∷ [],
        105 ∷ [],
        subst (λ k. Spelled small k (104 ∷ [])) left (byte-Spelled 104 (omega arith)),
        subst (λ k. Spelled small k (105 ∷ [])) right (byte-Spelled 105 (omega arith)),
        subst (λ k. Spelled small k (104 ∷ 105 ∷ [])) both hi-Spelled,
      );
}

pub special-IsAdded : IsAdded small special
unfolding byte_tokens is_added
special-IsAdded = record { content = omega arith; stored = refl; listed = refl }
