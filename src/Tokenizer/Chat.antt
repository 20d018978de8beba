-- ===== src/Tokenizer/Chat.antt =====
-- src/tokenizer/tokenizer.cpp, `apply_chat_template`: the text that a chat is turned into.
use Prim.Native.Char.{code}
use Prim.Native.String.{String}
use llm_engine.Base.{ℕ, Bool, false, List, [], ◌∷◌, ◌++◌, Option, none, some, if◌then◌else◌}
use llm_engine.Tokenizer.Vocab.{Tokenizer, str_eq}

abbrev codes : String → List ℕ
codes String.[] = []
codes (String.◌∷◌ c s) = code c ∷ codes s

pub record ChatMessage : Type 0 where
  pub role : List ℕ
  pub content : List ℕ

abbrev pub is_system : List ChatMessage → Bool
is_system [] = false
is_system (m ∷ ms) = str_eq m.role (codes "system")

abbrev pub default_system : List ℕ
default_system =
    codes
      "<|im_start|>system\nYou are Qwen, created by Alibaba Cloud. You are a helpful assistant.<|im_end|>\n"

unfoldable pub message_text : ChatMessage → List ℕ
message_text m =
    codes "<|im_start|>" ++ (m.role ++ (codes "\n" ++ (m.content ++ codes "<|im_end|>\n")))

unfoldable pub messages_text : List ChatMessage → List ℕ
unfolding message_text
messages_text [] = []
messages_text (m ∷ ms) = message_text m ++ messages_text ms

-- `none` is the exception for another template than ChatML.
unfoldable pub apply_chat_template : Tokenizer → List ChatMessage → Option (List ℕ)
unfolding messages_text
apply_chat_template t messages =
    if t.chatml
    then some (
        (if is_system messages then [] else default_system)
        ++ (messages_text messages ++ codes "<|im_start|>assistant\n"))
    else none
