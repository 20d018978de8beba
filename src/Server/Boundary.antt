-- ===== src/Server/Boundary.antt =====
-- src/api/server.cpp, `Utf8Buffer`, on the UTF-8 text of code points.
use Prim.Native.Nat.{bit_and, bit_or}
use llm_engine.Base.{
  ℕ, suc, ◌/◌, ◌^◌, ◌≤◌, ◌<◌, ◌≡◌, refl, sym, ap, subst, ◌∙◌, ◌⊎◌, inl, inr, List, [], ◌∷◌, ◌++◌,
  ltb, length, drop, get_or, All, arith, Bool-cases, length-append,
}
use llm_engine.Tokenizer.Rounds.{append_assoc}
use llm_engine.Tokenizer.RoundTrip.{head_byte}
use llm_engine.Tokenizer.Utf8.{utf8_encode, encode_all, byte}
use llm_engine.Server.Utf8.{
  Leads, ascii, stray, two_bytes, three_bytes, four_bytes, Whole, nothing, character, Partial,
  no_byte, begun,
}

-- A code point that is a character.
abbrev pub Scalar : ℕ → Type 0
Scalar cp = (cp < 0x110000) × ((cp < 0xD800) ⊎ (0xE000 ≤ cp))

Leads-same : (c m n : ℕ) → Leads c m → Leads c n → m ≡ n
Leads-same c m n (ascii a) (ascii b) = refl
Leads-same c m n (ascii a) (stray b d) = absurd (omega arith)
Leads-same c m n (ascii a) (two_bytes b d) = absurd (omega arith)
Leads-same c m n (ascii a) (three_bytes b d) = absurd (omega arith)
Leads-same c m n (ascii a) (four_bytes b) = absurd (omega arith)
Leads-same c m n (stray a a') (ascii b) = absurd (omega arith)
Leads-same c m n (stray a a') (stray b d) = refl
Leads-same c m n (stray a a') (two_bytes b d) = absurd (omega arith)
Leads-same c m n (stray a a') (three_bytes b d) = absurd (omega arith)
Leads-same c m n (stray a a') (four_bytes b) = absurd (omega arith)
Leads-same c m n (two_bytes a a') (ascii b) = absurd (omega arith)
Leads-same c m n (two_bytes a a') (stray b d) = absurd (omega arith)
Leads-same c m n (two_bytes a a') (two_bytes b d) = refl
Leads-same c m n (two_bytes a a') (three_bytes b d) = absurd (omega arith)
Leads-same c m n (two_bytes a a') (four_bytes b) = absurd (omega arith)
Leads-same c m n (three_bytes a a') (ascii b) = absurd (omega arith)
Leads-same c m n (three_bytes a a') (stray b d) = absurd (omega arith)
Leads-same c m n (three_bytes a a') (two_bytes b d) = absurd (omega arith)
Leads-same c m n (three_bytes a a') (three_bytes b d) = refl
Leads-same c m n (three_bytes a a') (four_bytes b) = absurd (omega arith)
Leads-same c m n (four_bytes a) (ascii b) = absurd (omega arith)
Leads-same c m n (four_bytes a) (stray b d) = absurd (omega arith)
Leads-same c m n (four_bytes a) (two_bytes b d) = absurd (omega arith)
Leads-same c m n (four_bytes a) (three_bytes b d) = absurd (omega arith)
Leads-same c m n (four_bytes a) (four_bytes b) = refl

-- The code of a code point: its first byte leads just its bytes.
record Coded (cp : ℕ) : Type 0 where
  lead : ℕ
  others : List ℕ
  code : utf8_encode cp ≡ lead ∷ others
  leads : Leads lead (suc (length others))

encode-Coded : (cp : ℕ) → cp < 2 ^ 21 → Coded cp
unfolding utf8_encode
encode-Coded cp small = elim (Bool-cases (ltb cp 0x80)) [
  | inl one ↦ record {
    lead = byte cp;
    others = [];
    code = rw one refl;
    leads = ascii (ground arith);
  }
  | inr e0 ↦ elim (Bool-cases (ltb cp 0x800)) [
    | inl two ↦
        let (head, _, _) = head_byte (cp / 64) in
        let h = head (ground arith) in
        record {
          lead = byte (bit_or 0xC0 (cp / 2 ^ 6));
          others = byte (bit_or 0x80 (bit_and cp 0x3F)) ∷ [];
          code = rw (e0, two) refl;
          leads = two_bytes (ground (arith, h)) (ground (arith, h));
        }
    | inr e1 ↦ elim (Bool-cases (ltb cp 0x10000)) [
      | inl three ↦
          let (_, head, _) = head_byte (cp / 2 ^ 12) in
          let h = head (ground arith) in
          record {
            lead = byte (bit_or 0xE0 (cp / 2 ^ 12));
            others =
                byte (bit_or 0x80 (bit_and (cp / 2 ^ 6) 0x3F))
                ∷ byte (bit_or 0x80 (bit_and cp 0x3F))
                ∷ [];
            code = rw (e0, e1, three) refl;
            leads = three_bytes (ground (arith, h)) (ground (arith, h));
          }
      | inr e2 ↦
          let (_, _, head) = head_byte (cp / 2 ^ 18) in
          let h = head (omega arith) in
          record {
            lead = byte (bit_or 0xF0 (cp / 2 ^ 18));
            others =
                byte (bit_or 0x80 (bit_and (cp / 2 ^ 12) 0x3F))
                ∷ byte (bit_or 0x80 (bit_and (cp / 2 ^ 6) 0x3F))
                ∷ byte (bit_or 0x80 (bit_and cp 0x3F))
                ∷ [];
            code = rw (e0, e1, e2) refl;
            leads = four_bytes (ground (arith, h));
          }
    ]
  ]
]

split_same :
    (xs ys us vs : List ℕ) → length xs ≡ length us → xs ++ ys ≡ us ++ vs → (xs ≡ us) × (ys ≡ vs)
split_same [] ys [] vs len e = (refl, e)
split_same [] ys (u ∷ us) vs len e = absurd (omega arith)
split_same (x ∷ xs) ys [] vs len e = absurd (omega arith)
split_same (x ∷ xs) ys (u ∷ us) vs len e =
    let head : x ≡ u = ap (λ l. get_or l 0 0) e in
    let (tails, rest) = split_same xs ys us vs (omega arith) (ap (drop 1) e) in
    (rw (head, tails) refl, rest)

-- Where whole characters end in the text of code points, some of the code points end.
pub record Boundary (cps text rest : List ℕ) : Type 0 where
  pub done : List ℕ
  pub left : List ℕ
  pub front : text ≡ encode_all done
  pub back : rest ≡ encode_all left
  pub done_scalar : All Scalar done
  pub left_scalar : All Scalar left

pub Whole-Boundary :
    (text rest cps : List ℕ)
    → Whole text
    → All Scalar cps
    → text ++ rest ≡ encode_all cps
    → Boundary cps text rest
unfolding encode_all
Whole-Boundary text rest cps nothing a e = record {
  done = [];
  left = cps;
  front = refl;
  back = e;
  done_scalar = tt;
  left_scalar = a;
}
Whole-Boundary text rest [] (character c cs more leads w parts) a e = absurd (
    omega
      (arith, ap length e, length-append text rest, ap length parts, length-append (c ∷ cs) more))
Whole-Boundary text rest (cp ∷ cps) (character c cs more leads w parts) (s, a) e =
    let k = encode-Coded cp (omega (arith, s.0)) in
    let whole : (c ∷ cs) ++ (more ++ rest) ≡ (k.lead ∷ k.others) ++ encode_all cps =
      sym (append_assoc (c ∷ cs) more rest)
      ∙ ap (λ l. l ++ rest) (sym parts)
      ∙ e
      ∙ ap (λ l. l ++ encode_all cps) k.code in
    let head : c ≡ k.lead = ap (λ l. get_or l 0 0) whole in
    let len = Leads-same k.lead _ _ (subst (λ x. Leads x (length (c ∷ cs))) head leads) k.leads in
    let (firsts, tails) =
      split_same (c ∷ cs) (more ++ rest) (k.lead ∷ k.others) (encode_all cps) len whole in
    let b = Whole-Boundary more rest cps w a tails in
    record {
      done = cp ∷ b.done;
      left = b.left;
      front =
          parts ∙ ap (λ l. l ++ more) (firsts ∙ sym k.code) ∙ ap (λ l. utf8_encode cp ++ l) b.front;
      back = b.back;
      done_scalar = (s, b.done_scalar);
      left_scalar = b.left_scalar;
    }

-- The beginning of a character is no text of code points.
pub Partial-none :
    (text cps : List ℕ) → Partial text → All Scalar cps → text ≡ encode_all cps → text ≡ []
unfolding encode_all
Partial-none [] cps no_byte a e = refl
Partial-none (c ∷ cs) [] (begun _ _ n leads less) a e = absurd (omega (arith, ap length e))
Partial-none (c ∷ cs) (cp ∷ cps) (begun _ _ n leads less) (s, a) e =
    let k = encode-Coded cp (omega (arith, s.0)) in
    let whole : c ∷ cs ≡ (k.lead ∷ k.others) ++ encode_all cps =
      e ∙ ap (λ l. l ++ encode_all cps) k.code in
    let head : c ≡ k.lead = ap (λ l. get_or l 0 0) whole in
    let len = Leads-same k.lead _ _ (subst (λ x. Leads x n) head leads) k.leads in
    absurd (omega (arith, less, len, ap length whole, length-append k.others (encode_all cps)))
