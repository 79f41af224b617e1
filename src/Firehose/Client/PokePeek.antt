-- ===== src/Firehose/Client/PokePeek.antt =====
-- qedl-firehose/src/command.rs and client.rs: the bytes that `poke` writes and `peek` reads.
use qedl_rs.Prelude.{
  ℕ, ◌/◌, ◌%◌, ◌<◌, ◌≡◌, refl, sym, ap, ◌∙◌, [], ◌∷◌, ◌++◌, map, append-nil, All, arith,
}
use qedl_rs.Prelude.Bytes.{Bytes, IsByte}
use qedl_rs.Text.{Text}
use qedl_rs.Text.Number.{digit_char, hex_byte}
use qedl_rs.Text.Split.{space_width, words_loop, split_whitespace, end_word}
use qedl_rs.Text.Laws.{parse_radix-hex_byte}
use qedl_rs.Firehose.Command.{hex_values}
use qedl_rs.Firehose.Client.Memory.{peek_words, peek_bytes}

-- A character that prints, as ASCII.
abbrev Graphic : ℕ → Type 0
Graphic c = (32 < c) × (c < 128)

space_width-Graphic : (c : ℕ) (cs : Text) → Graphic c → space_width (c ∷ cs) ≡ 0
unfolding space_width
space_width-Graphic c [] h = ground (arith, h)
space_width-Graphic c (b ∷ []) h = ground (arith, h)
space_width-Graphic c (b ∷ d ∷ rest) h = ground (arith, h)

space_width_space : (cs : Text) → space_width (32 ∷ cs) ≡ 1
unfolding space_width
space_width_space [] = refl
space_width_space (b ∷ []) = refl
space_width_space (b ∷ d ∷ rest) = refl

words_loop-Graphic :
    (c : ℕ) (word cs : Text)
    → Graphic c
    → words_loop 0 word (c ∷ cs) ≡ words_loop 0 (word ++ (c ∷ [])) cs
unfolding words_loop
words_loop-Graphic c word cs h = rw (space_width-Graphic c cs h) refl

words_loop_space :
    (word cs : Text) → words_loop 0 word (32 ∷ cs) ≡ end_word word (words_loop 0 [] cs)
unfolding words_loop
words_loop_space word cs = rw (space_width_space cs) refl

digit_char-Graphic : (d : ℕ) → d < 16 → Graphic (digit_char 65 d)
unfolding digit_char
digit_char-Graphic d h = (ground (arith, h), ground (arith, h))

-- The four characters of a byte.
words_loop-hex_byte :
    (b : ℕ) (rest : Text)
    → b < 256
    → words_loop 0 [] (hex_byte b ++ rest) ≡ words_loop 0 (hex_byte b) rest
unfolding hex_byte
words_loop-hex_byte b rest h =
    let hi = digit_char-Graphic (b / 16) (omega (arith, h)) in
    let lo = digit_char-Graphic (b % 16) (omega arith) in
    words_loop-Graphic 48 [] _ (omega arith, omega arith)
    ∙ words_loop-Graphic 120 (48 ∷ []) _ (omega arith, omega arith)
    ∙ words_loop-Graphic (digit_char 65 (b / 16)) (48 ∷ 120 ∷ []) _ hi
    ∙ words_loop-Graphic (digit_char 65 (b % 16)) (48 ∷ 120 ∷ digit_char 65 (b / 16) ∷ []) rest lo

split_whitespace-hex_values :
    (bytes : Bytes) → All IsByte bytes → split_whitespace (hex_values bytes) ≡ map hex_byte bytes
unfolding split_whitespace words_loop hex_byte
split_whitespace-hex_values [] h = refl
split_whitespace-hex_values (b ∷ []) h =
    ap (words_loop 0 []) (sym (append-nil (hex_byte b))) ∙ words_loop-hex_byte b [] h.0
split_whitespace-hex_values (b ∷ c ∷ bs) h =
    words_loop-hex_byte b (32 ∷ hex_values (c ∷ bs)) h.0
    ∙ words_loop_space (hex_byte b) (hex_values (c ∷ bs))
    ∙ ap (λ z. hex_byte b ∷ z) (split_whitespace-hex_values (c ∷ bs) h.1)

peek_words-hex_byte : (bytes : Bytes) → All IsByte bytes → peek_words (map hex_byte bytes) ≡ bytes
unfolding peek_words hex_byte
peek_words-hex_byte [] h = refl
peek_words-hex_byte (b ∷ bs) h =
    rw (parse_radix-hex_byte b h.0) (ap (λ z. b ∷ z) (peek_words-hex_byte bs h.1))

-- The text that `poke` writes for its bytes is read by `peek` as the same bytes.
pub peek_bytes-hex_values :
    (bytes : Bytes) → All IsByte bytes → peek_bytes (hex_values bytes) ≡ bytes
unfolding peek_bytes
peek_bytes-hex_values bytes h =
    ap peek_words (split_whitespace-hex_values bytes h) ∙ peek_words-hex_byte bytes h
