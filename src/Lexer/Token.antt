-- ===== src/Lexer/Token.antt =====
-- src/lexer.h: the token types and `token_t`. The members of its union are fields here; the only
-- read of a member that was not written last is of `character`, so a write of `char_class_index`
-- sets that field too, to the low byte (x86-64 is little-endian).
use crex.Base.{ℕ, ◌%◌, ◌^◌, ◌-◌, List}
use crex.Bitmap.{Bitmap}

pub data TokenType : Type 0 where
  character char_class builtin_char_class anchor pipe : TokenType
  greedy_repetition lazy_repetition : TokenType
  open_paren non_capturing_open_paren close_paren : TokenType

pub data AnchorType : Type 0 where
  bof bol eof eol word_boundary not_word_boundary : AnchorType

pub record Token : Type 0 where
  pub type : TokenType
  pub character : ℕ
  pub char_class_index : ℕ
  pub anchor_type : AnchorType
  pub lower_bound : ℕ
  pub upper_bound : ℕ

-- `SIZE_MAX`
abbrev pub repetition_infinity : ℕ
repetition_infinity = 2 ^ 64 - 1

-- `char_classes_t`: `size` is the length of `entries`.
pub record CharClasses : Type 0 where
  pub entries : List Bitmap
  pub capacity : ℕ

abbrev pub set_character : Token → ℕ → Token
set_character token c = record token { type = TokenType.character; character = c }

abbrev pub set_anchor : Token → AnchorType → Token
set_anchor token a = record token { type = TokenType.anchor; anchor_type = a }

abbrev pub set_class : Token → TokenType → ℕ → Token
set_class token type index = record token {
  type = type;
  char_class_index = index;
  character = index % 256;
}

abbrev pub set_builtin : Token → ℕ → Token
set_builtin token index = set_class token TokenType.builtin_char_class index

abbrev pub set_repetition : Token → TokenType → ℕ → ℕ → Token
set_repetition token type lower upper = record token {
  type = type;
  lower_bound = lower;
  upper_bound = upper;
}
