-- ===== src/Memcached/Tokens.antt =====
-- tokenize_command in src/handler/memcached.c. A command is the text before its terminator; a
-- token's value is the text from its pointer to the terminator that the function writes, or NULL.
-- The child is about the words of a command (Words).
pub mod Words
use zeroserv.Prelude.{
  ℕ, zero, suc, ◌+◌, ◌-◌, Bool, true, false, ◌&&◌, not, List, [], ◌∷◌, ◌++◌, Option, none, some,
  ltb, ◌==◌, if◌then◌else◌, length, Run, ok, ◌>>◌, demand, assert_failed,
}

pub record Token : Type 0 where
  pub value : Option (List ℕ)
  pub length : ℕ

abbrev pub word_token : List ℕ → Token
word_token w = record { value = some w; length = length w }

-- The token behind the words: the rest of the command, or NULL at its end.
abbrev pub last_token : List ℕ → Token
last_token [] = record { value = none; length = 0 }
last_token (ch ∷ rest) = record { value = some (ch ∷ rest); length = 0 }

-- `s == e`
abbrev pub is_empty : List ℕ → Bool
is_empty [] = true
is_empty (ch ∷ w) = false

-- A token for the bytes from `s` to `e`, if there are any.
abbrev pub push_word : List ℕ → List Token → List Token
push_word [] tokens = tokens
push_word (ch ∷ w) tokens = word_token (ch ∷ w) ∷ tokens

-- The loop: `left` tokens may still come before the last one, `w` is the text from `s` to `e`, and
-- the rest of the command is at `e`.
unfoldable pub token_loop : ℕ → List ℕ → List ℕ → List Token
token_loop zero w text = last_token text ∷ []
token_loop (suc left) w [] = push_word w (last_token [] ∷ [])
token_loop (suc left) w (ch ∷ text) =
    let space = ch == 32 in
    let ends = space && not (is_empty w) in
    let rest =
      token_loop (if ends then left else suc left) (if space then [] else w ++ ch ∷ []) text in
    if space then push_word w rest else rest

unfoldable pub tokenize_command : List ℕ → ℕ → Run (List Token)
tokenize_command command max_tokens =
    demand (ltb 1 max_tokens) assert_failed >> ok (token_loop (max_tokens - 1) [] command)
