-- ===== src/Memcached/Tokens/Words.antt =====
-- The tokens that src/handler/memcached.c makes of a command, and the command's words.
use zeroserv.Prelude.{
  ℕ, zero, suc, ◌-◌, ◌≡◌, ◌<◌, refl, sym, ap, ap₂, ◌∙◌, Bool, true, false, ◌&&◌, not, List, [], ◌∷◌,
  ◌++◌, ◌==◌, if◌then◌else◌, arith, take, map, lt→ltb, ok, append-nil, append_assoc,
}
use zeroserv.Memcached.Tokens.{
  Token, word_token, last_token, is_empty, push_word, token_loop, tokenize_command,
}

abbrev cons_head : ℕ → List (List ℕ) → List (List ℕ)
cons_head ch [] = (ch ∷ []) ∷ []
cons_head ch (w ∷ ws) = (ch ∷ w) ∷ ws

-- The parts of a text between its spaces, empty ones included.
unfoldable pub split_spaces : List ℕ → List (List ℕ)
split_spaces [] = [] ∷ []
split_spaces (ch ∷ text) =
    let rest = split_spaces text in if ch == 32 then [] ∷ rest else cons_head ch rest

unfoldable pub drop_empty : List (List ℕ) → List (List ℕ)
drop_empty [] = []
drop_empty (w ∷ ws) = if is_empty w then drop_empty ws else w ∷ drop_empty ws

-- The words of a text: its parts that are not empty.
abbrev pub words : List ℕ → List (List ℕ)
words text = drop_empty (split_spaces text)

-- The tokens before the last one.
abbrev pub front : List Token → List Token
front [] = []
front (t ∷ []) = []
front (t ∷ u ∷ ts) = t ∷ front (u ∷ ts)

-- `w` before the first part.
prefix_head : List ℕ → List (List ℕ) → List (List ℕ)
prefix_head w [] = w ∷ []
prefix_head w (v ∷ ws) = (w ++ v) ∷ ws

prefix_head-cons_head :
    (w : List ℕ) (ch : ℕ) (ws : List (List ℕ))
    → prefix_head w (cons_head ch ws) ≡ prefix_head (w ++ ch ∷ []) ws
unfolding prefix_head
prefix_head-cons_head w ch [] = refl
prefix_head-cons_head w ch (v ∷ ws) = ap (λ l. l ∷ ws) (sym (append_assoc w (ch ∷ []) v))

prefix_head_nil : (text : List ℕ) → prefix_head [] (split_spaces text) ≡ split_spaces text
unfolding prefix_head split_spaces
prefix_head_nil [] = refl
prefix_head_nil (ch ∷ text) =
    elim (ch == 32)
      as (λ b.
        prefix_head [] (if b then [] ∷ split_spaces text else cons_head ch (split_spaces text))
        ≡ (if b then [] ∷ split_spaces text else cons_head ch (split_spaces text))) [
          | true ↦ refl
          | false ↦ of_cons (split_spaces text)
        ]
  where
    of_cons : (ws : List (List ℕ)) → prefix_head [] (cons_head ch ws) ≡ cons_head ch ws
    of_cons [] = refl
    of_cons (v ∷ ws) = refl

has_token : List Token → Bool
has_token [] = false
has_token (t ∷ ts) = true

has_token-push_word :
    (w : List ℕ) (ts : List Token) → has_token ts ≡ true → has_token (push_word w ts) ≡ true
unfolding has_token
has_token-push_word [] ts h = h
has_token-push_word (c ∷ w) ts h = refl

-- The loop makes at least the last token.
has_token-token_loop : (left : ℕ) (w text : List ℕ) → has_token (token_loop left w text) ≡ true
unfolding token_loop has_token
has_token-token_loop zero w text = refl
has_token-token_loop (suc left) w [] = has_token-push_word w (last_token [] ∷ []) refl
has_token-token_loop (suc left) w (ch ∷ text) =
    let ends = (ch == 32) && not (is_empty w) in
    let w' = if ch == 32 then [] else w ++ ch ∷ [] in
    let rest = token_loop (if ends then left else suc left) w' text in
    let h = has_token-token_loop (if ends then left else suc left) w' text in
    elim (ch == 32) as (λ b. has_token (if b then push_word w rest else rest) ≡ true) [
      | true ↦ has_token-push_word w rest h
      | false ↦ h
    ]

front_cons : (t : Token) (ts : List Token) → has_token ts ≡ true → front (t ∷ ts) ≡ t ∷ front ts
unfolding has_token
front_cons t [] h = absurd (ground (arith, h))
front_cons t (u ∷ us) h = refl

take_nil : (n : ℕ) → take {A = List ℕ} n [] ≡ []
take_nil zero = refl
take_nil (suc n) = refl

after_nil :
    (left : ℕ) (text : List ℕ)
    → map word_token (take left (drop_empty (prefix_head [] (split_spaces text))))
      ≡ map word_token (take left (drop_empty (split_spaces text)))
after_nil left text = ap (λ ws. map word_token (take left (drop_empty ws))) (prefix_head_nil text)

-- A space ends the word before it, if there is one.
at_space :
    (left : ℕ) (w text : List ℕ)
    → front (token_loop (suc left) [] text)
      ≡ map word_token (take (suc left) (drop_empty (prefix_head [] (split_spaces text))))
    → front (token_loop left [] text)
      ≡ map word_token (take left (drop_empty (prefix_head [] (split_spaces text))))
    → front (push_word w (token_loop (if not (is_empty w) then left else suc left) [] text))
      ≡ map word_token (take (suc left) (drop_empty ((w ++ []) ∷ split_spaces text)))
unfolding drop_empty
at_space left [] text more fewer = more ∙ after_nil (suc left) text
at_space left (c ∷ w) text more fewer =
    front_cons (word_token (c ∷ w)) (token_loop left [] text) (has_token-token_loop left [] text)
    ∙ ap (◌∷◌ (word_token (c ∷ w))) (fewer ∙ after_nil left text)
    ∙ ap (λ l. word_token l ∷ map word_token (take left (drop_empty (split_spaces text))))
        (sym (append-nil (c ∷ w)))

front-token_loop :
    (left : ℕ) (w text : List ℕ)
    → front (token_loop left w text)
      ≡ map word_token (take left (drop_empty (prefix_head w (split_spaces text))))
unfolding token_loop prefix_head split_spaces drop_empty
front-token_loop zero w text = refl
front-token_loop (suc left) [] [] = refl
front-token_loop (suc left) (c ∷ w) [] =
    ap₂ (λ l ws. word_token l ∷ map word_token ws) (sym (append-nil (c ∷ w))) (sym (take_nil left))
front-token_loop (suc left) w (ch ∷ text) =
    elim (ch == 32)
      as (λ b.
        front (
          if b
          then push_word w (
              token_loop (if b && not (is_empty w) then left else suc left)
                (if b then [] else w ++ ch ∷ []) text)
          else token_loop (if b && not (is_empty w) then left else suc left)
              (if b then [] else w ++ ch ∷ []) text)
        ≡ map word_token (
            take (suc left) (
              drop_empty (
                prefix_head w
                  (if b then [] ∷ split_spaces text else cons_head ch (split_spaces text)))))) [
                    | true ↦
                        at_space left w text (front-token_loop (suc left) [] text)
                          (front-token_loop left [] text)
                    | false ↦
                        front-token_loop (suc left) (w ++ ch ∷ []) text
                        ∙ ap (λ ws. map word_token (take (suc left) (drop_empty ws)))
                            (sym (prefix_head-cons_head w ch (split_spaces text)))
                  ]

-- With room for `max_tokens` tokens, at least two, tokenize_command passes its assert and makes a
-- token of each of the first `max_tokens - 1` words of the command, in order, and one more.
pub tokenize_command-words :
    (command : List ℕ) (max_tokens : ℕ)
    → 1 < max_tokens
    → (tokens : List Token) × (tokenize_command command max_tokens ≡ ok tokens)
      × (front tokens ≡ map word_token (take (max_tokens - 1) (words command)))
unfolding tokenize_command
tokenize_command-words command max_tokens h = (
  token_loop (max_tokens - 1) [] command,
  rw (lt→ltb 1 max_tokens h) refl,
  front-token_loop (max_tokens - 1) [] command ∙ after_nil (max_tokens - 1) command,
)
