-- ===== src/Parse/Show.antt =====
-- Command lines as text, for `parseline` of Lab4/tsh_helper.c: arguments and redirections in any
-- order, a word plain or in single quotes.
use model_lib.Prelude.{
  ℕ, ◌-◌, ◌<◌, ◌≡◌, refl, true, false, Bool, some, [], ◌∷◌, ◌++◌, arith, length, ◌==◌, ◌||◌, ◌&&◌,
  not,
}
use model_lib.Parse.{
  Text, is_delim, is_quote, Scan, skip_delims, split_delim, split_char, next_token, record_token,
  take_token, advance, at_token, from_token, again, max_args,
}

pub data Word : Type 0 where
  plain : Text → Word
  quoted : Text → Word

abbrev pub text : Word → Text
text (plain w) = w
text (quoted w) = w

abbrev pub no_delim : Text → Bool
no_delim [] = true
no_delim (c ∷ s) = not (is_delim c) && no_delim s

abbrev pub no_quote : Text → Bool
no_quote [] = true
no_quote (c ∷ s) = not (c == 39) && no_quote s

-- A byte that a plain word may start with.
abbrev pub is_plain_start : ℕ → Bool
is_plain_start c = not (is_delim c || is_quote c || c == b'<' || c == b'>')

abbrev pub writable : Word → Bool
writable (plain []) = false
writable (plain (c ∷ s)) = is_plain_start c && no_delim s
writable (quoted w) = no_quote w

-- The word before `rest`.
abbrev pub show_word : Word → Text → Text
show_word (plain w) rest = w ++ b' ' ∷ rest
show_word (quoted w) rest = 39 ∷ w ++ 39 ∷ rest

split_delim-show :
    (w rest : Text) → no_delim w ≡ true → split_delim (w ++ b' ' ∷ rest) ≡ (w, b' ' ∷ rest)
unfolding split_delim
split_delim-show [] rest h = refl
split_delim-show (c ∷ w) rest h = ground (arith, split_delim-show w rest)

split_char-show :
    (w rest : Text) → no_quote w ≡ true → split_char 39 (w ++ 39 ∷ rest) ≡ some (w, 39 ∷ rest)
unfolding split_char
split_char-show [] rest h = refl
split_char-show (c ∷ w) rest h =
    let ih : split_char 39 (w ++ 39 ∷ rest) ≡ some (w, 39 ∷ rest) =
      split_char-show w rest (ground arith) in
    let other : (c == 39) ≡ false = ground arith in rw (other, ih)

-- What the round at the start of a word does: it records the word.
abbrev pub recorded : Scan → Word → Text → Scan
recorded v w rest = record (record_token v.state v (text w)) { buf = rest }

-- The state keeps room in `argv`.
advance-room :
    (v : Scan) (c : ℕ) (rest : Text)
    → length v.argv < max_args - 1
    → advance v (c ∷ rest) ≡ again (record v { buf = rest })
unfolding advance
advance-room v c rest room = ground arith

pub at_token-show :
    (v : Scan) (w : Word) (rest : Text)
    → writable w ≡ true
    → length (record_token v.state v (text w)).argv < max_args - 1
    → from_token v (skip_delims (show_word w rest)) ≡ again (recorded v w rest)
unfolding skip_delims from_token at_token next_token take_token split_delim
at_token-show v (plain []) rest h room = cc
at_token-show v (plain (c ∷ s)) rest h room =
    ground
      (arith, split_delim-show s rest, advance-room (record_token v.state v (c ∷ s)) b' ' rest room)
at_token-show v (quoted w) rest h room =
    rw (split_char-show w rest h) (advance-room (record_token v.state v w) 39 rest room)
