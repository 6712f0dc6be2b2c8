-- ===== src/Parse.antt =====
-- `parseline` of Lab4/tsh_helper.c. A C string is the list of its bytes, without the final NUL. The
-- buffer is never written before it is read, so the text still to be read is the whole state of `buf`.
pub mod Total
pub mod Show
pub mod Roundtrip
use model_lib.Prelude.{
  ℕ, zero, suc, ◌+◌, ◌-◌, Bool, true, false, ◌||◌, ◌&&◌, Option, none, some, List, [], ◌∷◌, ◌++◌,
  ltb, leb, ◌==◌, if◌then◌else◌, length, take, drop,
}

abbrev pub Text : Type 0
Text = List ℕ

abbrev pub maxline_tsh : ℕ
maxline_tsh = 1024

abbrev pub max_args : ℕ
max_args = 128

pub data ParseState : Type 0 where
  normal infile outfile : ParseState

pub data ParselineReturn : Type 0 where
  fg bg empty error : ParselineReturn

pub data BuiltinState : Type 0 where
  no_builtin quit jobs bg fg : BuiltinState

pub record Tokens : Type 0 where
  pub argv : List Text
  pub infile : Option Text
  pub outfile : Option Text
  pub builtin : BuiltinState

-- `" \t\r\n"`
abbrev pub is_delim : ℕ → Bool
is_delim c = c == b' ' || c == 9 || c == 13 || c == 10

abbrev pub is_quote : ℕ → Bool
is_quote c = c == 39 || c == 34

-- `buf + strspn(buf, delims)`
unfoldable pub skip_delims : Text → Text
skip_delims [] = []
skip_delims (c ∷ s) = let rest = skip_delims s in if is_delim c then rest else c ∷ s

-- The text before `buf + strcspn(buf, delims)` and the text from there on.
unfoldable pub split_delim : Text → Text × Text
split_delim [] = ([], [])
split_delim (c ∷ s) =
    let (word, rest) = split_delim s in if is_delim c then ([], c ∷ s) else (c ∷ word, rest)

abbrev pub prepend : ℕ → Option (Text × Text) → Option (Text × Text)
prepend c none = none
prepend c (some (word, rest)) = some (c ∷ word, rest)

-- The text before `strchr(buf, q)` and the text from there on; `none` if there is no `q`.
unfoldable pub split_char : ℕ → Text → Option (Text × Text)
split_char q [] = none
split_char q (c ∷ s) = if c == q then some ([], c ∷ s) else prepend c (split_char q s)

-- The variables of the loop.
pub record Scan : Type 0 where
  pub buf : Text
  pub argv : List Text
  pub infile : Option Text
  pub outfile : Option Text
  pub state : ParseState

-- One round of the loop: it goes on, it ends, or `parseline` returns an error.
pub data Round : Type 0 where
  again : Scan → Round
  finish : Scan → Round
  malformed : Scan → Round

-- Where the token that starts at `buf` ends.
unfoldable pub next_token : ℕ → Text → Option (Text × Text)
next_token c s = if is_quote c then split_char c s else some (split_delim (c ∷ s))

-- Records the token by the parsing state.
unfoldable pub record_token : ParseState → Scan → Text → Scan
record_token ParseState.normal v word = record v { argv = v.argv ++ word ∷ []; state = normal }
record_token ParseState.infile v word = record v { infile = some word; state = normal }
record_token ParseState.outfile v word = record v { outfile = some word; state = normal }

-- `buf = next + 1`, unless `argv` is full.
unfoldable pub advance : Scan → Text → Round
advance v rest =
    if leb (max_args - 1) (length v.argv) then finish v else again (record v { buf = drop 1 rest })

-- With no closing quote the line is malformed.
unfoldable pub take_token : Scan → Option (Text × Text) → Round
take_token v none = malformed v
take_token v (some (word, rest)) = advance (record_token v.state v word) rest

abbrev pub is_set : Option Text → Bool
is_set none = false
is_set (some _) = true

-- The body of the loop at the first byte `c` of a token, with `s` behind it.
unfoldable pub at_token : Scan → ℕ → Text → Round
at_token v c s =
    if c == b'<'
    then if is_set v.infile then malformed v else again (record v { buf = s; state = infile })
    else if c == b'>'
    then if is_set v.outfile then malformed v else again (record v { buf = s; state = outfile })
    else take_token v (next_token c s)

unfoldable pub from_token : Scan → Text → Round
from_token v [] = finish v
from_token v (c ∷ s) = at_token v c s

unfoldable pub scan_round : Scan → Round
scan_round v = from_token v (skip_delims v.buf)

pub data Scanned : Type 0 where
  scanned failed : Scan → Scanned
  out_of_fuel : Scanned

-- The loop `while (buf < endbuf)`.
unfoldable pub scan_loop : ℕ → Scan → Scanned
scan_loop zero v = out_of_fuel
scan_loop (suc f) v = elim (scan_round v) [
  | again v' ↦ scan_loop f v'
  | finish v' ↦ scanned v'
  | malformed v' ↦ failed v'
]

abbrev pub same_text : Text → Text → Bool
same_text [] [] = true
same_text [] (_ ∷ _) = false
same_text (_ ∷ _) [] = false
same_text (a ∷ s) (b ∷ t) = a == b && same_text s t

unfoldable pub builtin_of : Text → BuiltinState
builtin_of s =
    if same_text s (b'q' ∷ b'u' ∷ b'i' ∷ b't' ∷ [])
    then BuiltinState.quit
    else if same_text s (b'j' ∷ b'o' ∷ b'b' ∷ b's' ∷ [])
    then BuiltinState.jobs
    else if same_text s (b'b' ∷ b'g' ∷ [])
    then BuiltinState.bg
    else if same_text s (b'f' ∷ b'g' ∷ [])
    then BuiltinState.fg
    else no_builtin

-- The first byte of a string; an empty string shows its NUL.
abbrev pub first_byte : Text → ℕ
first_byte [] = 0
first_byte (c ∷ _) = c

-- The last argument, and the arguments before it.
unfoldable pub split_last : Text → List Text → List Text × Text
split_last a [] = ([], a)
split_last a (b ∷ l) = let (front, last) = split_last b l in (a ∷ front, last)

pub record Parsed : Type 0 where
  pub result : ParselineReturn
  pub token : Tokens

unfoldable pub finish_line : Scan → List Text → Parsed
finish_line v [] = record {
  result = empty;
  token = record { argv = []; infile = v.infile; outfile = v.outfile; builtin = no_builtin };
}
finish_line v (a ∷ l) =
    let (front, last) = split_last a l in
    let token : Tokens = record {
      argv = a ∷ l;
      infile = v.infile;
      outfile = v.outfile;
      builtin = builtin_of a;
    } in
    if first_byte last == b'&'
    then if length front == 0
      then record { result = empty; token = record token { argv = front } }
      else record { result = ParselineReturn.bg; token = record token { argv = front } }
    else record { result = ParselineReturn.fg; token = token }

abbrev pub no_tokens : Tokens
no_tokens = record { argv = []; infile = none; outfile = none; builtin = no_builtin }

-- The caller has the arguments and the files that were recorded so far; `builtin` is not yet set.
abbrev pub rejected : Scan → Parsed
rejected v = record {
  result = error;
  token = record { argv = v.argv; infile = v.infile; outfile = v.outfile; builtin = no_builtin };
}

-- What follows the loop; a redirection with no file name is an error.
unfoldable pub end_line : Scan → ParseState → Parsed
end_line v ParseState.normal = finish_line v v.argv
end_line v _ = rejected v

abbrev pub start : Text → Scan
start s = record { buf = s; argv = []; infile = none; outfile = none; state = normal }

unfoldable pub parse_text : Text → Option Parsed
parse_text s = elim (scan_loop (length s + 1) (start s)) [
  | scanned v ↦ some (end_line v v.state)
  | failed v ↦ some (rejected v)
  | out_of_fuel ↦ none
]

-- `none` stands for a null `cmdline`; a result `none` is exhausted fuel. `strncpy` cuts the line.
unfoldable pub parseline : Option Text → Option Parsed
parseline none = some (record { result = empty; token = no_tokens })
parseline (some cmdline) = parse_text (take (maxline_tsh - 1) cmdline)
