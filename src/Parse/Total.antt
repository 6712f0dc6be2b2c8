-- ===== src/Parse/Total.antt =====
-- `parseline` of Lab4/tsh_helper.c ends on every line, and keeps to its bounds.
use model_lib.Prelude.{
  ℕ, zero, suc, ◌+◌, ◌-◌, ◌≤◌, ◌<◌, ◌≡◌, refl, Option, none, some, [], ◌∷◌, arith, length, drop,
  length-append, length-drop, leb, ◌==◌, List, Bool-cases, take, inl, inr,
}
use model_lib.Parse.{
  finish_line, end_line, first_byte, rejected, take_token, is_set, split_last, ParselineReturn,
  prepend, Text, Scan, Round, again, finish, malformed, Scanned, scanned, failed, out_of_fuel,
  skip_delims, split_delim, split_char, next_token, record_token, ParseState, advance, at_token,
  from_token, scan_round, scan_loop, parseline, parse_text, Parsed, max_args, maxline_tsh, start,
}

length-skip_delims-le : (s : Text) → length (skip_delims s) ≤ length s
unfolding skip_delims
length-skip_delims-le [] = omega arith
length-skip_delims-le (c ∷ s) = ground (arith, length-skip_delims-le s)

length-split_delim : (s : Text) → length (split_delim s).1 ≤ length s
unfolding split_delim
length-split_delim [] = omega arith
length-split_delim (c ∷ s) = ground (arith, length-split_delim s)

abbrev rest_length : Option (Text × Text) → ℕ
rest_length none = 0
rest_length (some x) = length x.1

rest_length-prepend : (c : ℕ) (o : Option (Text × Text)) → rest_length (prepend c o) ≡ rest_length o
rest_length-prepend c none = refl
rest_length-prepend c (some x) = refl

rest_length-split_char : (q : ℕ) (s : Text) → rest_length (split_char q s) ≤ length s
unfolding split_char
rest_length-split_char q [] = omega arith
rest_length-split_char q (c ∷ s) =
    ground (arith, rest_length-prepend c (split_char q s), rest_length-split_char q s)

rest_length-next_token : (c : ℕ) (s : Text) → rest_length (next_token c s) ≤ suc (length s)
unfolding next_token
rest_length-next_token c s = ground (arith, rest_length-split_char c s, length-split_delim (c ∷ s))

-- Each round that goes on shortens the text, and `argv` keeps room for its final null pointer.
abbrev Fits : Scan → Type 0
Fits v = length v.argv < max_args - 1

abbrev Progress : ℕ → Round → Type 0
Progress n (again v) = (length v.buf < n) × Fits v
Progress n (finish v) = length v.argv < max_args
Progress n (malformed v) = length v.argv < max_args

length-record_token-le :
    (p : ParseState) (v : Scan) (w : Text) → length (record_token p v w).argv ≤ length v.argv + 1
unfolding record_token
length-record_token-le ParseState.normal v w = omega (arith, length-append v.argv (w ∷ []))
length-record_token-le ParseState.infile v w = omega arith
length-record_token-le ParseState.outfile v w = omega arith

length-drop_one : (s : Text) → length (drop 1 s) ≡ length s - 1
length-drop_one s = length-drop 1 s

advance-Progress :
    (n : ℕ) (v : Scan) (rest : Text)
    → length rest ≤ n
    → 0 < n
    → length v.argv < max_args
    → Progress n (advance v rest)
unfolding advance
advance-Progress n v rest le pos few = elim (Bool-cases (leb (max_args - 1) (length v.argv))) [
  | inl full ↦ rw full few
  | inr room ↦ rw room (omega (arith, length-drop_one rest), ground arith)
]

token-Progress :
    (n : ℕ) (v : Scan) (o : Option (Text × Text))
    → rest_length o ≤ n
    → 0 < n
    → Fits v
    → Progress n (take_token v o)
unfolding take_token
token-Progress n v none le pos fits = omega (arith, fits)
token-Progress n v (some (w, r)) le pos fits =
    advance-Progress n (record_token v.state v w) r le pos
      (omega (arith, length-record_token-le v.state v w))

at_token-Progress :
    (n : ℕ) (v : Scan) (c : ℕ) (s : Text) → length s < n → Fits v → Progress n (at_token v c s)
unfolding at_token
at_token-Progress n v c s le fits = elim (Bool-cases (c == b'<')) [
  | inl lt ↦ rw lt (elim (Bool-cases (is_set v.infile)) [
    | inl twice ↦ rw twice (omega (arith, fits))
    | inr first ↦ rw first (le, fits)
  ])
  | inr nlt ↦ rw nlt (elim (Bool-cases (c == b'>')) [
    | inl gt ↦ rw gt (elim (Bool-cases (is_set v.outfile)) [
      | inl twice ↦ rw twice (omega (arith, fits))
      | inr first ↦ rw first (le, fits)
    ])
    | inr ngt ↦ rw ngt (
        token-Progress n v (next_token c s) (omega (arith, rest_length-next_token c s))
          (omega arith) fits)
  ])
]

from_token-Progress :
    (n : ℕ) (v : Scan) (s : Text) → length s ≤ n → Fits v → Progress n (from_token v s)
unfolding from_token
from_token-Progress n v [] le fits = omega arith
from_token-Progress n v (c ∷ s) le fits = at_token-Progress n v c s le fits

scan_round-Progress : (v : Scan) → Fits v → Progress (length v.buf) (scan_round v)
unfolding scan_round
scan_round-Progress v fits =
    from_token-Progress (length v.buf) v (skip_delims v.buf) (length-skip_delims-le v.buf) fits

-- What the loop ends with.
abbrev Ended : Scanned → Type 0
Ended (scanned v) = length v.argv < max_args
Ended (failed v) = length v.argv < max_args
Ended out_of_fuel = ⊥

scan_loop-Ended : (f : ℕ) (v : Scan) → length v.buf < f → Fits v → Ended (scan_loop f v)
unfolding scan_loop
scan_loop-Ended zero v le fits = absurd (omega arith)
scan_loop-Ended (suc f) v le fits =
    after (λ v' p q. scan_loop-Ended f v' p q) (scan_round v) (scan_round-Progress v fits)
  where
    after :
        ((v' : Scan) → length v'.buf < f → Fits v' → Ended (scan_loop f v'))
        → (r : Round) → Progress (length v.buf) r
        → Ended (elim r [
          | again v' ↦ scan_loop f v'
          | finish v' ↦ scanned v'
          | malformed v' ↦ failed v'
        ])
    after ih (again v') p = ih v' (omega arith) p.1
    after ih (finish v') p = p
    after ih (malformed v') p = p

length-split_last : (a : Text) (l : List Text) → length (split_last a l).0 ≡ length l
unfolding split_last
length-split_last a [] = refl
length-split_last a (b ∷ l) = omega (arith, length-split_last b l)

-- A line is a command, which has an argument; the last argument of a background command is gone.
abbrev pub IsCommand : Parsed → Type 0
IsCommand p = (0 < length p.token.argv) × (length p.token.argv < max_args)

abbrev pub Classified : Parsed → ParselineReturn → Type 0
Classified p ParselineReturn.fg = IsCommand p
Classified p ParselineReturn.bg = IsCommand p
Classified p ParselineReturn.empty = length p.token.argv ≡ 0
Classified p ParselineReturn.error = length p.token.argv < max_args

finish_line-Classified :
    (v : Scan) (l : List Text)
    → length l < max_args
    → Classified (finish_line v l) (finish_line v l).result
unfolding finish_line
finish_line-Classified v [] few = refl
finish_line-Classified v (a ∷ l) few = elim (Bool-cases (first_byte (split_last a l).1 == b'&')) [
  | inl amp ↦ rw amp (elim (Bool-cases (length (split_last a l).0 == 0)) [
    | inl alone ↦ rw alone (ground arith)
    | inr more ↦ rw more (ground arith, omega (arith, length-split_last a l))
  ])
  | inr plain ↦ rw plain (omega arith, few)
]

end_line-Classified :
    (v : Scan) (p : ParseState)
    → length v.argv < max_args
    → Classified (end_line v p) (end_line v p).result
unfolding end_line
end_line-Classified v ParseState.normal few = finish_line-Classified v v.argv few
end_line-Classified v ParseState.infile few = few
end_line-Classified v ParseState.outfile few = few

pub parseline-Classified :
    (line : Option Text) → (p : Parsed) × (parseline line ≡ some p) × Classified p p.result
unfolding parseline parse_text
parseline-Classified none = (_, refl, refl)
parseline-Classified (some line) = after (scan_loop (length s + 1) (start s)) ended
  where
    s : Text
    s = take (maxline_tsh - 1) line

    ended : Ended (scan_loop (length s + 1) (start s))
    ended = scan_loop-Ended (length s + 1) (start s) (omega arith) (omega arith)

    after :
        (r : Scanned)
        → Ended r
        → (p : Parsed) × ((elim r [
          | scanned v ↦ some (end_line v v.state)
          | failed v ↦ some (rejected v)
          | out_of_fuel ↦ none
        ])
            ≡ some p)
          × Classified p p.result
    after (scanned v) few = (end_line v v.state, refl, end_line-Classified v v.state few)
    after (failed v) few = (rejected v, refl, few)
    after out_of_fuel few = absurd few
