-- ===== src/Parse/Roundtrip.antt =====
-- `parseline` of Lab4/tsh_helper.c reads back what a command line was written from.
use model_lib.Prelude.{
  ℕ, zero, suc, ◌+◌, ◌-◌, ◌≤◌, ◌<◌, ◌≡◌, refl, ap, ◌∙◌, true, false, Bool, Option, none, some, List,
  [], ◌∷◌, ◌++◌, arith, length, length-append, ◌==◌, ◌&&◌, not, take,
}
use mathlib.Core.List.{append_assoc, append-nil}
use model_lib.Parse.{
  Text, Scan, skip_delims, normal, infile, outfile, scan_loop, scanned, record_token, at_token,
  from_token, scan_round, again, max_args, is_set, ParseState, builtin_of, finish_line, end_line,
  split_last, first_byte, parseline, parse_text, ParselineReturn, maxline_tsh,
}
use model_lib.Parse.Show.{Word, plain, quoted, text, writable, show_word, at_token-show}

-- An argument, `< file` or `> file`.
pub data Part : Type 0 where
  arg : Word → Part
  input : Word → Part
  output : Word → Part

abbrev pub show_part : Part → Text → Text
show_part (arg w) rest = b' ' ∷ show_word w rest
show_part (input w) rest = b'<' ∷ show_word w rest
show_part (output w) rest = b'>' ∷ show_word w rest

abbrev pub show : List Part → Text
show [] = []
show (p ∷ ps) = show_part p (show ps)

abbrev pub args : List Part → List Text
args [] = []
args (arg w ∷ ps) = text w ∷ args ps
args (input w ∷ ps) = args ps
args (output w ∷ ps) = args ps

abbrev pub input_of : List Part → Option Text
input_of [] = none
input_of (arg w ∷ ps) = input_of ps
input_of (input w ∷ ps) = some (text w)
input_of (output w ∷ ps) = input_of ps

abbrev pub output_of : List Part → Option Text
output_of [] = none
output_of (arg w ∷ ps) = output_of ps
output_of (input w ∷ ps) = output_of ps
output_of (output w ∷ ps) = some (text w)

-- Every word can be written, and no file is given twice.
abbrev pub well_formed : List Part → Bool
well_formed [] = true
well_formed (arg w ∷ ps) = writable w && well_formed ps
well_formed (input w ∷ ps) = writable w && (not (is_set (input_of ps)) && well_formed ps)
well_formed (output w ∷ ps) = writable w && (not (is_set (output_of ps)) && well_formed ps)

abbrev or_else : Option Text → Option Text → Option Text
or_else none o = o
or_else (some a) o = some a

abbrev state : Text → List Text → Option Text → Option Text → ParseState → Scan
state b a i o p = record { buf = b; argv = a; infile = i; outfile = o; state = p }

length-show_word : (w : Word) (rest : Text) → length rest < length (show_word w rest)
length-show_word (plain w) rest = omega (arith, length-append w (b' ' ∷ rest))
length-show_word (quoted w) rest = omega (arith, length-append w (39 ∷ rest))

scan_loop-again :
    (f : ℕ) (v : Scan) {v' : Scan} → scan_round v ≡ again v' → scan_loop (suc f) v ≡ scan_loop f v'
unfolding scan_loop
scan_loop-again f v e = rw (e, scan_loop)

module _ (f : ℕ) (a : List Text) (i o : Option Text) (w : Word) (rest : Text)
    (h : writable w ≡ true) where
  loop-arg :
      length (a ++ text w ∷ []) < max_args - 1
      → scan_loop (suc f) (state (b' ' ∷ show_word w rest) a i o normal)
        ≡ scan_loop f (state rest (a ++ text w ∷ []) i o normal)
  unfolding scan_round skip_delims record_token
  loop-arg room = scan_loop-again f _ (at_token-show (state _ a i o normal) w rest h room)

  loop-input :
      length a < max_args - 1
      → i ≡ none
      → scan_loop (suc (suc f)) (state (b'<' ∷ show_word w rest) a i o normal)
        ≡ scan_loop f (state rest a (some (text w)) o normal)
  unfolding scan_round skip_delims record_token from_token at_token
  loop-input room e =
      scan_loop-again (suc f) _ {v' = state (show_word w rest) a i o infile} (rw e)
      ∙ scan_loop-again f _ (at_token-show (state _ a i o infile) w rest h room)

  loop-output :
      length a < max_args - 1
      → o ≡ none
      → scan_loop (suc (suc f)) (state (b'>' ∷ show_word w rest) a i o normal)
        ≡ scan_loop f (state rest a i (some (text w)) normal)
  unfolding scan_round skip_delims record_token from_token at_token
  loop-output room e =
      scan_loop-again (suc f) _ {v' = state (show_word w rest) a i o outfile} (rw e)
      ∙ scan_loop-again f _ (at_token-show (state _ a i o outfile) w rest h room)

abbrev free : Option Text → Option Text → Bool
free i o = not (is_set i && is_set o)

-- The loop reads every part.
scan_loop-show :
    (f : ℕ) (ps : List Part) (a : List Text) (i o : Option Text)
    → length (show ps) < f
    → length a + length (args ps) < max_args - 1
    → well_formed ps ≡ true
    → free i (input_of ps) ≡ true
    → free o (output_of ps) ≡ true
    → scan_loop f (state (show ps) a i o normal)
      ≡ scanned
          (state [] (a ++ args ps) (or_else i (input_of ps)) (or_else o (output_of ps)) normal)
unfolding scan_loop scan_round skip_delims from_token
scan_loop-show zero ps a i o le room h fi fo = absurd (omega arith)
scan_loop-show (suc f) [] a none none le room h fi fo = rw append-nil
scan_loop-show (suc f) [] a none (some x) le room h fi fo = rw append-nil
scan_loop-show (suc f) [] a (some x) none le room h fi fo = rw append-nil
scan_loop-show (suc f) [] a (some x) (some y) le room h fi fo = rw append-nil
scan_loop-show (suc f) (arg w ∷ ps) a i o le room h fi fo =
    loop-arg f a i o w (show ps) (ground arith) (omega (arith, length-append a (text w ∷ [])))
    ∙ scan_loop-show f ps (a ++ text w ∷ []) i o (omega (arith, length-show_word w (show ps)))
        (omega (arith, length-append a (text w ∷ []))) (ground arith) fi fo
    ∙ rw append_assoc
scan_loop-show (suc zero) (input w ∷ ps) a i o le room h fi fo =
    absurd (omega (arith, length-show_word w (show ps)))
scan_loop-show (suc (suc f)) (input w ∷ ps) a (some x) o le room h fi fo = cc
scan_loop-show (suc (suc f)) (input w ∷ ps) a none o le room h fi fo =
    loop-input f a none o w (show ps) (ground arith) (omega arith) refl
    ∙ scan_loop-show f ps a (some (text w)) o (omega (arith, length-show_word w (show ps))) room
        (ground arith) (ground arith) fo
scan_loop-show (suc zero) (output w ∷ ps) a i o le room h fi fo =
    absurd (omega (arith, length-show_word w (show ps)))
scan_loop-show (suc (suc f)) (output w ∷ ps) a i (some x) le room h fi fo = cc
scan_loop-show (suc (suc f)) (output w ∷ ps) a i none le room h fi fo =
    loop-output f a i none w (show ps) (ground arith) (omega arith) refl
    ∙ scan_loop-show f ps a i (some (text w)) (omega (arith, length-show_word w (show ps))) room
        (ground arith) fi (ground arith)

take_of_length-le : (n : ℕ) (s : Text) → length s ≤ n → take n s ≡ s
take_of_length-le zero [] h = refl
take_of_length-le zero (c ∷ s) h = absurd (omega arith)
take_of_length-le (suc n) [] h = refl
take_of_length-le (suc n) (c ∷ s) h = ap (◌∷◌ c) (take_of_length-le n s (omega arith))

-- A line that fits the buffer, with fewer than 127 arguments.
pub record Fits (ps : List Part) : Type 0 where
  pub short : length (show ps) < maxline_tsh
  pub few : length (args ps) < max_args - 1
  pub good : well_formed ps ≡ true

free-none : (o : Option Text) → free none o ≡ true
free-none o = refl

parseline-read :
    (ps : List Part)
    → Fits ps
    → parseline (some (show ps))
      ≡ some (finish_line (state [] (args ps) (input_of ps) (output_of ps) normal) (args ps))
unfolding parseline parse_text end_line
parseline-read ps h = rw (
  take_of_length-le (maxline_tsh - 1) (show ps) (omega (arith, h.short)),
  scan_loop-show (length (show ps) + 1) ps [] none none (omega arith) (omega (arith, h.few)) h.good
      refl refl,
  parse_text,
)

split_last-snoc : (a : Text) (l : List Text) (x : Text) → split_last a (l ++ x ∷ []) ≡ (a ∷ l, x)
unfolding split_last
split_last-snoc a [] x = refl
split_last-snoc a (b ∷ l) x = rw (split_last-snoc b l x)

-- `parseline` of a written command line that fits, has an argument, and whose last argument does
-- not start with `&` gives back the arguments and the file names in order, as a foreground command.
pub parseline-show_fg :
    (ps : List Part) (a : Text) (l : List Text)
    → Fits ps
    → args ps ≡ a ∷ l
    → (first_byte (split_last a l).1 == b'&') ≡ false
    → parseline (some (show ps))
      ≡ some (record {
        result = ParselineReturn.fg;
        token = record {
          argv = a ∷ l;
          infile = input_of ps;
          outfile = output_of ps;
          builtin = builtin_of a;
        };
      })
unfolding finish_line
parseline-show_fg ps a l h e other = parseline-read ps h ∙ rw (e, other)

-- `parseline` of a written command line that fits and whose last of two arguments or more starts
-- with `&` gives a background command with the other arguments and the file names in order.
pub parseline-show_bg :
    (ps : List Part) (a : Text) (l : List Text) (x : Text)
    → Fits ps
    → args ps ≡ a ∷ l ++ x ∷ []
    → (first_byte x == b'&') ≡ true
    → parseline (some (show ps))
      ≡ some (record {
        result = ParselineReturn.bg;
        token = record {
          argv = a ∷ l;
          infile = input_of ps;
          outfile = output_of ps;
          builtin = builtin_of a;
        };
      })
unfolding finish_line
parseline-show_bg ps a l x h e amp = parseline-read ps h ∙ rw (e, split_last-snoc) (ground arith)
