-- ===== src/Tests/Parse.antt =====
-- Runs of `parseline` of Lab4/tsh_helper.c.
use model_lib.Prelude.{◌≡◌, refl, List, [], ◌∷◌, some, arith}
use model_lib.Parse.{Text, parseline, ParselineReturn, builtin_of, split_last}
use model_lib.Parse.Show.{plain, quoted}
use model_lib.Parse.Roundtrip.{Part, arg, input, output, show, Fits, parseline-show_fg}

abbrev cat : Text
cat = b'c' ∷ b'a' ∷ b't' ∷ []

abbrev file : Text
file = b'f' ∷ []

-- `cat 'f f' < f > f`
abbrev command : List Part
command =
    arg (plain cat)
    ∷ arg (quoted (b'f' ∷ b' ' ∷ b'f' ∷ []))
    ∷ input (plain file)
    ∷ output (plain file)
    ∷ []

command-Fits : Fits command
command-Fits = record { short = omega arith; few = omega arith; good = refl }

-- `cat f &`
abbrev behind : List Part
behind = arg (plain cat) ∷ arg (plain file) ∷ arg (plain (b'&' ∷ [])) ∷ []

behind-Fits : Fits behind
behind-Fits = record { short = omega arith; few = omega arith; good = refl }

parseline-show_fg_example :
    parseline (some (show command))
    ≡ some (record {
      result = ParselineReturn.fg;
      token = record {
        argv = cat ∷ (b'f' ∷ b' ' ∷ b'f' ∷ []) ∷ [];
        infile = some file;
        outfile = some file;
        builtin = builtin_of cat;
      };
    })
unfolding split_last
parseline-show_fg_example =
    parseline-show_fg command cat ((b'f' ∷ b' ' ∷ b'f' ∷ []) ∷ []) command-Fits refl refl
