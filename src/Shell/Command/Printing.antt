-- ===== src/Shell/Command/Printing.antt =====
-- Parsing undoes printing.
use cmsc125_lab.Base.{
  ◌≡◌, refl, sym, ap, ◌∙◌, Bool, true, false, Option, none, some, List, [], ◌∷◌, ◌++◌,
}
use cmsc125_lab.Shell.Command.{
  Token, same_string, input_redirection_symbol, output_redirection_symbol,
  append_redirection_symbol, background_indicator_symbol, special_symbols, contains_string, Command,
  empty_command, take_args, read_symbol, read_redirections, first_token, or_empty, parse_rest,
  parse_tokens,
}

-- The tokens after the arguments: the input file, the output file, and the background indicator.
pub print_output : Option Token → Bool → List Token
print_output none append = []
print_output (some f) false = output_redirection_symbol ∷ f ∷ []
print_output (some f) true = append_redirection_symbol ∷ f ∷ []

pub print_background : Bool → List Token
print_background false = []
print_background true = background_indicator_symbol ∷ []

pub print_input : Option Token → List Token
print_input none = []
print_input (some f) = input_redirection_symbol ∷ f ∷ []

pub print_redirections : Command → List Token
print_redirections c =
    print_input c.input_file
    ++ (print_output c.output_file c.append ++ print_background c.background)

pub print_command : Command → List Token
print_command c = c.args ++ print_redirections c

-- No argument is a special symbol.
unfoldable pub AllPlain : List Token → Type 0
AllPlain [] = Unit {0}
AllPlain (t ∷ ts) = (contains_string special_symbols t ≡ false) × AllPlain ts

-- `append` is set only with an output file.
unfoldable pub AppendsToFile : Option Token → Bool → Type 0
AppendsToFile none append = append ≡ false
AppendsToFile (some f) append = Unit {0}

pub record IsCommand (c : Command) : Type 0 where
  pub named_first : c.command ≡ first_token c.args
  pub plain_args : AllPlain c.args
  pub appends_to_file : AppendsToFile c.output_file c.append

StartsSpecial : List Token → Type 0
StartsSpecial [] = Unit {0}
StartsSpecial (t ∷ ts) = contains_string special_symbols t ≡ true

print_redirections-StartsSpecial :
    (i o : Option Token) (a b : Bool)
    → StartsSpecial (print_input i ++ (print_output o a ++ print_background b))
unfolding print_input print_output print_background StartsSpecial contains_string same_string
print_redirections-StartsSpecial (some f) o a b = refl
print_redirections-StartsSpecial none (some f) false b = refl
print_redirections-StartsSpecial none (some f) true b = refl
print_redirections-StartsSpecial none none a false = tt
print_redirections-StartsSpecial none none a true = refl

take_args-special : (ts : List Token) → StartsSpecial ts → take_args ts ≡ ([], ts)
unfolding take_args StartsSpecial
take_args-special [] h = refl
take_args-special (t ∷ ts) h = rw h refl

take_args-append :
    (xs ts : List Token) → AllPlain xs → StartsSpecial ts → take_args (xs ++ ts) ≡ (xs, ts)
unfolding take_args AllPlain
take_args-append [] ts p h = take_args-special ts h
take_args-append (a ∷ xs) ts p h = rw (p.0, take_args-append xs ts p.1 h) refl

read_redirections-print :
    (n : Option Token) (xs : List Token) (i o : Option Token) (a b : Bool)
    → AppendsToFile o a
    → read_redirections
        (print_input i ++ (print_output o a ++ print_background b))
        (record empty_command { command = n; args = xs })
      ≡ some (record {
        command = n;
        args = xs;
        input_file = i;
        output_file = o;
        append = a;
        background = b;
      })
unfolding read_redirections read_symbol print_input print_output print_background AppendsToFile
    same_string
read_redirections-print n xs none none a false h = rw h refl
read_redirections-print n xs none none a true h = rw h refl
read_redirections-print n xs none (some o) false false h = refl
read_redirections-print n xs none (some o) false true h = refl
read_redirections-print n xs none (some o) true false h = refl
read_redirections-print n xs none (some o) true true h = refl
read_redirections-print n xs (some i) none a false h = rw h refl
read_redirections-print n xs (some i) none a true h = rw h refl
read_redirections-print n xs (some i) (some o) false false h = refl
read_redirections-print n xs (some i) (some o) false true h = refl
read_redirections-print n xs (some i) (some o) true false h = refl
read_redirections-print n xs (some i) (some o) true true h = refl

-- A command whose arguments are no special symbols, and that appends only to a file it names, is
-- read back from its tokens xs it was, whatever its file names are.
pub parse_tokens-print_command : (c : Command) → IsCommand c → parse_tokens (print_command c) ≡ c
unfolding parse_tokens parse_rest print_command print_redirections
parse_tokens-print_command c v =
    ap parse_rest (
      take_args-append c.args (print_redirections c) v.plain_args
        (print_redirections-StartsSpecial c.input_file c.output_file c.append c.background))
    ∙ ap or_empty (
        read_redirections-print (first_token c.args) c.args c.input_file c.output_file c.append
          c.background v.appends_to_file)
    ∙ ap (λ n. record c { command = n }) (sym v.named_first)
