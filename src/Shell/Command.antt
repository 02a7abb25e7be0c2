-- ===== src/Shell/Command.antt =====
-- lab_1/parser.c and the types of lab_1/mysh.h. A string is the list of its character codes; a file
-- that is not named is none. Allocation does not fail.
pub mod Printing
pub mod Guarantees
use cmsc125_lab.Base.{
  ltb, ◌==◌, if◌then◌else◌, length, ℕ, Bool, true, false, ◌&&◌, ◌||◌, Option, none, some, List, [],
  ◌∷◌, ◌++◌,
}

abbrev pub Token : Type 0
Token = List ℕ

-- `strcmp(a, b) == 0`.
unfoldable pub same_string : Token → Token → Bool
same_string [] [] = true
same_string [] (b ∷ bs) = false
same_string (a ∷ xs) [] = false
same_string (a ∷ xs) (b ∷ bs) = (a == b) && same_string xs bs

abbrev pub max_token_array_size : ℕ
max_token_array_size = 256

abbrev pub input_redirection_symbol : Token
input_redirection_symbol = 60 ∷ []

abbrev pub output_redirection_symbol : Token
output_redirection_symbol = 62 ∷ []

abbrev pub append_redirection_symbol : Token
append_redirection_symbol = 62 ∷ 62 ∷ []

abbrev pub background_indicator_symbol : Token
background_indicator_symbol = 38 ∷ []

abbrev pub special_symbols : List Token
special_symbols =
    input_redirection_symbol ∷ output_redirection_symbol ∷ append_redirection_symbol
    ∷ background_indicator_symbol ∷ []

unfoldable pub contains_string : List Token → Token → Bool
unfolding same_string
contains_string [] s = false
contains_string (t ∷ ts) s = same_string t s || contains_string ts s

pub record Command : Type 0 where
  pub command : Option Token
  pub args : List Token
  pub input_file : Option Token
  pub output_file : Option Token
  pub append : Bool
  pub background : Bool

-- `(Command) {0}`, which is also what `free_command` leaves but for the two flags.
abbrev pub empty_command : Command
empty_command = record {
  command = none;
  args = [];
  input_file = none;
  output_file = none;
  append = false;
  background = false;
}

-- The characters between which `strtok_r` splits: a space and a tab.
abbrev pub is_delimiter : ℕ → Bool
is_delimiter c = (c == 32) || (c == 9)

-- The calls of `strtok_r`, where the first list is the part of a token read so far.
unfoldable pub split_tokens : Token → List ℕ → List Token
split_tokens [] [] = []
split_tokens (a ∷ xs) [] = (a ∷ xs) ∷ []
split_tokens [] (c ∷ cs) = split_tokens (if is_delimiter c then [] else c ∷ []) cs
split_tokens (a ∷ xs) (c ∷ cs) =
    let ended = split_tokens [] cs in
    let longer = split_tokens (a ∷ xs ++ c ∷ []) cs in
    if is_delimiter c then (a ∷ xs) ∷ ended else longer

-- The tokens before the first special symbol, and those from it on.
unfoldable pub take_args : List Token → List Token × List Token
unfolding contains_string
take_args [] = ([], [])
take_args (t ∷ ts) =
    let (xs, rest) = take_args ts in
    if contains_string special_symbols t then ([], t ∷ ts) else (t ∷ xs, rest)

-- What one round of the second loop does: it sets `error_flag`, or it reads a symbol with the file
-- after it, or a symbol alone.
pub data Reading : Type 0 where
  refused : Reading
  with_file alone : Command → Reading

abbrev pub is_given : Option Token → Bool
is_given none = false
is_given (some f) = true

abbrev pub set_input : Command → Option Token → Reading
set_input c none = refused
set_input c (some f) = with_file (record c { input_file = some f })

abbrev pub set_output : Command → Bool → Option Token → Reading
set_output c append none = refused
set_output c append (some f) =
    with_file (record c { output_file = some f; append = c.append || append })

-- The chain of comparisons, on a token and the one after it.
unfoldable pub read_symbol : Token → Option Token → Command → Reading
unfolding same_string
read_symbol t next c =
    if same_string t input_redirection_symbol
    then (if is_given c.input_file then refused else set_input c next)
    else if same_string t output_redirection_symbol
    then (if is_given c.output_file then refused else set_output c false next)
    else if same_string t append_redirection_symbol
    then (if is_given c.output_file then refused else set_output c true next)
    else if same_string t background_indicator_symbol
    then alone (record c { background = true })
    else refused

-- The second loop; none for `error_flag`.
unfoldable pub read_redirections : List Token → Command → Option Command
unfolding read_symbol
read_redirections [] c = some c
read_redirections (t ∷ []) c = elim (read_symbol t none c) [
  | refused ↦ none
  | with_file c' ↦ none
  | alone c' ↦ some c'
]
read_redirections (t ∷ f ∷ ts) c = elim (read_symbol t (some f) c) [
  | refused ↦ none
  | with_file c' ↦ read_redirections ts c'
  | alone c' ↦ read_redirections (f ∷ ts) c'
]

abbrev pub first_token : List Token → Option Token
first_token [] = none
first_token (t ∷ ts) = some t

-- `return command`, or after an error `(Command) {0}`.
abbrev pub or_empty : Option Command → Command
or_empty none = empty_command
or_empty (some c) = c

-- The command with the arguments found, and the loop over the other tokens.
unfoldable pub parse_rest : List Token × List Token → Command
unfolding read_redirections
parse_rest (xs, rest) =
    or_empty (read_redirections rest (record empty_command { command = first_token xs; args = xs }))

-- What `get_command` makes of its tokens.
unfoldable pub parse_tokens : List Token → Command
unfolding take_args parse_rest
parse_tokens ts = parse_rest (take_args ts)

-- The line without its last character, if that is a newline.
unfoldable pub chop_newline : List ℕ → Option (List ℕ)
chop_newline [] = none
chop_newline (c ∷ []) = if c == 10 then some [] else none
chop_newline (c ∷ d ∷ cs) = elim (chop_newline (d ∷ cs)) [ none ↦ none | some r ↦ some (c ∷ r) ]

-- `get_command` on what `fgets` returns: none at the end of the input. A line that does not end in a
-- newline is refused as too long.
unfoldable pub get_command : Option (List ℕ) → Command
unfolding parse_tokens split_tokens chop_newline
get_command none = empty_command
get_command (some line) = elim (chop_newline line) [
  | none ↦ empty_command
  | some text ↦
      let ts = split_tokens [] text in
      if ltb max_token_array_size (length ts) then empty_command else parse_tokens ts
]
