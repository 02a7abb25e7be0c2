-- ===== src/Shell/Command/Guarantees.antt =====
-- What a parsed command can be.
use cmsc125_lab.Base.{
  if◌then◌else◌, Bool-cases, ◌≡◌, refl, inl, inr, Bool, true, false, Option, none, some, List, [],
  ◌∷◌,
}
use cmsc125_lab.Shell.Command.{
  Token, same_string, input_redirection_symbol, output_redirection_symbol,
  append_redirection_symbol, background_indicator_symbol, special_symbols, contains_string, Command,
  empty_command, take_args, Reading, refused, with_file, alone, is_given, set_input, set_output,
  read_symbol, read_redirections, or_empty, parse_rest, parse_tokens,
}
use cmsc125_lab.Shell.Command.Printing.{
  print_command, AllPlain, AppendsToFile, IsCommand, parse_tokens-print_command,
}

take_args-AllPlain : (ts : List Token) → AllPlain (take_args ts).0
unfolding take_args AllPlain
take_args-AllPlain [] = tt
take_args-AllPlain (t ∷ ts) = elim (Bool-cases (contains_string special_symbols t)) [
  | inl e ↦ rw e tt
  | inr e ↦ rw e (e, take_args-AllPlain ts)
]

-- What a step of the loop keeps of a command.
pub KeepsCommand : Reading → Type 0
KeepsCommand refused = Unit {0}
KeepsCommand (with_file c) = IsCommand c
KeepsCommand (alone c) = IsCommand c

if-KeepsCommand :
    (b : Bool) (r s : Reading)
    → (b ≡ true → KeepsCommand r)
    → (b ≡ false → KeepsCommand s)
    → KeepsCommand (if b then r else s)
if-KeepsCommand true r s h k = h refl
if-KeepsCommand false r s h k = k refl

set_input-KeepsCommand :
    (c : Command) (next : Option Token) → IsCommand c → KeepsCommand (set_input c next)
unfolding KeepsCommand
set_input-KeepsCommand c none v = tt
set_input-KeepsCommand c (some f) v = record {
  named_first = v.named_first;
  plain_args = v.plain_args;
  appends_to_file = v.appends_to_file;
}

set_output-KeepsCommand :
    (c : Command) (a : Bool) (next : Option Token)
    → IsCommand c
    → KeepsCommand (set_output c a next)
unfolding KeepsCommand AppendsToFile
set_output-KeepsCommand c a none v = tt
set_output-KeepsCommand c a (some f) v = record {
  named_first = v.named_first;
  plain_args = v.plain_args;
  appends_to_file = tt;
}

read_symbol-KeepsCommand :
    (t : Token) (next : Option Token) (c : Command)
    → IsCommand c
    → KeepsCommand (read_symbol t next c)
unfolding read_symbol KeepsCommand
read_symbol-KeepsCommand t next c v =
    if-KeepsCommand (same_string t input_redirection_symbol) _ _
      (λ _.
        if-KeepsCommand (is_given c.input_file) _ _ (λ _. tt)
          (λ _. set_input-KeepsCommand c next v))
      (λ _.
        if-KeepsCommand (same_string t output_redirection_symbol) _ _
          (λ _.
            if-KeepsCommand (is_given c.output_file) _ _ (λ _. tt)
              (λ _. set_output-KeepsCommand c false next v))
          (λ _.
            if-KeepsCommand (same_string t append_redirection_symbol) _ _
              (λ _.
                if-KeepsCommand (is_given c.output_file) _ _ (λ _. tt)
                  (λ _. set_output-KeepsCommand c true next v))
              (λ _.
                if-KeepsCommand (same_string t background_indicator_symbol) _ _
                  (λ _. record {
                    named_first = v.named_first;
                    plain_args = v.plain_args;
                    appends_to_file = v.appends_to_file;
                  })
                  (λ _. tt))))

Kept : Option Command → Type 0
Kept none = Unit {0}
Kept (some c) = IsCommand c

alone-Kept :
    (r : Reading)
    → KeepsCommand r
    → Kept (elim r [ refused ↦ none | with_file c ↦ none | alone c ↦ some c ])
unfolding Kept KeepsCommand
alone-Kept refused k = tt
alone-Kept (with_file c) k = tt
alone-Kept (alone c) k = k

reading-Kept :
    (r : Reading) (f g : Command → Option Command)
    → KeepsCommand r
    → ((c : Command) → IsCommand c → Kept (f c))
    → ((c : Command) → IsCommand c → Kept (g c))
    → Kept (elim r [ refused ↦ none | with_file c ↦ f c | alone c ↦ g c ])
unfolding Kept KeepsCommand
reading-Kept refused f g k hf hg = tt
reading-Kept (with_file c) f g k hf hg = hf c k
reading-Kept (alone c) f g k hf hg = hg c k

read_redirections-Kept :
    (ts : List Token) (c : Command) → IsCommand c → Kept (read_redirections ts c)
unfolding read_redirections Kept
read_redirections-Kept [] c v = v
read_redirections-Kept (t ∷ []) c v =
    alone-Kept (read_symbol t none c) (read_symbol-KeepsCommand t none c v)
read_redirections-Kept (t ∷ f ∷ ts) c v =
    reading-Kept (read_symbol t (some f) c) (read_redirections ts) (read_redirections (f ∷ ts))
      (read_symbol-KeepsCommand t (some f) c v) (λ d. read_redirections-Kept ts d)
      (λ d. read_redirections-Kept (f ∷ ts) d)

empty_command-IsCommand : IsCommand empty_command
unfolding AllPlain AppendsToFile
empty_command-IsCommand = record { named_first = refl; plain_args = tt; appends_to_file = refl }

or_empty-IsCommand : (o : Option Command) → Kept o → IsCommand (or_empty o)
unfolding Kept
or_empty-IsCommand none k = empty_command-IsCommand
or_empty-IsCommand (some c) k = k

-- Whatever the tokens are, no argument of the command is a special symbol, its name is its first
-- argument, and it appends only to a file that it names.
pub parse_tokens-IsCommand : (ts : List Token) → IsCommand (parse_tokens ts)
unfolding parse_tokens parse_rest AppendsToFile
parse_tokens-IsCommand ts = or_empty-IsCommand _ (
    read_redirections-Kept (take_args ts).1 _
      (record { named_first = refl; plain_args = take_args-AllPlain ts; appends_to_file = refl }))

-- A parsed command, printed and parsed again, is the same.
pub parse_tokens-print_again :
    (ts : List Token) → parse_tokens (print_command (parse_tokens ts)) ≡ parse_tokens ts
parse_tokens-print_again ts =
    parse_tokens-print_command (parse_tokens ts) (parse_tokens-IsCommand ts)
