-- ===== src/Bank/Options/Tests.antt =====
-- A command line with the three options that take an argument.
use cmsc125_lab.Bank.Accounts.{Bank}
use cmsc125_lab.Bank.Options.{
  accounts_option, trace_option, tick_option, parse_command_line, StartsReady,
  parse_command_line-StartsReady,
}
use cmsc125_lab.Base.{pos, ℕ, Option, some, List, [], ◌∷◌}

abbrev no_money : Bank
no_money = record {
  accounts = λ i. record { account_id = pos 0; balance_centavos = pos 0 };
  num_accounts = 100;
  reserve_balance_centavos = pos 0;
}

abbrev same_file : List ℕ → Option (List (List ℕ))
same_file path = some ((b'#' ∷ 10 ∷ []) ∷ [])

parse_command_line-StartsReady_example : StartsReady (
    parse_command_line same_file
      (accounts_option [] ∷ tick_option (b'5' ∷ []) ∷ trace_option [] ∷ [])
      no_money)
parse_command_line-StartsReady_example =
    parse_command_line-StartsReady same_file
      (accounts_option [] ∷ tick_option (b'5' ∷ []) ∷ trace_option [] ∷ []) no_money
