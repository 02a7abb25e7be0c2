-- ===== src/Sched/MlfqConfig/Tests.antt =====
-- A file of two levels, and one with a negative queue id.
use cmsc125_lab.Base.{ℤ, pos, negsuc, ◌≡◌, refl, true, some, List, [], ◌∷◌, ◌++◌, arith}
use cmsc125_lab.Sched.MlfqConfig.{
  empty_config, loaded, out_of_array, config_lines, validate_mlfq_config, load_mlfq_config,
}
use cmsc125_lab.Sched.MlfqConfig.Lines.{level_line, number_levels, config_of, print_config}
use cmsc125_lab.Sched.MlfqConfig.Loading.{LoadsUsable, load_mlfq_config-LoadsUsable}
use cmsc125_lab.Sched.MlfqConfig.Printing.{
  load_mlfq_config-print_config, load_mlfq_config-negative_id,
}

abbrev two_level_numbers : List (ℤ × ℤ)
two_level_numbers = (pos 10, pos 50) ∷ (negsuc 0, negsuc 0) ∷ []

two_levels-valid : validate_mlfq_config (config_of two_level_numbers (pos 200)) ≡ true
unfolding validate_mlfq_config config_of number_levels
two_levels-valid = refl

load_mlfq_config-print_config_example :
    load_mlfq_config (some (print_config two_level_numbers (pos 200)))
    ≡ loaded (config_of two_level_numbers (pos 200))
load_mlfq_config-print_config_example =
    load_mlfq_config-print_config two_level_numbers (pos 200) (omega arith) two_levels-valid

load_mlfq_config-LoadsUsable_example :
    LoadsUsable (load_mlfq_config (some (print_config two_level_numbers (pos 200))))
load_mlfq_config-LoadsUsable_example =
    load_mlfq_config-LoadsUsable (some (print_config two_level_numbers (pos 200)))

nothing_before : config_lines [] empty_config ≡ loaded empty_config
unfolding config_lines
nothing_before = refl

load_mlfq_config-negative_id_example :
    load_mlfq_config (some ([] ++ level_line (negsuc 0) (pos 5) (pos 5) ∷ [])) ≡ out_of_array
load_mlfq_config-negative_id_example =
    load_mlfq_config-negative_id [] [] empty_config 0 (pos 5) (pos 5) nothing_before
