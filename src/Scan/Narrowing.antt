-- ===== src/Scan/Narrowing.antt =====
-- What an int keeps of a number in its range.
use cmsc125_lab.Base.{leb, ℤ, pos, negsuc, ℕ, ◌-◌, ◌%◌, ◌≤◌, ◌≡◌, refl, false, arith}
use cmsc125_lab.Scan.{int_values, int_max, int_of_bits, to_int}

int_of_bits-small : (n : ℕ) → n ≤ int_max → int_of_bits (n % int_values) ≡ pos n
unfolding int_of_bits
int_of_bits-small n h = let e : n % int_values ≡ n = omega arith in rw e (ground arith)

int_of_bits-negative :
    (n : ℕ) → n ≤ int_max → int_of_bits (int_values - 1 - n % int_values) ≡ negsuc n
unfolding int_of_bits
int_of_bits-negative n h =
    let e : n % int_values ≡ n = omega arith in
    let big : leb (int_values - 1 - n) int_max ≡ false = ground arith in
    let back : int_values - 1 - (int_values - 1 - n) ≡ n = omega arith in rw (e, big) (rw back refl)

-- The numbers that an int holds.
abbrev pub FitsInt : ℤ → Type 0
FitsInt (pos n) = n ≤ int_max
FitsInt (negsuc n) = n ≤ int_max

-- A number that an int holds is kept as it is.
pub to_int-fits : (n : ℤ) → FitsInt n → to_int n ≡ n
unfolding to_int
to_int-fits (pos n) h = int_of_bits-small n h
to_int-fits (negsuc n) h = int_of_bits-negative n h
