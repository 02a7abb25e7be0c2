-- ===== src/Sched/Workload/Printing.antt =====
-- A workload written for the option --processes, and read again by src/scheduler.c of
-- lab_2/schedsim-2.
use mathlib.Core.List.{append-nil, append_assoc}
use cmsc125_lab.Base.{
  ltb, ◌==◌, length, length-append, All, ℤ, pos, negsuc, ℕ, zero, suc, ◌+◌, ◌≤◌, ◌<◌, ◌≡◌, refl,
  sym, ap, ◌∙◌, true, false, some, List, [], ◌∷◌, ◌++◌, map, arith,
}
use cmsc125_lab.Scan.{scan_int, scan_until, not_empty, scan_literal}
use cmsc125_lab.Scan.Numerals.{
  print_natural, print_int, AllDigits, print_digits-AllDigits, scan_int-print_int,
}
use cmsc125_lab.Sched.Process.{Process}
use cmsc125_lab.Sched.State.{max_processes}
use cmsc125_lab.Sched.Workload.{
  Fields, scan_burst, scan_separated, scan_times, scan_after_name, scan_fields, scan_item,
  process_of, read_items, split_items, get_processes_from_string,
}

-- `name:arrival:burst`.
unfoldable pub print_item : Fields → List ℕ
print_item f =
    f.name_field ++ (b':' ∷ print_int f.arrival_field ++ (b':' ∷ print_int f.burst_field))

unfoldable pub print_items : List Fields → List ℕ
unfolding print_item
print_items [] = []
print_items (f ∷ fs) = print_item f ++ (b';' ∷ print_items fs)

-- A character that no separator is.
abbrev IsPlain : ℕ → Type 0
IsPlain c = ((c == b':') ≡ false) × ((c == b';') ≡ false)

-- A name that fits its field, of characters that are no separators.
pub record IsName (name : List ℕ) : Type 0 where
  pub some_letter : 0 < length name
  pub fits : length name ≤ 15
  pub plain : All IsPlain name

abbrev NoSemicolon : List ℕ → Type 0
NoSemicolon = All (λ c. (c == b';') ≡ false)

NoSemicolon-append : (s t : List ℕ) → NoSemicolon s → NoSemicolon t → NoSemicolon (s ++ t)
NoSemicolon-append [] t h k = k
NoSemicolon-append (c ∷ s) t (e, h) k = (e, NoSemicolon-append s t h k)

plain-NoSemicolon : (s : List ℕ) → All IsPlain s → NoSemicolon s
plain-NoSemicolon [] h = tt
plain-NoSemicolon (c ∷ s) ((colon, semicolon), h) = (semicolon, plain-NoSemicolon s h)

digits-NoSemicolon : (s : List ℕ) → AllDigits s → NoSemicolon s
digits-NoSemicolon [] h = tt
digits-NoSemicolon (c ∷ s) (d, h) = (ground (arith, d), digits-NoSemicolon s h)

print_int-NoSemicolon : (n : ℤ) → NoSemicolon (print_int n)
unfolding print_int print_natural
print_int-NoSemicolon (pos n) = digits-NoSemicolon _ (print_digits-AllDigits (suc n) n)
print_int-NoSemicolon (negsuc n) =
    (refl, digits-NoSemicolon _ (print_digits-AllDigits (suc (suc n)) (suc n)))

print_item-NoSemicolon : (f : Fields) → IsName f.name_field → NoSemicolon (print_item f)
unfolding print_item
print_item-NoSemicolon f n =
    NoSemicolon-append f.name_field _ (plain-NoSemicolon f.name_field n.plain) (
      refl,
      NoSemicolon-append (print_int f.arrival_field) _ (print_int-NoSemicolon f.arrival_field)
          (refl, print_int-NoSemicolon f.burst_field),
    )

-- `strtok` on a part that has begun.
split-begun :
    (a : ℕ) (xs s rest : List ℕ)
    → NoSemicolon s
    → split_items (a ∷ xs) (s ++ (b';' ∷ rest)) ≡ (a ∷ xs ++ s) ∷ split_items [] rest
unfolding split_items
split-begun a xs [] rest h = ap (λ y. (a ∷ y) ∷ split_items [] rest) (sym (append-nil xs))
split-begun a xs (c ∷ s) rest (e, h) = rw e (
    split-begun a (xs ++ c ∷ []) s rest h
    ∙ ap (λ y. (a ∷ y) ∷ split_items [] rest) (append_assoc xs (c ∷ []) s))

split-part :
    (s rest : List ℕ)
    → 0 < length s
    → NoSemicolon s
    → split_items [] (s ++ (b';' ∷ rest)) ≡ s ∷ split_items [] rest
unfolding split_items
split-part [] rest h k = absurd (omega arith)
split-part (c ∷ s) rest h (e, k) = rw (e, split_items) (split-begun c [] s rest k)

some_text : (f : Fields) → IsName f.name_field → 0 < length (print_item f)
unfolding print_item
some_text f n =
    let long = n.some_letter in
    omega (
      arith,
      length-append f.name_field
          (b':' ∷ print_int f.arrival_field ++ (b':' ∷ print_int f.burst_field)),
    )

split-print_items :
    (fs : List Fields)
    → All (λ f. IsName f.name_field) fs
    → split_items [] (print_items fs) ≡ map print_item fs
unfolding print_items
split-print_items [] h = unfold split_items in refl
split-print_items (f ∷ fs) (n, h) =
    split-part (print_item f) (print_items fs) (some_text f n) (print_item-NoSemicolon f n)
    ∙ ap (λ y. print_item f ∷ y) (split-print_items fs h)

-- The name is read up to the colon.
scan_until-colon :
    (room : ℕ) (s rest : List ℕ)
    → All IsPlain s
    → length s ≤ room
    → scan_until (λ c. c == b':') room (s ++ (b':' ∷ rest)) ≡ (s, b':' ∷ rest)
unfolding scan_until
scan_until-colon zero [] rest h k = refl
scan_until-colon zero (c ∷ s) rest h k = absurd (omega arith)
scan_until-colon (suc room) [] rest h k = refl
scan_until-colon (suc room) (c ∷ s) rest ((e, f), h) k =
    rw (scan_until-colon room s rest h (omega arith), e) refl

not_empty-some : (s rest : List ℕ) → 0 < length s → not_empty (s, rest) ≡ some (s, rest)
not_empty-some [] rest h = absurd (omega arith)
not_empty-some (c ∷ s) rest h = refl

scan_int-all : (n : ℤ) → scan_int (print_int n) ≡ some (n, [])
scan_int-all n = ap scan_int (sym (append-nil (print_int n))) ∙ scan_int-print_int n [] tt

scan_item-print_item : (f g : Fields) → IsName f.name_field → scan_item (print_item f) g ≡ f
unfolding scan_item print_item scan_literal
scan_item-print_item f g n =
    rw
      (
        scan_until-colon 15 f.name_field
            (print_int f.arrival_field ++ (b':' ∷ print_int f.burst_field)) n.plain n.fits,
        not_empty-some f.name_field
            (b':' ∷ print_int f.arrival_field ++ (b':' ∷ print_int f.burst_field)) n.some_letter,
        scan_int-print_int f.arrival_field (b':' ∷ print_int f.burst_field) refl,
        scan_int-all f.burst_field,
        scan_item,
        scan_fields,
        scan_after_name,
        scan_times,
        scan_separated,
        scan_burst,
      )
      refl

read_items-print :
    (stale : ℕ → Fields) (fs : List Fields) (ps : List Process)
    → All (λ f. IsName f.name_field) fs
    → length ps + length fs ≤ max_processes
    → read_items stale (map print_item fs) ps ≡ ps ++ map process_of fs
unfolding read_items
read_items-print stale [] ps h k = sym (append-nil ps)
read_items-print stale (f ∷ fs) ps (n, h) k =
    let room : ltb (length ps) max_processes ≡ true = ground arith in
    rw (room, scan_item-print_item f (stale (length ps)) n)
      (read_items-print stale fs (ps ++ process_of f ∷ []) h
          (omega (arith, length-append ps (process_of f ∷ [])))
        ∙ append_assoc ps (process_of f ∷ []) (map process_of fs))

-- At most 256 processes, whose names fit their field and hold no separator, are read from the text that
-- describes them as they were, whatever the variables held before.
pub get_processes_from_string-print_items :
    (stale : ℕ → Fields) (fs : List Fields)
    → All (λ f. IsName f.name_field) fs
    → length fs ≤ max_processes
    → get_processes_from_string stale (print_items fs) ≡ map process_of fs
unfolding get_processes_from_string
get_processes_from_string-print_items stale fs h k =
    ap (λ items. read_items stale items []) (split-print_items fs h)
    ∙ read_items-print stale fs [] h (omega arith)
