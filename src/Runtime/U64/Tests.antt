-- ===== src/Runtime/U64/Tests.antt =====
-- The largest number, one more, and what is no number.
use fct.Base.{◌≡◌, refl, arith}
use fct.Base.Text.{codes, cut_prefix}
use fct.Base.Decimal.{print_u64}
use fct.Runtime.U64.{max_u64, parsed, failed, parse_u64, parse_digits}
use fct.Runtime.U64.Parse.{IsReading, too_large, parse_u64-IsReading, parse_u64-print}

largest : parse_u64 (codes "+18446744073709551615") ≡ parsed max_u64
unfolding parse_u64 parse_digits cut_prefix
largest = refl

one_more : parse_u64 (codes "18446744073709551616") ≡ too_large
unfolding parse_u64 parse_digits cut_prefix
one_more = refl

two_signs : parse_u64 (codes "++1") ≡ failed "invalid digit found in string"
unfolding parse_u64 parse_digits cut_prefix
two_signs = refl

parse_u64-IsReading_example : IsReading (codes "+12") (parse_u64 (codes "+12"))
parse_u64-IsReading_example = parse_u64-IsReading (codes "+12")

parse_u64-print_example : parse_u64 (print_u64 18446744073709551615) ≡ parsed 18446744073709551615
parse_u64-print_example = parse_u64-print 18446744073709551615 (ground arith)
