-- ===== src/Tests/Numbers.antt =====
-- The theorem on decimal numbers, at concrete data.
use check_sync_files.Common.{◌≡◌, not, ◌&&◌, none, some, leb, if◌then◌else◌, arith, refl}
use check_sync_files.Text.{empty, lit}
use check_sync_files.Numbers.{parse_uint64, parse_thread_count}
use check_sync_files.Numbers.Laws.{all_digits, value, parse_uint64_exact}

parse_uint64_exact_example : parse_uint64 (lit "4096") 4096 ≡ (
    if not (empty (lit "4096")) && (all_digits (lit "4096") && leb (value 0 (lit "4096")) 4096)
    then some (value 0 (lit "4096"))
    else none)
parse_uint64_exact_example = parse_uint64_exact (lit "4096") 4096 (omega arith) (omega arith)

most_threads : parse_thread_count (lit "4096") ≡ some 4096
unfolding parse_thread_count lit
most_threads = refl

too_many_threads : parse_thread_count (lit "4097") ≡ none
unfolding parse_thread_count lit
too_many_threads = refl
