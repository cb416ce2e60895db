-- ===== src/Tests/Reparse.antt =====
-- The decoder of reparse buffers, at the buffer of a junction.
use check_sync_files.Common.{ap, ◌≡◌, false, some, [], arith}
use check_sync_files.Text.{lit}
use check_sync_files.Entry.{junction}
use check_sync_files.Reparse.Payload.{Payload, parse_reparse_payload, junction_buffer}
use check_sync_files.Reparse.Payload.Bounds.{IsWithin, parse_reparse_payload-IsWithin}
use check_sync_files.Reparse.Payload.Laws.{IsUnits, parse_reparse_payload-junction_buffer}

short_target-IsUnits : IsUnits (lit "C:\\x")
unfolding lit
short_target-IsUnits = (omega arith, (omega arith, (omega arith, (omega arith, tt))))

parse_reparse_payload-junction_buffer_example :
    parse_reparse_payload (junction_buffer (lit "C:\\x")) false
    ≡ record { kind = junction; target = some (lit "C:\\x"); error = [] }
unfolding lit
parse_reparse_payload-junction_buffer_example =
    parse_reparse_payload-junction_buffer (lit "C:\\x") false short_target-IsUnits (omega arith)

parse_reparse_payload-IsWithin_example : IsWithin (junction_buffer (lit "C:\\x")) (lit "C:\\x")
unfolding lit
parse_reparse_payload-IsWithin_example =
    parse_reparse_payload-IsWithin (junction_buffer (lit "C:\\x")) false (lit "C:\\x")
      (ap (λ (p : Payload). p.target) parse_reparse_payload-junction_buffer_example)
