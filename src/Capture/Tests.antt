-- ===== src/Capture/Tests.antt =====
-- Captured output of concrete writes.
use wireops.Prelude.{◌≡◌, true, [], ◌∷◌, arith}
use wireops.Go.Text.{codes}
use wireops.Capture.{new_limited_buffer, new_line_writer, write_lines}
use wireops.Capture.Limits.{Copied, copy_all-lem}
use wireops.Capture.Chunks.{write_all, write_all-chunks}

write_all-chunks_example :
    write_all true (codes "pul" ∷ codes "led\nsta" ∷ codes "rted\n" ∷ []) new_line_writer
    ≡ write_lines true (codes "pulled\nstarted\n") new_line_writer
write_all-chunks_example =
    write_all-chunks true (codes "pul" ∷ codes "led\nsta" ∷ codes "rted\n" ∷ [])

copy_all-lem_example : Copied (codes "abc" ∷ codes "defg" ∷ []) (new_limited_buffer 5)
copy_all-lem_example =
    copy_all-lem (codes "abc" ∷ codes "defg" ∷ []) (new_limited_buffer 5) (omega arith)
