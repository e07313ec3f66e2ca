-- ===== src/LogRing/Tests.antt =====
-- A ring with one line in it, written to and read (log_ring.c).
use esp32_nut_bluetti.Prelude.{◌∷◌, ◌-◌, ◌≡◌, refl, [], ◌++◌, arith, length, drop}
use esp32_nut_bluetti.Prelude.Text.{Bytes, codes}
use esp32_nut_bluetti.LogRing.{Ring, copy_in, ring_write, log_ring_read, copy_out}
use esp32_nut_bluetti.LogRing.Ansi.{plain, csi, print, strip_ansi, strip_ansi-print}
use esp32_nut_bluetti.LogRing.Window.{Holds, ring_write-Holds, unread, log_ring_lem}

abbrev empty : Ring
empty = record { buf = λ i. 0; head = 0 }

empty-Holds : Holds empty []
empty-Holds = record { at_head = refl; bytes = λ k h recent. absurd (omega arith) }

abbrev one_line : Bytes
one_line = codes "abc\n"

-- A line that wraps round the end of the ring.
wrap_test :
    (log_ring_read (ring_write (record { buf = λ i. 0; head = 12286 }) one_line) 12286 100).0
    ≡ one_line
unfolding log_ring_read ring_write copy_in copy_out
wrap_test = refl

log_ring_lem_example :
    (log_ring_read (ring_write empty one_line) 1 2
      ≡ (drop (length one_line - unread 1 2 (length one_line)) one_line, length one_line))
    × Holds (ring_write (ring_write empty one_line) (codes "de")) (one_line ++ codes "de")
log_ring_lem_example =
    log_ring_lem (ring_write empty one_line) one_line (codes "de") 1 2
      (ring_write-Holds empty [] one_line empty-Holds)

-- "[0;32mI" behind ESC: the colour goes, the letter stays.
strip_ansi-print_example :
    strip_ansi (print (csi (codes "0;32") b'm' ∷ plain b'I' ∷ [])) ≡ codes "I"
strip_ansi-print_example =
    strip_ansi-print (csi (codes "0;32") b'm' ∷ plain b'I' ∷ [])
      (((refl, (refl, (refl, (refl, tt)))), refl), (refl, tt))
