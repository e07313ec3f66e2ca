-- ===== src/OtaGithub/Tests.antt =====
-- Releases of ota_github.c.
use esp32_nut_bluetti.Prelude.{◌≡◌, refl, false, [], ◌∷◌, ◌++◌, arith}
use esp32_nut_bluetti.Prelude.Int.{pos}
use esp32_nut_bluetti.Prelude.Text.{Bytes, codes}
use esp32_nut_bluetti.OtaGithub.{Scan, strtol, compare_from, vercmp, scan_bytes}
use esp32_nut_bluetti.OtaGithub.Releases.{
  numbers, lex, flip, vercmp-lex, small_v, listed, scan_pieces,
}

abbrev scan_start : Scan
scan_start = record {
  matched = 0;
  capturing = false;
  val = [];
  out = [];
  max = 5;
  running = codes "1.9.3";
}

vercmp_test : vercmp (codes "1.10.0") (codes "1.9.3") ≡ pos 1
unfolding vercmp compare_from strtol
vercmp_test = refl

vercmp-lex_example :
    (vercmp (codes "1.10") (codes "1.9.3")
      ≡ lex (numbers 3 (codes "1.10")) (numbers 3 (codes "1.9.3")))
    × (vercmp (codes "1.9.3") (codes "1.10") ≡ flip (vercmp (codes "1.10") (codes "1.9.3")))
vercmp-lex_example = vercmp-lex (codes "1.10") (codes "1.9.3")

-- The first read ends within the name.
abbrev head : Bytes
head = 34 ∷ codes "tag_"

abbrev tail : Bytes
tail = codes "name" ++ 34 ∷ b':' ∷ 34 ∷ codes "v1.10.0" ++ 34 ∷ []

scan_pieces_example :
    scan_bytes (scan_bytes scan_start head) tail
    ≡ record scan_start { out = listed (codes "1.9.3") (codes "1.10.0") ∷ [] }
scan_pieces_example =
    scan_pieces head tail (codes "1.10.0") small_v [] 5 (codes "1.9.3") refl
      (λ e. absurd (omega arith), λ e. absurd (omega arith))
      (refl, (refl, (refl, (refl, (refl, (refl, (refl, tt))))))) (omega arith) (omega arith)
