-- ===== src/LogRing/Ansi.antt =====
-- `strip_ansi` of components/provisioning/log_ring.c. A byte of 128 or more is no final byte, whether
-- `char` has a sign or not.
use esp32_nut_bluetti.Prelude.{
  ℕ, ◌≡◌, refl, ◌∙◌, ap, Bool, true, false, ◌&&◌, List, [], ◌∷◌, ◌++◌, if◌then◌else◌, ◌==◌, leb,
}
use esp32_nut_bluetti.Prelude.Text.{Bytes}

abbrev pub is_final : ℕ → Bool
is_final c = leb 64 c && leb c 126

-- The loop, inside a sequence (`true`) or not.
unfoldable pub strip_from : Bool → Bytes → Bytes
strip_from true [] = []
strip_from true (c ∷ s) =
    let outside = strip_from false s in
    let inside = strip_from true s in if is_final c then outside else inside
strip_from false [] = []
strip_from false (c ∷ []) = c ∷ []
strip_from false (c ∷ d ∷ s) =
    let inside = strip_from true s in
    let outside = strip_from false (d ∷ s) in if c == 27 && d == b'[' then inside else c ∷ outside

unfoldable pub strip_ansi : Bytes → Bytes
unfolding strip_from
strip_ansi s = strip_from false s

-- A coloured line: a plain byte, or a sequence by its parameters and its final byte.
pub data Piece : Type 0 where
  plain : ℕ → Piece
  csi : Bytes → ℕ → Piece

abbrev AreParameters : Bytes → Type 0
AreParameters [] = Unit
AreParameters (c ∷ cs) = (is_final c ≡ false) × AreParameters cs

abbrev pub ArePieces : List Piece → Type 0
ArePieces [] = Unit
ArePieces (plain c ∷ pieces) = ((c == 27) ≡ false) × ArePieces pieces
ArePieces (csi params c ∷ pieces) = (AreParameters params × (is_final c ≡ true)) × ArePieces pieces

abbrev pub print : List Piece → Bytes
print [] = []
print (plain c ∷ pieces) = c ∷ print pieces
print (csi params c ∷ pieces) = 27 ∷ b'[' ∷ (params ++ (c ∷ print pieces))

abbrev pub plain_text : List Piece → Bytes
plain_text [] = []
plain_text (plain c ∷ pieces) = c ∷ plain_text pieces
plain_text (csi params c ∷ pieces) = plain_text pieces

strip_from-plain :
    (c : ℕ) (s : Bytes) → (c == 27) ≡ false → strip_from false (c ∷ s) ≡ c ∷ strip_from false s
unfolding strip_from
strip_from-plain c [] h = refl
strip_from-plain c (d ∷ s) h = rw h

strip_from-csi :
    (params : Bytes) (c : ℕ) (s : Bytes)
    → AreParameters params
    → is_final c ≡ true
    → strip_from true (params ++ (c ∷ s)) ≡ strip_from false s
unfolding strip_from
strip_from-csi [] c s ok final = rw final
strip_from-csi (p ∷ params) c s ok final = rw ok.0 (strip_from-csi params c s ok.1 final)

-- A line of plain bytes other than ESC and of whole CSI sequences is stripped to its plain bytes.
pub strip_ansi-print :
    (pieces : List Piece) → ArePieces pieces → strip_ansi (print pieces) ≡ plain_text pieces
unfolding strip_ansi
strip_ansi-print [] ok = refl
strip_ansi-print (plain c ∷ pieces) ok =
    strip_from-plain c (print pieces) ok.0 ∙ ap (λ s. c ∷ s) (strip_ansi-print pieces ok.1)
strip_ansi-print (csi params c ∷ pieces) ok =
    strip_from-csi params c (print pieces) ok.0.0 ok.0.1 ∙ strip_ansi-print pieces ok.1
