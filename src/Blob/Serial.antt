-- ===== src/Blob/Serial.antt =====
-- The layout of a blob, described apart from the code: a count of four bytes, then for each packet a
-- length of two bytes and its bytes.
use udpspeeder.Base.{ℕ, ◌+◌, ◌≤◌, ◌≡◌, ap, List, [], ◌∷◌, ◌++◌, arith, length}
use udpspeeder.Bytes.Laws.{u16_bytes, u32_bytes}
use mathlib.Core.List.{append_assoc, append-nil}

abbrev pub frame : List ℕ → List ℕ
frame s = u16_bytes (length s) ++ s

abbrev pub frames : List (List ℕ) → List ℕ
frames [] = []
frames (s ∷ ss) = frame s ++ frames ss

abbrev pub serial : List (List ℕ) → List ℕ
serial ss = u32_bytes (length ss) ++ frames ss

-- Each packet is shorter than 2 ^ 16.
abbrev pub AllShort : List (List ℕ) → Type 0
AllShort [] = Unit {0}
AllShort (s ∷ ss) = (length s ≤ 65535) × AllShort ss

pub length-frame : (s : List ℕ) → length (frame s) ≡ 2 + length s
length-frame s = omega arith

pub frames-snoc : (ss : List (List ℕ)) (s : List ℕ) → frames ss ++ frame s ≡ frames (ss ++ s ∷ [])
frames-snoc [] s = simp append-nil
frames-snoc (t ∷ ss) s =
    rw (append_assoc (frame t) (frames ss) (frame s)) (ap (◌++◌ (frame t)) (frames-snoc ss s))
