-- ===== src/Server/Json/Escape.antt =====
-- Json.h: `writeString`, and a reader of strings under the JSON rules.
use out_of_book.Prelude.{
  ℕ, zero, suc, ◌+◌, ◌-◌, ◌*◌, ◌<◌, ◌≡◌, ◌≢◌, List, [], ◌∷◌, ◌++◌, true, false, ◌==◌, ltb,
  if◌then◌else◌, Option, none, some, length, arith, refl, sym,
}
use mathlib.Core.List.{append_assoc}
use out_of_book.Server.Json.{escape, escape_all}

abbrev pub hex_value : ℕ → ℕ
hex_value c = if ltb c b'a' then c - b'0' else c - b'a' + 10

unfoldable pub unescape_hex : List ℕ → Option (ℕ × List ℕ)
unescape_hex (a ∷ b ∷ c ∷ d ∷ s) =
    some (((hex_value a * 16 + hex_value b) * 16 + hex_value c) * 16 + hex_value d, s)
unescape_hex _ = none

-- What stands behind a backslash.
unfoldable pub unescape_mark : List ℕ → Option (ℕ × List ℕ)
unescape_mark [] = none
unescape_mark (e ∷ s) =
    if e == b'"'
    then some (b'"', s)
    else if e == 92
    then some (92, s)
    else if e == b'n'
    then some (10, s)
    else if e == b'r'
    then some (13, s)
    else if e == b't'
    then some (9, s)
    else if e == b'u'
    then unescape_hex s
    else none

-- One character of a JSON string: control characters and quotes may not stand there as they are.
unfoldable pub unescape : List ℕ → Option (ℕ × List ℕ)
unescape [] = none
unescape (c ∷ s) =
    if c == 92
    then unescape_mark s
    else if (c == b'"')
    then none
    else if ltb c 0x20
    then none
    else some (c, s)

pub unescape-escape : (c : ℕ) (rest : List ℕ) → unescape (escape c ++ rest) ≡ some (c, rest)
unfolding unescape unescape_mark unescape_hex escape
unescape-escape c rest = ground arith

escape_head : (c : ℕ) (rest : List ℕ) (s : List ℕ) → escape c ++ rest ≢ b'"' ∷ s
unfolding escape
escape_head c rest s = ground arith

-- A reader of the characters up to the closing quote, with what follows it.
unfoldable pub read_string : ℕ → List ℕ → Option (List ℕ × List ℕ)
read_string zero s = none
read_string (suc f) [] = none
read_string (suc f) (q ∷ s) = elim (q == b'"') [
  | true ↦ some ([], s)
  | false ↦ elim (unescape (q ∷ s)) [
    | none ↦ none
    | some (c, rest) ↦ elim (read_string f rest) [
      | none ↦ none
      | some (cs, end) ↦ some (c ∷ cs, end)
    ]
  ]
]

read_step :
    (f c : ℕ) (s rest cs end : List ℕ)
    → s ≡ escape c ++ rest
    → read_string f rest ≡ some (cs, end)
    → read_string (suc f) s ≡ some (c ∷ cs, end)
unfolding read_string
read_step f c [] rest cs end e h = absurd (nonempty rest e)
  where
    nonempty : (r : List ℕ) → [] ≡ escape c ++ r → ⊥
    nonempty r e = unfold escape in ground arith
read_step f c (q ∷ s) rest cs end e h =
    let u : unescape (q ∷ s) ≡ some (c, rest) = rw e (unescape-escape c rest) in
    let n : q ≢ b'"' = λ p. escape_head c rest s (rw (← p) (sym e)) in ground arith

-- What stands between the quotes that `writeString` writes is read back as the bytes that it was
-- given, and the reader stops at the closing quote: no byte of the text can end the string early.
pub read_string-escape_all :
    (f : ℕ) (v rest : List ℕ)
    → length v < f
    → read_string f (escape_all v ++ (b'"' ∷ rest)) ≡ some (v, rest)
unfolding read_string escape_all
read_string-escape_all zero v rest h = elim h [ ]
read_string-escape_all (suc f) [] rest h = refl
read_string-escape_all (suc f) (c ∷ v) rest h =
    read_step f c (escape_all (c ∷ v) ++ (b'"' ∷ rest)) (escape_all v ++ (b'"' ∷ rest)) v rest
      (append_assoc (escape c) (escape_all v) (b'"' ∷ rest))
      (read_string-escape_all f v rest (omega arith))
