-- ===== src/Output/Csv.antt =====
-- output.rs: a CSV row against a reader of quoted fields (RFC 4180).
use uscan.Prelude.{
  ℕ, ◌≡◌, refl, sym, ap, ◌∙◌, List, [], ◌∷◌, ◌++◌, Option, none, some, map, arith, inl, inr,
  append_assoc, append-nil,
}
use uscan.Prelude.{◌==◌, if◌then◌else◌, Bool-cases, Text}
use uscan.Addr.Display.{join}
use uscan.Devices.{Device}
use uscan.Output.{fields, double_quotes, quote, render_csv}

-- Where the reader stands: in front of a field, in a quoted field, behind a quote in it.
pub data Place : Type 0 where
  before inside behind : Place

-- A character in front of the field that is read.
abbrev pub put : ℕ → Option (List Text) → Option (List Text)
put c none = none
put c (some []) = none
put c (some (f ∷ fs)) = some ((c ∷ f) ∷ fs)

abbrev pub open_field : Option (List Text) → Option (List Text)
open_field none = none
open_field (some fs) = some ([] ∷ fs)

-- The fields of a row; a field that does not start with a quote, or goes on behind its closing
-- quote, is refused. The first field of the result is the rest of the one that is read.
abbrev pub read_csv : Place → Text → Option (List Text)
read_csv before [] = none
read_csv before (c ∷ s) = if c == 34 then read_csv inside s else none
read_csv inside [] = none
read_csv inside (c ∷ s) = if c == 34 then read_csv behind s else put c (read_csv inside s)
read_csv behind [] = some ([] ∷ [])
read_csv behind (c ∷ s) =
    if c == 34
    then put 34 (read_csv inside s)
    else if c == 44
    then open_field (read_csv before s)
    else none

-- A text in front of the field that is read.
abbrev put_all : Text → Option (List Text) → Option (List Text)
put_all [] r = r
put_all (c ∷ f) r = put c (put_all f r)

read_csv-double_quotes :
    (f rest : Text) → read_csv inside (double_quotes f ++ rest) ≡ put_all f (read_csv inside rest)
unfolding double_quotes
read_csv-double_quotes [] rest = refl
read_csv-double_quotes (c ∷ f) rest = elim (Bool-cases (c == 34)) [
  | inl quoted ↦
      let e : c ≡ 34 = ground arith in
      rw quoted (
        ap (put 34) (read_csv-double_quotes f rest)
        ∙ ap (λ k. put k (put_all f (read_csv inside rest))) (sym e))
  | inr plain ↦ rw (plain, plain) (ap (put c) (read_csv-double_quotes f rest))
]

put_all-some : (f g : Text) (fs : List Text) → put_all f (some (g ∷ fs)) ≡ some ((f ++ g) ∷ fs)
put_all-some [] g fs = refl
put_all-some (c ∷ f) g fs = ap (put c) (put_all-some f g fs)

-- A quoted field, with what the reader makes of the text behind it.
read_csv-quote :
    (f rest : Text) (fs : List Text)
    → read_csv behind rest ≡ some ([] ∷ fs)
    → read_csv before (quote f ++ rest) ≡ some (f ∷ fs)
unfolding quote
read_csv-quote f rest fs h =
    ap (read_csv inside) (append_assoc (double_quotes f) (34 ∷ []) rest)
    ∙ read_csv-double_quotes f (34 ∷ rest)
    ∙ ap (put_all f) h
    ∙ put_all-some f [] fs
    ∙ ap (λ t. some (t ∷ fs)) (append-nil f)

read_csv-join :
    (f : Text) (fs : List Text)
    → read_csv before (join (44 ∷ []) (map quote (f ∷ fs))) ≡ some (f ∷ fs)
unfolding join
read_csv-join f [] = ap (read_csv before) (sym (append-nil (quote f))) ∙ read_csv-quote f [] [] refl
read_csv-join f (g ∷ fs) =
    read_csv-quote f (44 ∷ join (44 ∷ []) (map quote (g ∷ fs))) (g ∷ fs)
      (ap open_field (read_csv-join g fs))

-- A reader of CSV gets the six fields of a device back from its row, whatever characters they hold:
-- commas, quotes and line ends included.
pub read_csv-render_csv : (d : Device) → read_csv before (render_csv d) ≡ some (fields d)
unfolding render_csv
read_csv-render_csv d = read_csv-join _ _
