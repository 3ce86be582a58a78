-- ===== src/Signals/Backtrace.antt =====
-- The lines of a backtrace.
use koheron_server.Base.{
  ℕ, suc, ◌+◌, ◌-◌, ◌≡◌, ◌≢◌, refl, sym, ap, ◌∙◌, none, some, List, [], ◌∷◌, ◌++◌, arith, ltb,
  length, take, drop, true, take-prefix, drop-drop,
}
use koheron_server.Signals.{Marks, find_marks, cut, cut_marked, split_message}

-- No character of a text is '(', '+' or ')'.
abbrev pub IsPlain : List ℕ → Type 0
IsPlain [] = Unit {0}
IsPlain (c ∷ text) = (c ≢ 40) × (c ≢ 43) × (c ≢ 41) × IsPlain text

find_marks-plain :
    (p : ℕ) (text rest : List ℕ) (m : Marks)
    → IsPlain text
    → find_marks p (text ++ rest) m ≡ find_marks (p + length text) rest m
unfolding find_marks
find_marks-plain p [] rest m h = let e : p + 0 ≡ p = omega arith in rw e refl
find_marks-plain p (c ∷ text) rest m h =
    let next : p + suc (length text) ≡ suc p + length text = omega arith in
    ground (arith, h.0, h.1, h.2, find_marks-plain (suc p) text rest m h.3, next)

drop-mark :
    (text : List ℕ) (c : ℕ) (rest : List ℕ) → drop (suc (length text)) (text ++ (c ∷ rest)) ≡ rest
drop-mark [] c rest = refl
drop-mark (b ∷ text) c rest = drop-mark text c rest

-- A text up to a mark, and what follows it.
take-mark :
    (text : List ℕ) (c : ℕ) (rest : List ℕ) (n : ℕ)
    → n ≡ length text
    → take n (text ++ (c ∷ rest)) ≡ text
take-mark text c rest n e = take-prefix n text (c ∷ rest) (sym e)

module _ (object name offset rest : List ℕ) where
  line : List ℕ
  line = object ++ (40 ∷ (name ++ (43 ∷ (offset ++ (41 ∷ rest)))))

  abbrev name_at : ℕ
  name_at = 0 + length object

  abbrev begin_at : ℕ
  begin_at = suc name_at + length name

  abbrev end_at : ℕ
  end_at = suc begin_at + length offset

  marks :
      IsPlain object
      → IsPlain name
      → IsPlain offset
      → find_marks 0 line (record { mangled_name = none; offset_begin = none; offset_end = none })
        ≡ record {
          mangled_name = some name_at;
          offset_begin = some begin_at;
          offset_end = some end_at;
        }
  unfolding line find_marks
  marks h k l =
      find_marks-plain 0 object (40 ∷ (name ++ (43 ∷ (offset ++ (41 ∷ rest)))))
        (record { mangled_name = none; offset_begin = none; offset_end = none }) h
      ∙ find_marks-plain (suc name_at) name (43 ∷ (offset ++ (41 ∷ rest)))
          (record { mangled_name = some name_at; offset_begin = none; offset_end = none }) k
      ∙ find_marks-plain (suc begin_at) offset (41 ∷ rest)
          (record { mangled_name = some name_at; offset_begin = some begin_at; offset_end = none })
          l

  cut-line : cut line name_at begin_at end_at ≡ (object, name, offset, rest)
  unfolding line
  cut-line =
      let after_name = name ++ (43 ∷ (offset ++ (41 ∷ rest))) in
      let after_plus = offset ++ (41 ∷ rest) in
      let at : name_at ≡ length object = omega arith in
      let first : drop (suc name_at) line ≡ after_name =
        ap (λ (n : ℕ). drop (suc n) line) at ∙ drop-mark object 40 after_name in
      let to_begin : suc begin_at ≡ suc name_at + suc (length name) = omega arith in
      let to_end : suc end_at ≡ suc begin_at + suc (length offset) = omega arith in
      let second : drop (suc begin_at) line ≡ after_plus =
        ap (λ (n : ℕ). drop n line) to_begin
        ∙ sym (drop-drop (suc name_at) (suc (length name)) line)
        ∙ ap (drop (suc (length name))) first
        ∙ drop-mark name 43 after_plus in
      let third : drop (suc end_at) line ≡ rest =
        ap (λ (n : ℕ). drop n line) to_end
        ∙ sym (drop-drop (suc begin_at) (suc (length offset)) line)
        ∙ ap (drop (suc (length offset))) second
        ∙ drop-mark offset 41 rest in
      λ i. (
        take-mark object 40 after_name name_at at i,
        (ap (take (begin_at - suc name_at)) first
              ∙ take-mark name 43 after_plus (begin_at - suc name_at) (omega arith))
            i,
        (ap (take (end_at - suc begin_at)) second
              ∙ take-mark offset 41 rest (end_at - suc begin_at) (omega arith))
            i,
        third i,
      )

-- A line of the form "object(name+offset)rest", whose first three texts have no parenthesis and no
-- plus sign, is taken apart into just these texts.
pub split_message-line :
    (object name offset rest : List ℕ)
    → IsPlain object
    → IsPlain name
    → IsPlain offset
    → split_message (object ++ (40 ∷ (name ++ (43 ∷ (offset ++ (41 ∷ rest))))))
      ≡ some (object, name, offset, rest)
unfolding split_message line
split_message-line object name offset rest h k l =
    let whole = line object name offset rest in
    let begins : ltb (0 + length object) (suc (0 + length object) + length name) ≡ true =
      ground arith in
    ap (λ (m : Marks). cut_marked whole m.mangled_name m.offset_begin m.offset_end)
      (marks object name offset rest h k l)
    ∙ rw begins (ap some (cut-line object name offset rest))
