-- ===== src/Publication/Chunking/Batching.antt =====
-- How publication/chunking.py packs the lines of a section: the length of a batch, its overlap with
-- the one before, and that no line is lost.
use trustworthy_personal_kno.Prelude.{
  ℕ, ◌+◌, ◌≤◌, ◌≡◌, refl, sym, ap, ◌∙◌, subst, Bool, true, false, not, ◌&&◌, ◌||◌, List, [], ◌∷◌,
  ◌++◌, All, All-append, All-map, length, length-append, ltb, leb→le, Bool-cases, and_split, inl,
  inr, Text, ok, require_inv, bind_inv, ok_injective, arith,
}
use mathlib.Core.List.{reverse, reverse-cons, reverse-reverse, append-nil, append_assoc}
use trustworthy_personal_kno.Publication.Markdown.{is_empty, heading_text, chunk_text, join_lines}
use trustworthy_personal_kno.Publication.Chunking.{
  MarkdownChunker, Packing, cost, closed, overlap_loop, overlap_tail, roll_over, push_line,
  add_line, pack_lines, batches,
}

pub cost-append : (xs ys : List Text) → cost (xs ++ ys) ≡ cost xs + cost ys
cost-append [] ys = omega arith
cost-append (x ∷ xs) ys = omega (arith, cost-append xs ys)

-- What the loop selects is the end of the lines, within the budget.
overlap_loop_lem :
    (budget : ℕ) (selected : List Text) (used : ℕ) (ls : List Text)
    → used ≡ cost selected
    → cost selected ≤ budget
    → ((front : List Text) × (reverse ls ++ selected
          ≡ front ++ overlap_loop budget selected used ls))
      × (cost (overlap_loop budget selected used ls) ≤ budget)
unfolding overlap_loop
overlap_loop_lem budget selected used [] same h = (([], refl), h)
overlap_loop_lem budget selected used (l ∷ ls) same h =
    elim (Bool-cases (
      not (is_empty selected) && ltb budget (used + (length l + 1)) || ltb budget (length l + 1))) [
        | inl stop ↦ rw stop ((reverse (l ∷ ls), refl), h)
        | inr more ↦
            let ((front, e), k) =
              overlap_loop_lem budget (l ∷ selected) (used + (length l + 1)) ls (omega arith)
                (fits selected more same) in
            rw more (
              (
                front,
                ap (λ r. r ++ selected) (reverse-cons l ls)
                    ∙ append_assoc (reverse ls) (l ∷ []) selected
                    ∙ e,
              ),
              k,
            )
      ]
  where
    fits :
        (xs : List Text)
        → (not (is_empty xs) && ltb budget (used + (length l + 1)) || ltb budget (length l + 1))
          ≡ false
        → used ≡ cost xs
        → cost (l ∷ xs) ≤ budget
    fits [] more same = ground arith
    fits (x ∷ xs) more same = ground arith

pub overlap_tail_lem :
    (lines : List Text) (budget : ℕ)
    → ((front : List Text) × (lines ≡ front ++ overlap_tail lines budget))
      × (cost (overlap_tail lines budget) ≤ budget)
unfolding overlap_tail
overlap_tail_lem lines budget =
    let ((front, e), h) = overlap_loop_lem budget [] 0 (reverse lines) refl (omega arith) in
    ((front, sym (reverse-reverse lines) ∙ sym (append-nil (reverse (reverse lines))) ∙ e), h)

-- A batch has a line, and its text is not too long.
abbrev pub Fits : ℕ → ℕ → List Text → Type 0
Fits prefix hard_max b = (1 ≤ length b) × (prefix + cost b ≤ hard_max + 1)

abbrev Room : ℕ → ℕ → List Text → Type 0
Room prefix hard_max b = is_empty b ≡ false → prefix + cost b ≤ hard_max + 1

full :
    (prefix hard_max : ℕ) (b : List Text)
    → is_empty b ≡ false
    → Room prefix hard_max b
    → Fits prefix hard_max b
full prefix hard_max [] h r = cc
full prefix hard_max (l ∷ ls) h r = (omega arith, r refl)

-- The batches of the lines: each starts with the end of the one before, within the budget, and goes
-- on with the lines that follow.
pub data Covers (budget : ℕ) : List Text → List (List Text) → List Text → Type 0 where
  done : {previous : List Text} → Covers budget previous [] []
  next :
      {previous batch lines : List Text} {bs : List (List Text)} (front tail fresh rest : List Text)
      → previous ≡ front ++ tail
      → cost tail ≤ budget
      → batch ≡ tail ++ fresh
      → lines ≡ fresh ++ rest
      → Covers budget batch bs rest
      → Covers budget previous (batch ∷ bs) lines

Covers-nil :
    {budget : ℕ} {previous lines : List Text} → Covers budget previous [] lines → lines ≡ []
Covers-nil done = refl

-- The last batch takes another line.
Covers-line :
    {budget : ℕ} {previous lines : List Text} (bs : List (List Text)) (b : List Text) (line : Text)
    → Covers budget previous (bs ++ (b ∷ [])) lines
    → Covers budget previous (bs ++ ((b ++ (line ∷ [])) ∷ [])) (lines ++ (line ∷ []))
Covers-line [] b line (next front tail fresh rest e h k m r) =
    next front tail (fresh ++ (line ∷ [])) [] e h
      (ap (λ x. x ++ (line ∷ [])) k ∙ append_assoc tail fresh (line ∷ []))
      (ap (λ x. x ++ (line ∷ [])) (m ∙ ap (λ x. fresh ++ x) (Covers-nil r) ∙ append-nil fresh)
        ∙ sym (append-nil (fresh ++ (line ∷ []))))
      done
Covers-line (x ∷ bs) b line (next front tail fresh rest e h k m r) =
    next front tail fresh (rest ++ (line ∷ [])) e h k
      (ap (λ y. y ++ (line ∷ [])) m ∙ append_assoc fresh rest (line ∷ [])) (Covers-line bs b line r)

-- A further batch starts with the end of the last one.
Covers-roll :
    {budget : ℕ} {previous lines : List Text} (bs : List (List Text)) (b front tail : List Text)
    → b ≡ front ++ tail
    → cost tail ≤ budget
    → Covers budget previous (bs ++ (b ∷ [])) lines
    → Covers budget previous ((bs ++ (b ∷ [])) ++ (tail ∷ [])) lines
Covers-roll [] b front tail same small (next front' tail' fresh rest e h k m r) =
    next front' tail' fresh rest e h k m
      (next front tail [] [] same small (sym (append-nil tail)) (Covers-nil r) done)
Covers-roll (x ∷ bs) b front tail same small (next front' tail' fresh rest e h k m r) =
    next front' tail' fresh rest e h k m (Covers-roll bs b front tail same small r)

-- An empty batch at the end covers nothing.
Covers-drop :
    {budget : ℕ} {previous lines : List Text} (bs : List (List Text))
    → Covers budget previous (bs ++ ([] ∷ [])) lines
    → Covers budget previous bs lines
Covers-drop {budget = budget} {previous = previous} [] (next front tail fresh rest e h k m r) =
    subst (Covers budget previous []) (sym (m ∙ none_left tail fresh k ∙ Covers-nil r)) done
  where
    none_left : (tail fresh : List Text) → [] ≡ tail ++ fresh → fresh ++ rest ≡ rest
    none_left [] [] k = refl
    none_left [] (x ∷ fresh) k = cc
    none_left (x ∷ tail) fresh k = cc
Covers-drop (x ∷ bs) (next front tail fresh rest e h k m r) =
    next front tail fresh rest e h k m (Covers-drop bs r)

-- What holds after each line: the batches fit, the lines so far are covered.
pub record IsPacked (c : MarkdownChunker) (prefix : ℕ) (p : Packing) (lines : List Text)
    : Type 0 where
  pub fit : All (Fits prefix c.hard_max_characters) p.batches
  pub room : is_empty p.current ≡ false → prefix + cost p.current ≤ c.hard_max_characters + 1
  pub covers : Covers c.overlap_characters [] (p.batches ++ (p.current ∷ [])) lines

module _ (c : MarkdownChunker) (prefix : ℕ) where
  roll_over-IsPacked :
      (p : Packing) (lines : List Text) (line : Text)
      → IsPacked c prefix p lines
      → IsPacked c prefix (roll_over c prefix p line) lines
  unfolding roll_over
  roll_over-IsPacked p lines line i =
      elim (Bool-cases (
        not (is_empty p.current)
        && ltb c.target_characters (prefix + cost (p.current ++ (line ∷ []))))) [
          | inr keep ↦ rw keep i
          | inl roll ↦
              let ((front, e), small) = overlap_tail_lem p.current c.overlap_characters in
              let some_line = negated _ (and_split (not (is_empty p.current)) _ roll).0 in
              rw roll (record {
                fit =
                    All-append _ _ _ i.fit
                      (full prefix c.hard_max_characters p.current some_line i.room, tt);
                room = λ _.
                    shorter front (overlap_tail p.current c.overlap_characters) p.current e
                      (i.room some_line);
                covers = Covers-roll p.batches p.current front _ e small i.covers;
              })
        ]
    where
      negated : (b : Bool) → not b ≡ true → b ≡ false
      negated b h = ground arith

      shorter :
          (front tail whole : List Text)
          → whole ≡ front ++ tail
          → prefix + cost whole ≤ c.hard_max_characters + 1
          → prefix + cost tail ≤ c.hard_max_characters + 1
      shorter front tail whole e h = omega (arith, ap cost e, cost-append front tail)

  push_line-IsPacked :
      (p p' : Packing) (lines : List Text) (line : Text)
      → IsPacked c prefix p lines
      → prefix + length line ≤ c.hard_max_characters
      → push_line c prefix p line ≡ ok p'
      → IsPacked c prefix p' (lines ++ (line ∷ []))
  unfolding push_line
  push_line-IsPacked p p' lines line i short h =
      elim (Bool-cases (ltb c.hard_max_characters (prefix + cost (p.current ++ (line ∷ []))))) [
        | inr fits ↦
            subst (λ q. IsPacked c prefix q (lines ++ (line ∷ []))) (ok_injective (rw fits at h))
              (record {
                fit = i.fit;
                room = λ _. ground arith;
                covers = Covers-line p.batches p.current line i.covers;
              })
        | inl long ↦ elim (Bool-cases (is_empty p.current)) [
          | inl none_left ↦ cc (rw (long, none_left) at h)
          | inr some_line ↦
              subst (λ q. IsPacked c prefix q (lines ++ (line ∷ [])))
                (ok_injective (rw (long, some_line) at h))
                (record {
                  fit =
                      All-append _ _ _ i.fit
                        (full prefix c.hard_max_characters p.current some_line i.room, tt);
                  room = λ _. omega arith;
                  covers = Covers-line (p.batches ++ (p.current ∷ [])) [] line (
                      Covers-roll p.batches p.current p.current [] (sym (append-nil p.current))
                        (omega arith) i.covers);
                })
        ]
      ]

  add_line-IsPacked :
      (p p' : Packing) (lines : List Text) (line : Text)
      → IsPacked c prefix p lines
      → add_line c prefix p line ≡ ok p'
      → IsPacked c prefix p' (lines ++ (line ∷ []))
  unfolding add_line
  add_line-IsPacked p p' lines line i h =
      let (short, h') = require_inv _ _ _ h in
      push_line-IsPacked (roll_over c prefix p line) p' lines line
        (roll_over-IsPacked p lines line i) (leb→le _ _ short) h'

  pack_lines-IsPacked :
      (p p' : Packing) (seen lines : List Text)
      → IsPacked c prefix p seen
      → pack_lines c prefix p lines ≡ ok p'
      → IsPacked c prefix p' (seen ++ lines)
  unfolding pack_lines
  pack_lines-IsPacked p p' seen [] i h =
      subst (λ q. IsPacked c prefix q (seen ++ [])) (ok_injective h)
        (subst (IsPacked c prefix p) (sym (append-nil seen)) i)
  pack_lines-IsPacked p p' seen (line ∷ lines) i h =
      let (middle, one, rest) = bind_inv (add_line c prefix p line) _ h in
      subst (IsPacked c prefix p') (append_assoc seen (line ∷ []) lines) (
        pack_lines-IsPacked middle p' (seen ++ (line ∷ [])) lines
          (add_line-IsPacked p middle seen line i one) rest)

-- `len("\n".join(lines))` falls short of the cost by the last line's end.
length-join : (l : Text) (ls : List Text) → length (join_lines (l ∷ ls)) + 1 ≡ cost (l ∷ ls)
unfolding join_lines
length-join l [] = omega arith
length-join l (m ∷ ls) =
    omega (arith, length-append {0} l (10 ∷ join_lines (m ∷ ls)), length-join m ls)

length-chunk_text :
    (path b : List Text) (hard_max : ℕ)
    → Fits (length (heading_text path) + 2) hard_max b
    → length (chunk_text path b) ≤ hard_max
unfolding chunk_text
length-chunk_text path [] hard_max h = absurd (omega arith)
length-chunk_text path (l ∷ ls) hard_max h = omega (
  arith,
  length-append {0} (heading_text path) (10 ∷ (10 ∷ join_lines (l ∷ ls))),
  length-join l ls,
)

-- The batches of a section: each has a line and, under its headings, at most the hard maximum of
-- characters; together they are the lines in their order, each batch starting with the end of the
-- one before, of at most the overlap's cost.
pub batches_cover :
    (c : MarkdownChunker) (path lines : List Text) (bs : List (List Text))
    → batches c path lines ≡ ok bs
    → All (λ b. (1 ≤ length b) × (length (chunk_text path b) ≤ c.hard_max_characters)) bs
      × Covers c.overlap_characters [] bs lines
unfolding batches
batches_cover c path lines bs h =
    let (p, packed, h') =
      bind_inv
        (pack_lines c (length (heading_text path) + 2) (record { batches = []; current = [] })
          lines)
        _ h in
    let i =
      pack_lines-IsPacked c (length (heading_text path) + 2) (record { batches = []; current = [] })
        p [] lines
        (record {
          fit = tt;
          room = λ empty. cc;
          covers = next [] [] [] [] refl (omega arith) refl refl done;
        })
        packed in
    subst
      (λ xs.
        All (λ b. (1 ≤ length b) × (length (chunk_text path b) ≤ c.hard_max_characters)) xs
        × Covers c.overlap_characters [] xs lines)
      (ok_injective h') (last p.batches p.current i.fit i.room i.covers)
  where
    last :
        (bs : List (List Text)) (b : List Text)
        → All (Fits (length (heading_text path) + 2) c.hard_max_characters) bs
        → Room (length (heading_text path) + 2) c.hard_max_characters b
        → Covers c.overlap_characters [] (bs ++ (b ∷ [])) lines
        → All
            (λ b'. (1 ≤ length b') × (length (chunk_text path b') ≤ c.hard_max_characters))
            (closed (record { batches = bs; current = b }))
          × Covers c.overlap_characters [] (closed (record { batches = bs; current = b })) lines
    last bs [] fit room covers =
        (All-map _ _ bs (λ x f. (f.0, length-chunk_text path x _ f)) fit, Covers-drop bs covers)
    last bs (l ∷ ls) fit room covers = (
      All-append _ bs _ (All-map _ _ bs (λ x f. (f.0, length-chunk_text path x _ f)) fit)
          ((omega arith, length-chunk_text path (l ∷ ls) _ (full _ _ (l ∷ ls) refl room)), tt),
      covers,
    )
