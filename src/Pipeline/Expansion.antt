-- ===== src/Pipeline/Expansion.antt =====
-- extensions/pipeline/template.go: what Expand writes, by the pieces of a text.
use Prim.Native.String.{[] as no_text, ◌∷◌ as ◌::◌, ◌++◌}
use text.Mathlib.TextLemmas.{nil-append, cons-append}
use piglet.Prelude.{
  ℕ, zero, suc, ◌+◌, ◌<◌, ◌≤◌, ◌≡◌, refl, ap, ◌∙◌, inl, inr, String, false, none, List, [], ◌∷◌,
  arith, Bool-cases, All,
}
use piglet.Pipeline.Texts.{len, has_code, cut_at}
use piglet.Pipeline.Template.{
  Unmarshal, TemplateContext, Resolved, found, unknown, panics, panicked, unfinished, resolve,
  close, next_slot, Expanded, expanded, prepend, fill, expand_loop, expand,
}
use piglet.Pipeline.Cuts.{
  cut_at-none, char-append, opening, next_slot-slot, prepend-nil, expand_loop-append,
}

-- A text as it stands, or a placeholder by its key.
pub data Piece : Type 0 where
  plain : String → Piece
  slot : String → Piece

-- What ends a text: nothing, or an opening brace that is not closed.
pub data Tail : Type 0 where
  nothing : Tail
  unclosed : String → Tail

-- No opening brace in a text as it stands, no closing brace in a key.
abbrev pub IsPiece : Piece → Type 0
IsPiece (plain s) = has_code 123 s ≡ false
IsPiece (slot key) = has_code 125 key ≡ false

abbrev pub IsTail : Tail → Type 0
IsTail nothing = Unit
IsTail (unclosed s) = has_code 125 s ≡ false

abbrev print_tail : Tail → String
print_tail nothing = ""
print_tail (unclosed s) = "{" ++ s

-- The text of the pieces and the tail.
unfoldable pub print : List Piece → Tail → String
print [] t = print_tail t
print (plain s ∷ ps) t = s ++ print ps t
print (slot key ∷ ps) t = ("{" ++ (key ++ "}")) ++ print ps t

abbrev in_front : String → Expanded → Expanded
in_front s (expanded t) = expanded (s ++ t)
in_front s panicked = panicked
in_front s unfinished = unfinished

-- In front of the rest: the value of a key, or the placeholder as it stands if the key is unknown.
abbrev in_place : String → Resolved → Expanded → Expanded
in_place key (found v) rest = in_front v rest
in_place key unknown rest = in_front ("{" ++ (key ++ "}")) rest
in_place key panics rest = panicked

prepend-in_front : (s : String) (e : Expanded) → prepend s e ≡ in_front s e
prepend-in_front s (expanded t) = refl
prepend-in_front s panicked = refl
prepend-in_front s unfinished = refl

fill-in_place : (key : String) (r : Resolved) (e : Expanded) → fill key r e ≡ in_place key r e
fill-in_place key (found v) e = prepend-in_front v e
fill-in_place key unknown e = prepend-in_front ("{" ++ (key ++ "}")) e
fill-in_place key panics e = refl

-- The text with the pieces' values in the places of the placeholders.
unfoldable pub replaced : (String → Resolved) → List Piece → Tail → Expanded
replaced res [] t = expanded (print_tail t)
replaced res (plain s ∷ ps) t = in_front s (replaced res ps t)
replaced res (slot key ∷ ps) t = in_place key (res key) (replaced res ps t)

next_slot-tail : (t : Tail) → IsTail t → next_slot (print_tail t) ≡ none
unfolding next_slot cut_at
next_slot-tail nothing h = refl
next_slot-tail (unclosed s) h =
    ap next_slot (char-append opening s) ∙ ap (close "") (cut_at-none 125 s h)

-- How many placeholders there are.
slots : List Piece → ℕ
slots [] = 0
slots (plain s ∷ ps) = slots ps
slots (slot key ∷ ps) = suc (slots ps)

expand_loop-print :
    (res : String → Resolved) (fuel : ℕ) (ps : List Piece) (t : Tail)
    → All IsPiece ps
    → IsTail t
    → slots ps < fuel
    → expand_loop res fuel (print ps t) ≡ replaced res ps t
unfolding expand_loop print replaced slots
expand_loop-print res zero ps t hp ht enough = absurd (omega arith)
expand_loop-print res (suc fuel) [] t hp ht enough = rw (next_slot-tail t ht) refl
expand_loop-print res (suc fuel) (plain s ∷ ps) t hp ht enough =
    expand_loop-append res (suc fuel) s (print ps t) hp.0
    ∙ (ap (prepend s) (expand_loop-print res (suc fuel) ps t hp.1 ht enough)
        ∙ prepend-in_front s (replaced res ps t))
expand_loop-print res (suc fuel) (slot key ∷ ps) t hp ht enough =
    rw (next_slot-slot key (print ps t) hp.0) (
      prepend-nil (fill key (res key) (expand_loop res fuel (print ps t)))
      ∙ (ap (fill key (res key)) (expand_loop-print res fuel ps t hp.1 ht (omega arith))
          ∙ fill-in_place key (res key) (replaced res ps t)))

len-append : (s t : String) → len (s ++ t) ≡ len s + len t
unfolding len
len-append no_text t = ap len (nil-append t) ∙ omega arith
len-append (c :: s) t = ap len (cons-append c s t) ∙ omega (arith, len-append s t)

slots-le : (ps : List Piece) (t : Tail) → slots ps ≤ len (print ps t)
unfolding slots print len
slots-le [] t = omega arith
slots-le (plain s ∷ ps) t = omega (arith, len-append s (print ps t), slots-le ps t)
slots-le (slot key ∷ ps) t = omega (
  arith,
  len-append ("{" ++ (key ++ "}")) (print ps t),
  len-append "{" (key ++ "}"),
  slots-le ps t,
)

-- The shortcut for a text without an opening brace changes nothing.
expand-expand_loop :
    (unmarshal : Unmarshal) (tc : TemplateContext) (s : String)
    → expand unmarshal tc s ≡ expand_loop (resolve unmarshal tc) (suc (len s)) s
unfolding expand expand_loop next_slot
expand-expand_loop unmarshal tc s = elim (Bool-cases (has_code 123 s)) [
  | inl has ↦ rw has refl
  | inr has_none ↦ rw (has_none, cut_at-none 123 s has_none) refl
]

-- Expand on the text of pieces.
pub expand-print :
    (unmarshal : Unmarshal) (tc : TemplateContext) (ps : List Piece) (t : Tail)
    → All IsPiece ps
    → IsTail t
    → expand unmarshal tc (print ps t) ≡ replaced (resolve unmarshal tc) ps t
expand-print unmarshal tc ps t hp ht =
    expand-expand_loop unmarshal tc (print ps t)
    ∙ expand_loop-print (resolve unmarshal tc) (suc (len (print ps t))) ps t hp ht
        (omega (arith, slots-le ps t))
