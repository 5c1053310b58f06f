-- ===== src/Pipeline/Pieces.antt =====
-- extensions/pipeline/template.go: every text is one of pieces, and what Expand makes of it.
use Prim.Native.Char.{Char, code}
use Prim.Native.String.{[] as no_text, ◌∷◌ as ◌::◌, ◌++◌}
use text.Mathlib.TextLemmas.{append-nil, append_assoc, nil-append, cons-append}
use text.Mathlib.TextEquality.{Char-path}
use piglet.Prelude.{
  ℕ, zero, suc, ◌<◌, ◌≡◌, refl, sym, ap, ◌∙◌, subst, inl, inr, String, false, List, [], ◌∷◌, arith,
  ◌==◌, ==_iff, Bool-cases, All,
}
use piglet.Pipeline.Texts.{len, has_code}
use piglet.Pipeline.Template.{Unmarshal, TemplateContext, resolve, expand}
use piglet.Pipeline.Cuts.{char-append, opening, closing}
use piglet.Pipeline.Expansion.{
  Piece, plain, slot, Tail, nothing, unclosed, IsPiece, IsTail, print, replaced, expand-print,
}

-- No place of the character, or the first one with the texts around it.
data Cut (c : Char) (s : String) : Type 0 where
  uncut : has_code (code c) s ≡ false → Cut c s
  cut :
      (before after : String)
      → has_code (code c) before ≡ false
      → s ≡ before ++ (c :: after)
      → len after < len s
      → Cut c s

add_front : (c d : Char) (s : String) → (code d == code c) ≡ false → Cut c s → Cut c (d :: s)
unfolding has_code len
add_front c d s differs (uncut h) = uncut (rw differs h)
add_front c d s differs (cut before after h e less) =
    cut (d :: before) after (rw differs h)
      (ap (λ t. d :: t) e ∙ sym (cons-append d before (c :: after))) (omega (arith, less))

find-Cut : (c : Char) (s : String) → Cut c s
unfolding has_code len
find-Cut c no_text = uncut refl
find-Cut c (d :: s) = elim (Bool-cases (code d == code c)) [
  | inl here ↦
      cut "" s refl
        (ap (λ x. x :: s) (Char-path d c ((==_iff (code d) (code c)).0 here))
          ∙ sym (nil-append (c :: s)))
        (omega arith)
  | inr later ↦ add_front c d s later (find-Cut c s)
]

-- The pieces of a text.
pub HasPieces : String → Type 0
HasPieces s = (ps : List Piece) × (t : Tail) × All IsPiece ps × IsTail t × (s ≡ print ps t)

-- A placeholder between a text and one that has pieces.
with_slot :
    (before key rest : String)
    → has_code 123 before ≡ false
    → has_code 125 key ≡ false
    → HasPieces rest
    → HasPieces (before ++ (opening :: (key ++ (closing :: rest))))
unfolding HasPieces print
with_slot before key rest hb hk (ps, t, hp, ht, e) = (
  plain before ∷ slot key ∷ ps,
  t,
  (hb, (hk, hp)),
  ht,
  ap (λ r. before ++ r)
      (sym (char-append opening (key ++ (closing :: rest)))
        ∙ (ap (λ r. "{" ++ (key ++ r)) (sym (char-append closing rest))
            ∙ (ap (λ r. "{" ++ r) (sym (append_assoc key "}" rest))
                ∙ (sym (append_assoc "{" (key ++ "}") rest)
                    ∙ ap (λ r. ("{" ++ (key ++ "}")) ++ r) e)))),
)

without_slot : (s : String) → has_code 123 s ≡ false → HasPieces s
unfolding HasPieces print
without_slot s h = (plain s ∷ [], nothing, (h, tt), tt, sym (append-nil s))

with_brace :
    (before after : String)
    → has_code 123 before ≡ false
    → has_code 125 after ≡ false
    → HasPieces (before ++ (opening :: after))
unfolding HasPieces print
with_brace before after hb ha = (
  plain before ∷ [],
  unclosed after,
  (hb, tt),
  ha,
  ap (λ r. before ++ r) (sym (char-append opening after)),
)

pieces_within : (n : ℕ) (s : String) → len s < n → HasPieces s
pieces_within zero s h = absurd (omega arith)
pieces_within (suc n) s h = elim (find-Cut opening s) [
  | uncut none_opens ↦ without_slot s none_opens
  | cut before after hb e less ↦ elim (find-Cut closing after) [
    | uncut none_closes ↦ subst HasPieces (sym e) (with_brace before after hb none_closes)
    | cut key rest hk f less_too ↦
        subst HasPieces (sym (e ∙ ap (λ r. before ++ (opening :: r)) f))
          (with_slot before key rest hb hk (pieces_within n rest (omega arith)))
  ]
]

-- Every text is one of pieces, which are texts without an opening brace and placeholders, the keys of which have no
-- closing brace, and perhaps of an opening brace that is not closed at its end; Expand comes to an end on it and
-- gives it with each placeholder replaced by what its key stands for in the context, once, and with
-- those with unknown keys and the rest as they are; it panics exactly if one of the keys does.
pub expand_replaces :
    (unmarshal : Unmarshal) (tc : TemplateContext) (s : String)
    → (ps : List Piece) × (t : Tail) × All IsPiece ps
      × IsTail t
      × (s ≡ print ps t)
      × (expand unmarshal tc s ≡ replaced (resolve unmarshal tc) ps t)
unfolding HasPieces
expand_replaces unmarshal tc s =
    let (ps, t, hp, ht, e) = pieces_within (suc (len s)) s (omega arith) in
    (ps, t, hp, ht, e, ap (expand unmarshal tc) e ∙ expand-print unmarshal tc ps t hp ht)
