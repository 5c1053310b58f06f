-- ===== src/Pipeline/Cuts.antt =====
-- extensions/pipeline/template.go: where the loop of Expand cuts a text.
use Prim.Native.Char.{Char, char, code}
use Prim.Native.String.{[] as no_text, ◌∷◌ as ◌::◌, ◌++◌}
use text.Mathlib.TextLemmas.{append-nil, append_assoc, nil-append, cons-append}
use mathlib.Core.Bool.{true≢false}
use piglet.Prelude.{
  ℕ, zero, suc, ◌≡◌, refl, sym, ap, ◌∙◌, inl, inr, String, false, Option, none, some, ◌==◌,
  Bool-cases,
}
use piglet.Pipeline.Texts.{has_code, cut_at, add_char}
use piglet.Pipeline.Template.{
  Resolved, close, then_close, next_slot, Expanded, expanded, panicked, unfinished, prepend, fill,
  expand_next, expand_loop,
}

abbrev after : String → Option (String × String) → Option (String × String)
after s none = none
after s (some (b, a)) = some (s ++ b, a)

after-nil : (o : Option (String × String)) → after "" o ≡ o
after-nil none = refl
after-nil (some (b, a)) = ap (λ x. some (x, a)) (nil-append b)

after-cons :
    (c : Char) (s : String) (o : Option (String × String))
    → add_char c (after s o) ≡ after (c :: s) o
after-cons c s none = refl
after-cons c s (some (b, a)) = ap (λ x. some (x, a)) (sym (cons-append c s b))

-- A cut is at the first place.
cut_at-append :
    (n : ℕ) (s t : String) → has_code n s ≡ false → cut_at n (s ++ t) ≡ after s (cut_at n t)
unfolding has_code cut_at
cut_at-append n no_text t h = ap (cut_at n) (nil-append t) ∙ sym (after-nil (cut_at n t))
cut_at-append n (c :: s) t h = elim (Bool-cases (code c == n)) [
  | inl here ↦ absurd (true≢false (rw here at h))
  | inr later ↦
      rw (cons-append c s t, later)
        (ap (add_char c) (cut_at-append n s t (rw later at h)) ∙ after-cons c s (cut_at n t))
]

pub cut_at-none : (n : ℕ) (s : String) → has_code n s ≡ false → cut_at n s ≡ none
unfolding has_code cut_at
cut_at-none n no_text h = refl
cut_at-none n (c :: s) h = elim (Bool-cases (code c == n)) [
  | inl here ↦ absurd (true≢false (rw here at h))
  | inr later ↦ rw later (ap (add_char c) (cut_at-none n s (rw later at h)))
]

abbrev behind : String → Option (String × (String × String)) → Option (String × (String × String))
behind s none = none
behind s (some (b, k)) = some (s ++ b, k)

close-append :
    (s b : String) (o : Option (String × String)) → close (s ++ b) o ≡ behind s (close b o)
close-append s b none = refl
close-append s b (some (key, rest)) = refl

then_close-after :
    (s : String) (o : Option (String × String)) → then_close (after s o) ≡ behind s (then_close o)
then_close-after s none = refl
then_close-after s (some (b, a)) = close-append s b (cut_at 125 a)

next_slot-append :
    (s t : String) → has_code 123 s ≡ false → next_slot (s ++ t) ≡ behind s (next_slot t)
unfolding next_slot
next_slot-append s t h = ap then_close (cut_at-append 123 s t h) ∙ then_close-after s (cut_at 123 t)

-- A text of one character in front.
pub char-append : (c : Char) (s : String) → (c :: no_text) ++ s ≡ c :: s
char-append c s = cons-append c no_text s ∙ ap (λ t. c :: t) (nil-append s)

abbrev pub opening : Char
opening = char 123 tt

abbrev pub closing : Char
closing = char 125 tt

-- The first placeholder of a text that starts with one.
pub next_slot-slot :
    (key rest : String)
    → has_code 125 key ≡ false
    → next_slot (("{" ++ (key ++ "}")) ++ rest) ≡ some ("", (key, rest))
unfolding next_slot cut_at
next_slot-slot key rest h =
    ap next_slot (append_assoc "{" (key ++ "}") rest ∙ char-append opening ((key ++ "}") ++ rest))
    ∙ (ap (λ a. close "" (cut_at 125 a)) (append_assoc key "}" rest)
        ∙ (ap (close "") (cut_at-append 125 key ("}" ++ rest) h)
            ∙ (ap (λ a. close "" (after key (cut_at 125 a))) (char-append closing rest)
                ∙ ap (λ k. some ("", (k, rest))) (append-nil key))))

prepend-prepend : (s t : String) (e : Expanded) → prepend (s ++ t) e ≡ prepend s (prepend t e)
prepend-prepend s t (expanded u) = ap expanded (append_assoc s t u)
prepend-prepend s t panicked = refl
prepend-prepend s t unfinished = refl

pub prepend-nil : (e : Expanded) → prepend "" e ≡ e
prepend-nil (expanded t) = ap expanded (nil-append t)
prepend-nil panicked = refl
prepend-nil unfinished = refl

expand_next-behind :
    (res : String → Resolved) (s t : String) (o : Option (String × (String × String)))
    (go : String → Expanded)
    → expand_next res (s ++ t) (behind s o) go ≡ prepend s (expand_next res t o go)
expand_next-behind res s t none go = refl
expand_next-behind res s t (some (b, (key, rest))) go =
    prepend-prepend s b (fill key (res key) (go rest))

pub expand_loop-append :
    (res : String → Resolved) (fuel : ℕ) (s t : String)
    → has_code 123 s ≡ false
    → expand_loop res fuel (s ++ t) ≡ prepend s (expand_loop res fuel t)
unfolding expand_loop
expand_loop-append res zero s t h = refl
expand_loop-append res (suc fuel) s t h =
    ap (λ o. expand_next res (s ++ t) o (expand_loop res fuel)) (next_slot-append s t h)
    ∙ expand_next-behind res s t (next_slot t) (expand_loop res fuel)
