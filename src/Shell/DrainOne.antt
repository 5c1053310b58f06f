-- ===== src/Shell/DrainOne.antt =====
-- shell/queue.go: what `drainOne` and `drainPromptQueue` take from the queue.
use piglet.Prelude.{
  ℕ, ◌+◌, ◌≤◌, ◌<◌, ◌≡◌, refl, sym, ap, ◌∙◌, subst, inl, inr, some, List, [], ◌∷◌, ◌++◌, append-nil,
  append_assoc, arith, ltb, ltb→lt, ltb→le, Bool-cases, length, length-append, take, drop, All,
  drop-append_length, ltb_of_le, All-append,
}
use mathlib.Core.Option.{some-injective, none-ne-some}
use piglet.Shell.Queue.{
  QueuedItem, rank, find_best, drain_one, drain_prompts, drain_commands, drain_prompt_queue,
}

abbrev Above : QueuedItem → QueuedItem → Type 0
Above item it = rank item.priority < rank it.priority

abbrev AtLeast : QueuedItem → QueuedItem → Type 0
AtLeast item it = rank item.priority ≤ rank it.priority

-- An item split out of a list, with the rank least, and less than that of each earlier one.
abbrev Split : List QueuedItem → ℕ → QueuedItem → Type 0
Split queue best item =
    (before : List QueuedItem) × (after : List QueuedItem) × (queue ≡ before ++ item ∷ after)
    × (best ≡ length before)
    × All (Above item) before
    × All (AtLeast item) after

All-lower :
    (x item : QueuedItem) (xs : List QueuedItem)
    → rank x.priority < rank item.priority
    → All (AtLeast item) xs
    → All (Above x) xs
All-lower x item [] lt h = tt
All-lower x item (y ∷ ys) lt (h, hs) = (omega arith, All-lower x item ys lt hs)

All-Above :
    (x item : QueuedItem) (xs : List QueuedItem)
    → rank x.priority < rank item.priority
    → All (Above item) xs
    → All (Above x) xs
All-Above x item [] lt h = tt
All-Above x item (y ∷ ys) lt (h, hs) = (omega arith, All-Above x item ys lt hs)

find_best-Split :
    (xs seen : List QueuedItem) (i best : ℕ) (item : QueuedItem)
    → i ≡ length seen
    → Split seen best item
    → let (b, it) = find_best xs i best item in Split (seen ++ xs) b it
unfolding find_best
find_best-Split [] seen i best item l (before, after, e, k, ha, hl) =
    (before, after, append-nil seen ∙ e, k, ha, hl)
find_best-Split (x ∷ xs) seen i best item l (before, after, e, k, ha, hl) =
    elim (Bool-cases (ltb (rank x.priority) (rank item.priority))) [
      | inl less ↦
          let lt = ltb→lt _ _ less in
          let above =
            All-append (Above x) before (item ∷ after) (All-Above x item before lt ha)
              (lt, All-lower x item after lt hl) in
          rw (less, find_best)
            (subst (λ q. Split q (find_best xs (i + 1) i x).0 (find_best xs (i + 1) i x).1)
              (append_assoc seen (x ∷ []) xs)
              (find_best-Split xs (seen ++ x ∷ []) (i + 1) i x
                (omega (arith, length-append seen (x ∷ [])))
                (seen, [], refl, l, subst (All (Above x)) (sym e) above, tt)))
      | inr more ↦
          let le = ltb→le _ _ more in
          rw (more, find_best)
            (subst
              (λ q. Split q (find_best xs (i + 1) best item).0 (find_best xs (i + 1) best item).1)
              (append_assoc seen (x ∷ []) xs)
              (find_best-Split xs (seen ++ x ∷ []) (i + 1) best item
                (omega (arith, length-append seen (x ∷ [])))
                (
                  before,
                  after ++ x ∷ [],
                  ap (λ q. q ++ x ∷ []) e ∙ append_assoc before (item ∷ after) (x ∷ []),
                  k,
                  ha,
                  All-append (AtLeast item) after (x ∷ []) hl (le, tt),
                )))
    ]

drop-append_suc :
    {A : Type 0}
    → (before after : List A) (x : A) → drop (length before + 1) (before ++ x ∷ after) ≡ after
drop-append_suc before after x =
    ap (λ k. drop k (before ++ x ∷ after)) (omega (arith, length-append before (x ∷ [])))
    ∙ (ap (λ q. drop (length (before ++ x ∷ [])) q) (sym (append_assoc before (x ∷ []) after))
        ∙ drop-append_length (before ++ x ∷ []) after)

take-append_length :
    {A : Type 0} → (before after : List A) → take (length before) (before ++ after) ≡ before
take-append_length [] after = refl
take-append_length (x ∷ before) after = ap (λ t. x ∷ t) (take-append_length before after)

remainder :
    (queue before after : List QueuedItem) (it : QueuedItem) (best : ℕ)
    → queue ≡ before ++ it ∷ after
    → best ≡ length before
    → take best queue ++ drop (best + 1) queue ≡ before ++ after
remainder queue before after it best split k =
    rw (split, k)
      (ap (λ t. t ++ drop (length before + 1) (before ++ it ∷ after))
          (take-append_length before (it ∷ after))
        ∙ ap (λ t. before ++ t) (drop-append_suc before after it))

find_best-first :
    (x : QueuedItem) (xs : List QueuedItem)
    → let (b, it) = find_best (x ∷ xs) 0 0 x in Split (x ∷ xs) b it
unfolding find_best
find_best-first x xs =
    rw (ltb_of_le (rank x.priority) (rank x.priority) (omega arith), find_best)
      (find_best-Split xs (x ∷ []) 1 0 x (omega arith) ([], [], refl, refl, tt, tt))

-- The item that is drained alone has the least rank, prompts before commands, and is the earliest of its
-- equals; the other items stay in their order.
pub drain_one-Split :
    (queue rest : List QueuedItem) (item : QueuedItem)
    → drain_one queue ≡ some (item, rest)
    → (before : List QueuedItem) × (after : List QueuedItem) × (queue ≡ before ++ item ∷ after)
      × (rest ≡ before ++ after)
      × All (λ (it : QueuedItem). rank item.priority < rank it.priority) before
      × All (λ (it : QueuedItem). rank item.priority ≤ rank it.priority) after
unfolding drain_one
drain_one-Split [] rest item e = absurd (none-ne-some _ e)
drain_one-Split (x ∷ xs) rest item e =
    let q = x ∷ xs in
    let same = ap (λ (p : QueuedItem × List QueuedItem). p.0) (some-injective _ _ e) in
    let left = ap (λ (p : QueuedItem × List QueuedItem). p.1) (some-injective _ _ e) in
    let (before, after, split, k, ha, hl) = find_best-first x xs in
    subst
      (λ it.
        (before : List QueuedItem) × (after : List QueuedItem) × (q ≡ before ++ it ∷ after)
        × (rest ≡ before ++ after)
        × All (λ (o : QueuedItem). rank it.priority < rank o.priority) before
        × All (λ (o : QueuedItem). rank it.priority ≤ rank o.priority) after)
      same (before, after, split, sym left ∙ remainder q before after _ _ split k, ha, hl)

-- Between two tools the prompts leave the queue and the commands stay, both in their order: the loop
-- that moves the items within the slice gives what the two filters give.
pub drain_prompt_queue-filters :
    (queue : List QueuedItem)
    → drain_prompt_queue queue ≡ (drain_prompts queue, drain_commands queue)
unfolding drain_prompt_queue drain_prompts drain_commands
drain_prompt_queue-filters [] = refl
drain_prompt_queue-filters (it ∷ queue) = ground (arith, drain_prompt_queue-filters queue)
