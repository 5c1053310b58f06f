-- ===== src/Shell/Queue.antt =====
-- shell/queue.go: the input queue, and how it is drained.
use Prim.Native.String.{◌++◌ as concat}
use piglet.Prelude.{
  ℕ, ◌+◌, String, Bool, not, Option, none, some, List, [], ◌∷◌, ◌++◌, ltb, leb, ◌==◌, if◌then◌else◌,
  length, take, drop, filter,
}

-- How the queue is drained at the end of a run.
pub data QueueMode : Type 0 where
  drain_all single_step : QueueMode

pub data Priority : Type 0 where
  next later : Priority

abbrev pub rank : Priority → ℕ
rank next = 0
rank later = 1

abbrev pub max_queue_size : ℕ
max_queue_size = 50

pub record QueuedItem : Type 0 where
  pub content : String
  pub priority : Priority

-- `drainQueue`: the items, sorted, and the queue after. The standard library's sort is not stable, so it
-- is an argument.
unfoldable pub drain_queue :
    (List QueuedItem → List QueuedItem) → List QueuedItem → List QueuedItem × List QueuedItem
drain_queue sort queue = (sort queue, [])

-- The loop of `drainOne`: from index i on, with the best index and its item.
unfoldable pub find_best : List QueuedItem → ℕ → ℕ → QueuedItem → ℕ × QueuedItem
find_best [] i best item = (best, item)
find_best (x ∷ xs) i best item =
    let better = find_best xs (i + 1) i x in
    let same = find_best xs (i + 1) best item in
    if ltb (rank x.priority) (rank item.priority) then better else same

-- `drainOne`: the item of the least rank, the earliest of its equals, and the queue without it.
unfoldable pub drain_one : List QueuedItem → Option (QueuedItem × List QueuedItem)
unfolding find_best
drain_one [] = none
drain_one (x ∷ xs) =
    let (best, item) = find_best (x ∷ xs) 0 0 x in
    some (item, take best (x ∷ xs) ++ drop (best + 1) (x ∷ xs))

abbrev pub is_later : QueuedItem → Bool
is_later it = rank it.priority == 1

unfoldable pub drain_prompts : List QueuedItem → List QueuedItem
drain_prompts items = filter (λ it. not (is_later it)) items

unfoldable pub drain_commands : List QueuedItem → List QueuedItem
drain_commands items = filter is_later items

-- `mergePrompts`
unfoldable pub merge_prompts : List QueuedItem → String
merge_prompts [] = ""
merge_prompts (x ∷ []) = x.content
merge_prompts (x ∷ y ∷ ys) = concat (concat x.content "\n\n") (merge_prompts (y ∷ ys))

-- `drainPromptQueue`: the prompts, and the queue with its commands.
unfoldable pub drain_prompt_queue : List QueuedItem → List QueuedItem × List QueuedItem
drain_prompt_queue [] = ([], [])
drain_prompt_queue (it ∷ queue) =
    let (prompts, rest) = drain_prompt_queue queue in
    if is_later it then (prompts, it ∷ rest) else (it ∷ prompts, rest)

-- The body of `enqueue`: an item beyond the limit is dropped.
unfoldable pub enqueue : String → Bool → List QueuedItem → List QueuedItem
enqueue content low_priority queue =
    if leb max_queue_size (length queue)
    then queue
    else queue ++ record { content = content; priority = if low_priority then later else next } ∷ []
