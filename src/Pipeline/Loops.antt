-- ===== src/Pipeline/Loops.antt =====
-- extensions/pipeline/loops.go: the iterations of a step. The date of a day counted from today is given, as it is
-- written. The machine has 64 bits, and memory for what make takes.
use piglet.Prelude.{
  ◌*◌, ◌/◌, ◌^◌, leb, length, ℕ, zero, suc, ◌+◌, ◌-◌, String, Bool, true, false, ◌&&◌, Option, none,
  some, List, [], ◌∷◌, ◌++◌, map, ltb, if◌then◌else◌, Assoc, insert, erase,
}
use piglet.Pipeline.Texts.{
  max_int, ℤ, pos, negsuc, cut_text, has_suffix, take_text, len, atoi, itoa,
}
use piglet.Pipeline.Types.{LoopValue, items, range, value, Step}

-- `Iteration`
pub record Iteration : Type 0 where
  pub item : String
  pub loop_vars : Assoc String

-- `loopDimension`
pub record LoopDimension : Type 0 where
  pub key : String
  pub values : List String

-- `a > b`
unfoldable pub greater : ℤ → ℤ → Bool
greater (pos a) (pos b) = ltb b a
greater (pos a) (negsuc b) = true
greater (negsuc a) (pos b) = false
greater (negsuc a) (negsuc b) = ltb a b

-- `b - a`, of a number and one that is not less.
unfoldable pub distance : ℤ → ℤ → ℕ
distance (pos a) (pos b) = b - a
distance (pos a) (negsuc b) = 0
distance (negsuc a) (pos b) = suc a + b
distance (negsuc a) (negsuc b) = a - b

abbrev pub add_one : ℤ → ℤ
add_one (pos n) = pos (suc n)
add_one (negsuc zero) = pos 0
add_one (negsuc (suc n)) = negsuc n

abbrev pub take_one : ℤ → ℤ
take_one (pos zero) = negsuc 0
take_one (pos (suc n)) = pos n
take_one (negsuc n) = negsuc (suc n)

-- The numbers that a loop goes through, from `i` on.
unfoldable pub steps_of : (ℤ → ℤ) → ℕ → ℤ → List ℤ
steps_of next zero i = []
steps_of next (suc n) i = i ∷ steps_of next n (next i)

-- The greatest capacity that `make` takes for elements of so many bytes; above it, it panics.
abbrev pub max_capacity : ℕ → ℕ
max_capacity bytes = 2 ^ 48 / bytes

abbrev is_max : ℤ → Bool
is_max (pos n) = leb max_int n
is_max (negsuc n) = false

abbrev is_min : ℤ → Bool
is_min (pos n) = false
is_min (negsuc n) = leb max_int n

-- A loop to the greatest int, or down to the least, does not end: there the counter wraps round.
abbrev bounded : (endless : Bool) (count : ℕ) → List String → Option (List String)
bounded true count xs = none
bounded false count xs = if leb count (max_capacity 16) then some xs else none

-- `expandNumericRange`, with none where it panics or does not end.
unfoldable pub expand_numeric_range : ℤ → ℤ → Option (List String)
unfolding greater distance steps_of
expand_numeric_range start end =
    if greater start end
    then bounded (is_min end) (distance end start + 1)
        (map itoa (steps_of take_one (distance end start + 1) start))
    else bounded (is_max end) (distance start end + 1)
        (map itoa (steps_of add_one (distance start end + 1) start))

abbrev up_to : (ℤ → String) → ℤ → ℤ → Option (List String)
up_to date start end =
    bounded (is_max end) (distance start end + 1)
      (map date (steps_of add_one (distance start end + 1) start))

-- `expandDayRange`, likewise.
unfoldable pub expand_day_range : (ℤ → String) → ℤ → ℤ → Option (List String)
unfolding greater distance steps_of
expand_day_range date start end =
    if greater start end then up_to date end start else up_to date start end

abbrev trim_day : String → String
trim_day s = take_text (len s - 1) s

-- The values of a range, the part of it that is no number, or a range that is not listed.
pub data Range : Type 0 where
  listed : List String → Range
  bad_range : String → Range
  endless : Range

abbrev or_endless : Option (List String) → Range
or_endless none = endless
or_endless (some vs) = listed vs

abbrev day_range : (ℤ → String) → String → String → Option ℤ → Option ℤ → Range
day_range date start end none e = bad_range start
day_range date start end (some s) none = bad_range end
day_range date start end (some s) (some e) = or_endless (expand_day_range date s e)

abbrev numeric_range : String → Option ℤ → Option ℤ → Range
numeric_range s none e = listed (s ∷ [])
numeric_range s (some a) none = listed (s ∷ [])
numeric_range s (some a) (some b) = or_endless (expand_numeric_range a b)

unfoldable pub range_between : (ℤ → String) → String → Option (String × String) → Range
unfolding has_suffix
range_between date s none = listed (s ∷ [])
range_between date s (some (start, end)) =
    if has_suffix start "d" && has_suffix end "d"
    then day_range date start end (atoi (trim_day start)) (atoi (trim_day end))
    else numeric_range s (atoi start) (atoi end)

-- `parseRange`
unfoldable pub parse_range : (ℤ → String) → String → Range
unfolding range_between
parse_range date s = range_between date s (cut_text s "..")

-- `expandRange`
unfoldable pub expand_range : (ℤ → String) → LoopValue → Range
expand_range date (items xs) = listed xs
expand_range date (range s) = parse_range date s
expand_range date (value s) = listed (s ∷ [])

-- The ranges of a loop, the key of the first that cannot be read, and what in it cannot, or a range that is not
-- listed.
pub data Dimensions : Type 0 where
  dimensions : List LoopDimension → Dimensions
  bad_dimension : (key raw : String) → Dimensions
  endless_dimension : Dimensions

abbrev add_dimension : String → Range → Dimensions → Dimensions
add_dimension key (bad_range raw) ds = bad_dimension key raw
add_dimension key endless ds = endless_dimension
add_dimension key (listed vs) endless_dimension = endless_dimension
add_dimension key (listed vs) (bad_dimension k raw) = bad_dimension k raw
add_dimension key (listed vs) (dimensions ds) = dimensions (record { key = key; values = vs } ∷ ds)

unfoldable pub loop_sets : (ℤ → String) → Assoc LoopValue → Dimensions
unfolding expand_range
loop_sets date [] = dimensions []
loop_sets date ((key, raw) ∷ loop) = add_dimension key (expand_range date raw) (loop_sets date loop)

-- The loop over what the other dimensions give.
unfoldable pub with_each : String → String → List (Assoc String) → List (Assoc String)
unfolding insert erase
with_each key v [] = []
with_each key v (r ∷ rest) = insert key v r ∷ with_each key v rest

unfoldable pub with_values : String → List String → List (Assoc String) → List (Assoc String)
unfolding with_each
with_values key [] rest = []
with_values key (v ∷ vs) rest = with_each key v rest ++ with_values key vs rest

-- `cartesianLoop`
unfoldable pub cartesian_loop : List LoopDimension → List (Assoc String)
unfolding with_values
cartesian_loop [] = [] ∷ []
cartesian_loop (d ∷ ds) = with_values d.key d.values (cartesian_loop ds)

unfoldable pub items_times : List String → List (Assoc String) → List Iteration
items_times [] cs = []
items_times (i ∷ is) cs = map (λ c. record { item = i; loop_vars = c }) cs ++ items_times is cs

-- No iterations for a step that runs once, or the iterations, or a loop that cannot be read; or no return.
pub data Iterations : Type 0 where
  once : Iterations
  iterations : List Iteration → Iterations
  no_iterations : (key raw : String) → Iterations
  never : Iterations

unfoldable pub count_of : List LoopDimension → ℕ
count_of [] = 1
count_of (d ∷ ds) = length d.values * count_of ds

-- Whether `make` takes the capacities of `cartesianLoop`, for pointers to maps.
unfoldable pub sizes_fit : List LoopDimension → Bool
unfolding count_of
sizes_fit [] = true
sizes_fit (d ∷ ds) = leb (count_of (d ∷ ds)) (max_capacity 8) && sizes_fit ds

abbrev pub count_items : List String → ℕ
count_items [] = 1
count_items (i ∷ is) = length (i ∷ is)

unfoldable pub list_iterations : List String → List LoopDimension → Iterations
unfolding items_times cartesian_loop
list_iterations [] [] = once
list_iterations [] (d ∷ ds) =
    iterations (map (λ c. record { item = ""; loop_vars = c }) (cartesian_loop (d ∷ ds)))
list_iterations (i ∷ is) [] = iterations (map (λ x. record { item = x; loop_vars = [] }) (i ∷ is))
list_iterations (i ∷ is) (d ∷ ds) = iterations (items_times (i ∷ is) (cartesian_loop (d ∷ ds)))

-- An iteration has 24 bytes.
unfoldable pub iterations_of : List String → Dimensions → Iterations
unfolding list_iterations sizes_fit count_of
iterations_of each (bad_dimension key raw) = no_iterations key raw
iterations_of each endless_dimension = never
iterations_of each (dimensions ds) =
    if sizes_fit ds && leb (count_items each * count_of ds) (max_capacity 24)
    then list_iterations each ds
    else never

-- `ExpandIterations`, with the ranges in the order that the map gives.
unfoldable pub expand_iterations : (ℤ → String) → Step → Iterations
unfolding iterations_of loop_sets
expand_iterations date step = iterations_of step.each (loop_sets date step.loop)
