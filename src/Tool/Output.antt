-- ===== src/Tool/Output.antt =====
-- tool/helpers.go: the writers that take the output of a command, in bytes.
use piglet.Prelude.{
  ℕ, ◌-◌, Bool, true, false, List, [], ◌∷◌, ◌++◌, ltb, leb, ◌==◌, if◌then◌else◌, length, take,
}

abbrev pub Bytes : Type 0
Bytes = List ℕ

pub record BoundedWriter : Type 0 where
  pub buf : Bytes
  pub limit : ℕ

-- `boundedWriter.Write`
unfoldable pub bounded_write : Bytes → BoundedWriter → BoundedWriter
bounded_write p w =
    let rem = w.limit - length w.buf in
    if leb w.limit (length w.buf)
    then w
    else record w { buf = w.buf ++ (if ltb rem (length p) then take rem p else p) }

-- `Truncated`
unfoldable pub is_truncated : BoundedWriter → Bool
is_truncated w = leb w.limit (length w.buf)

-- The lineTailWriter: its sink, the line that is not yet ended, and the lines that onLine has had.
pub record LineTailWriter : Type 0 where
  pub dst : BoundedWriter
  pub pending : Bytes
  pub lines : List Bytes

unfoldable pub all_returns : Bytes → Bool
all_returns [] = true
all_returns (b ∷ p) = let rest = all_returns p in if b == 13 then rest else false

-- `strings.TrimRight(line, "\r")`
unfoldable pub trim_returns : Bytes → Bytes
unfolding all_returns
trim_returns [] = []
trim_returns (b ∷ p) = let rest = trim_returns p in if all_returns (b ∷ p) then [] else b ∷ rest

abbrev pub emit : Bytes → List Bytes → List Bytes
emit [] lines = lines
emit (b ∷ line) lines = lines ++ ((b ∷ line) ∷ [])

-- `flushLine`
unfoldable pub flush_line : LineTailWriter → LineTailWriter
unfolding trim_returns
flush_line w = record w { pending = []; lines = emit (trim_returns w.pending) w.lines }

unfoldable pub tap_byte : ℕ → LineTailWriter → LineTailWriter
unfolding flush_line
tap_byte b w = if b == 10 then flush_line w else record w { pending = w.pending ++ (b ∷ []) }

-- The loop of `lineTailWriter.Write`.
unfoldable pub tap : Bytes → LineTailWriter → LineTailWriter
unfolding tap_byte
tap [] w = w
tap (b ∷ p) w = tap p (tap_byte b w)

-- `lineTailWriter.Write`
unfoldable pub tail_write : Bytes → LineTailWriter → LineTailWriter
unfolding bounded_write tap
tail_write p w = tap p (record w { dst = bounded_write p w.dst })

-- The writes of a command in their order.
unfoldable pub tail_write_all : List Bytes → LineTailWriter → LineTailWriter
unfolding tail_write
tail_write_all [] w = w
tail_write_all (p ∷ ps) w = tail_write_all ps (tail_write p w)

unfoldable pub concat : List Bytes → Bytes
concat [] = []
concat (p ∷ ps) = p ++ concat ps
