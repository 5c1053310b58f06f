-- ===== src/Tool/Captured.antt =====
-- tool/helpers.go: what the writers have had, whatever the sizes of the writes.
use piglet.Prelude.{
  ℕ, zero, suc, ◌-◌, ◌≤◌, ◌≡◌, ◌≢◌, refl, sym, ap, ◌∙◌, inl, inr, List, [], ◌∷◌, ◌++◌, append-nil,
  append_assoc, arith, ltb, leb, ltb→le, leb→le, leb→lt, ◌==◌, Bool-cases, length, length-take,
  take,
}
use piglet.Tool.Pages.{split_lines, add_first}
use piglet.Tool.Paging.{split_lines-ne-nil}
use piglet.Tool.Output.{
  Bytes, BoundedWriter, bounded_write, LineTailWriter, trim_returns, flush_line, tap_byte, tap,
  tail_write, tail_write_all, concat, emit,
}

take_full {ℓ} :
    {A : Type ℓ} (n : ℕ) (xs ys : List A) → n ≤ length xs → take n (xs ++ ys) ≡ take n xs
take_full zero xs ys h = refl
take_full (suc n) [] ys h = absurd (omega arith)
take_full (suc n) (x ∷ xs) ys h = ap (λ t. x ∷ t) (take_full n xs ys (omega arith))

take_within {ℓ} :
    {A : Type ℓ} (n : ℕ) (xs ys : List A)
    → length xs ≤ n
    → take n (xs ++ ys) ≡ xs ++ take (n - length xs) ys
take_within n [] ys h = ap (λ k. take k ys) (omega arith)
take_within zero (x ∷ xs) ys h = absurd (omega arith)
take_within (suc n) (x ∷ xs) ys h =
    ap (λ t. x ∷ t) (take_within n xs ys (omega arith) ∙ ap (λ k. xs ++ take k ys) (omega arith))

take_short {ℓ} : {A : Type ℓ} (n : ℕ) (xs : List A) → length xs ≤ n → take n xs ≡ xs
take_short zero [] h = refl
take_short zero (x ∷ xs) h = absurd (omega arith)
take_short (suc n) [] h = refl
take_short (suc n) (x ∷ xs) h = ap (λ t. x ∷ t) (take_short n xs (omega arith))

bounded_write-take :
    (p : Bytes) (w : BoundedWriter)
    → length w.buf ≤ w.limit
    → (bounded_write p w).buf ≡ take w.limit (w.buf ++ p)
unfolding bounded_write
bounded_write-take p w h = elim (Bool-cases (leb w.limit (length w.buf))) [
  | inl full ↦ rw full (
      sym (
        take_full w.limit w.buf p (leb→le w.limit (length w.buf) full)
        ∙ take_short w.limit w.buf h))
  | inr room ↦
      rw (room, take_within w.limit w.buf p h)
        (elim (Bool-cases (ltb (w.limit - length w.buf) (length p))) [
          | inl over ↦ rw over
          | inr within ↦ rw (within, take_short (w.limit - length w.buf) p (ltb→le _ _ within))
        ])
]

bounded_write-limit : (p : Bytes) (w : BoundedWriter) → (bounded_write p w).limit ≡ w.limit
unfolding bounded_write
bounded_write-limit p w = ground arith

dst-tap_byte : (b : ℕ) (w : LineTailWriter) → (tap_byte b w).dst ≡ w.dst
unfolding tap_byte
dst-tap_byte b w = ground arith

dst-tap : (p : Bytes) (w : LineTailWriter) → (tap p w).dst ≡ w.dst
unfolding tap
dst-tap [] w = refl
dst-tap (b ∷ p) w = dst-tap p (tap_byte b w) ∙ dst-tap_byte b w

-- The lines that are shown.
abbrev keep : Bytes → List Bytes → List Bytes
keep [] ls = ls
keep (b ∷ l) ls = (b ∷ l) ∷ ls

pub visible : List Bytes → List Bytes
visible [] = []
visible (l ∷ ls) = keep (trim_returns l) (visible ls)

keep-append : (l : Bytes) (ls : List Bytes) → keep l ls ≡ keep l [] ++ ls
keep-append [] ls = refl
keep-append (b ∷ l) ls = refl

abbrev with_pending : Bytes → List Bytes → List Bytes
with_pending q [] = q ∷ []
with_pending q (l ∷ ls) = (q ++ l) ∷ ls

emit-keep : (line : Bytes) (lines : List Bytes) → emit line lines ≡ lines ++ keep line []
emit-keep [] lines = sym (append-nil lines)
emit-keep (b ∷ line) lines = refl

lines-flush_line : (w : LineTailWriter) → (flush_line w).lines ≡ w.lines ++ visible (w.pending ∷ [])
unfolding flush_line visible
lines-flush_line w = emit-keep (trim_returns w.pending) w.lines

pending-cons :
    (q : Bytes) (b : ℕ) (ls : List Bytes)
    → with_pending (q ++ (b ∷ [])) ls ≡ with_pending q (add_first b ls)
pending-cons q b [] = refl
pending-cons q b (l ∷ ls) = ap (λ t. t ∷ ls) (append_assoc q (b ∷ []) l)

with_pending_nil : (ls : List Bytes) → ls ≢ [] → with_pending [] ls ≡ ls
with_pending_nil [] h = absurd (h refl)
with_pending_nil (l ∷ ls) h = refl

tapped_newline :
    (q : Bytes) (lines ls : List Bytes)
    → ls ≢ []
    → emit (trim_returns q) lines ++ visible (with_pending [] ls)
      ≡ lines ++ visible ((q ++ []) ∷ ls)
unfolding visible
tapped_newline q lines ls h =
    rw (emit-keep (trim_returns q) lines, with_pending_nil ls h, append-nil q)
      (append_assoc lines (keep (trim_returns q) []) (visible ls)
        ∙ ap (λ t. lines ++ t) (sym (keep-append (trim_returns q) (visible ls))))

nil_split : (q : Bytes) → q ∷ [] ≡ with_pending q (split_lines [])
unfolding split_lines
nil_split q = ap (λ t. t ∷ []) (sym (append-nil q))

lines-tap_byte :
    (b : ℕ) (p : Bytes) (w : LineTailWriter)
    → (tap_byte b w).lines ++ visible (with_pending (tap_byte b w).pending (split_lines p))
      ≡ w.lines ++ visible (with_pending w.pending (split_lines (b ∷ p)))
unfolding tap_byte split_lines
lines-tap_byte b p w = elim (Bool-cases (b == 10)) [
  | inl newline ↦
      rw newline (tapped_newline w.pending w.lines (split_lines p) (split_lines-ne-nil p))
  | inr other ↦ rw other (ap (λ t. w.lines ++ visible t) (pending-cons w.pending b (split_lines p)))
]

tap-visible :
    (p : Bytes) (w : LineTailWriter)
    → (flush_line (tap p w)).lines ≡ w.lines ++ visible (with_pending w.pending (split_lines p))
unfolding tap
tap-visible [] w = lines-flush_line w ∙ ap (λ t. w.lines ++ visible t) (nil_split w.pending)
tap-visible (b ∷ p) w = tap-visible p (tap_byte b w) ∙ lines-tap_byte b p w

tap-append : (p q : Bytes) (w : LineTailWriter) → tap (p ++ q) w ≡ tap q (tap p w)
unfolding tap
tap-append [] q w = refl
tap-append (b ∷ p) q w = tap-append p q (tap_byte b w)

-- The writer with another sink, which the loop does not read.
tap_byte-sink :
    (b : ℕ) (w : LineTailWriter) (sink : BoundedWriter)
    → tap_byte b (record w { dst = sink }) ≡ record (tap_byte b w) { dst = sink }
unfolding tap_byte flush_line
tap_byte-sink b w sink = ground arith

tap-sink :
    (p : Bytes) (w : LineTailWriter) (sink : BoundedWriter)
    → tap p (record w { dst = sink }) ≡ record (tap p w) { dst = sink }
unfolding tap
tap-sink [] w sink = refl
tap-sink (b ∷ p) w sink = ap (tap p) (tap_byte-sink b w sink) ∙ tap-sink p (tap_byte b w) sink

bounded_write_all : List Bytes → BoundedWriter → BoundedWriter
bounded_write_all [] w = w
bounded_write_all (p ∷ ps) w = bounded_write_all ps (bounded_write p w)

take-take_append : (n : ℕ) (xs ys : Bytes) → take n (take n xs ++ ys) ≡ take n (xs ++ ys)
take-take_append n xs ys = elim (Bool-cases (leb (length xs) n)) [
  | inl short ↦ ap (λ t. take n (t ++ ys)) (take_short n xs (leb→le (length xs) n short))
  | inr long ↦
      let n_lt = leb→lt (length xs) n long in
      let full : length (take n xs) ≡ n = omega (arith, length-take n xs) in
      take_full n (take n xs) ys (omega arith)
      ∙ (take_short n (take n xs) (omega arith) ∙ sym (take_full n xs ys (omega arith)))
]

-- The sink has the first bytes of all that was written.
bounded_write_all-take :
    (ps : List Bytes) (w : BoundedWriter) (before : Bytes)
    → w.buf ≡ take w.limit before
    → (bounded_write_all ps w).buf ≡ take w.limit (before ++ concat ps)
unfolding bounded_write_all concat
bounded_write_all-take [] w before h = rw append-nil h
bounded_write_all-take (p ∷ ps) w before h =
    let short : length w.buf ≤ w.limit = omega (arith, ap length h, length-take w.limit before) in
    let same_limit = bounded_write-limit p w in
    let one : (bounded_write p w).buf ≡ take (bounded_write p w).limit (before ++ p) =
      rw same_limit (
        bounded_write-take p w short
        ∙ (ap (λ t. take w.limit (t ++ p)) h ∙ take-take_append w.limit before p)) in
    bounded_write_all-take ps (bounded_write p w) (before ++ p) one
    ∙ (ap (λ k. take k ((before ++ p) ++ concat ps)) same_limit
        ∙ ap (take w.limit) (append_assoc before p (concat ps)))

tap-nil : (w : LineTailWriter) → tap [] w ≡ w
unfolding tap
tap-nil w = refl

tail_write_all-tap :
    (ps : List Bytes) (w : LineTailWriter)
    → tail_write_all ps w ≡ record (tap (concat ps) w) { dst = bounded_write_all ps w.dst }
unfolding tail_write_all tail_write concat bounded_write_all
tail_write_all-tap [] w = ground (arith, tap-nil w)
tail_write_all-tap (p ∷ ps) w =
    tail_write_all-tap ps (tap p (record w { dst = bounded_write p w.dst }))
    ∙ rw (
      tap-sink p w (bounded_write p w.dst),
      tap-sink (concat ps) (tap p w) (bounded_write p w.dst),
      tap-append p (concat ps) w,
    )

take_none {ℓ} : {A : Type ℓ} (n : ℕ) → [] ≡ take {A = A} n []
take_none zero = refl
take_none (suc n) = refl

flush-sink :
    (w : LineTailWriter) (sink : BoundedWriter)
    → (flush_line (record w { dst = sink })).lines ≡ (flush_line w).lines
unfolding flush_line
flush-sink w sink = refl

-- The output of a command in writes of any sizes, on a new writer: what is kept is as many of its first bytes
-- as the limit says, and the lines that are shown, once the last one is flushed, are those of
-- all the output, also past the limit, without the returns at their ends and but for empty ones.
pub tail_write_all-lines :
    (ps : List Bytes) (limit : ℕ)
    → let w =
        tail_write_all ps
          (record { dst = record { buf = []; limit = limit }; pending = []; lines = [] }) in
      (w.dst.buf ≡ take limit (concat ps))
      × ((flush_line w).lines ≡ visible (split_lines (concat ps)))
tail_write_all-lines ps limit =
    let fresh : LineTailWriter = record {
      dst = record { buf = []; limit = limit };
      pending = [];
      lines = [];
    } in
    let e = tail_write_all-tap ps fresh in
    (
      ap (λ w. w.dst.buf) e ∙ bounded_write_all-take ps fresh.dst [] (take_none limit),
      ap (λ w. (flush_line w).lines) e
          ∙ (flush-sink (tap (concat ps) fresh) (bounded_write_all ps fresh.dst)
              ∙ (tap-visible (concat ps) fresh
                  ∙ ap visible (
                      with_pending_nil (split_lines (concat ps))
                        (split_lines-ne-nil (concat ps))))),
    )
