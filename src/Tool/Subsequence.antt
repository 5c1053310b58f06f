-- ===== src/Tool/Subsequence.antt =====
-- tool/diff_meta.go: the longest common subsequences of two lists of lines.
use piglet.Prelude.{
  ℕ, suc, ◌≤◌, ◌≡◌, refl, subst, inl, inr, true, List, [], ◌∷◌, arith, leb, if◌then◌else◌,
  Bool-cases,
}
use piglet.Tool.Runes.{Runes, same, same→eq}

-- A common subsequence of so many lines.
pub data Common : List Runes → List Runes → ℕ → Type 0 where
  done : (a b : List Runes) → Common a b 0
  both : (x : Runes) (a b : List Runes) (n : ℕ) → Common a b n → Common (x ∷ a) (x ∷ b) (suc n)
  left : (x : Runes) (a b : List Runes) (n : ℕ) → Common a b n → Common (x ∷ a) b n
  right : (y : Runes) (a b : List Runes) (n : ℕ) → Common a b n → Common a (y ∷ b) n

-- The length of a longest one, by plain recursion.
unfoldable pub lcs : List Runes → List Runes → ℕ
lcs [] b = 0
lcs (x ∷ a) [] = 0
lcs (x ∷ a) (y ∷ b) =
    let equal = suc (lcs a b) in
    let above = lcs a (y ∷ b) in
    let beside = lcs (x ∷ a) b in
    if same x y then equal else if leb beside above then above else beside

same_refl : (x : Runes) → same x x ≡ true
unfolding same
same_refl [] = refl
same_refl (c ∷ x) = ground (arith, same_refl x)

pub lcs-nil : (a : List Runes) → lcs a [] ≡ 0
unfolding lcs
lcs-nil [] = refl
lcs-nil (x ∷ a) = refl

pub nil-lcs : (b : List Runes) → lcs [] b ≡ 0
unfolding lcs
nil-lcs b = refl

abbrev Bounds : List Runes → List Runes → Runes → Runes → Type 0
Bounds a b x y =
    (lcs a b ≤ lcs (x ∷ a) b)
    × (lcs a b ≤ lcs a (y ∷ b))
    × (lcs (x ∷ a) b ≤ suc (lcs a b))
    × (lcs a (y ∷ b) ≤ suc (lcs a b))

left_step :
    (x z : Runes) (a b : List Runes)
    → Bounds a b x z
    → (lcs a (z ∷ b) ≤ lcs (x ∷ a) (z ∷ b)) × (lcs (x ∷ a) (z ∷ b) ≤ suc (lcs a (z ∷ b)))
unfolding lcs
left_step x z a b h = elim (Bool-cases (same x z)) [
  | inl equal ↦ rw equal (omega arith, omega arith)
  | inr differs ↦ rw differs (ground arith)
]

right_step :
    (w y : Runes) (a b : List Runes)
    → Bounds a b w y
    → (lcs (w ∷ a) b ≤ lcs (w ∷ a) (y ∷ b)) × (lcs (w ∷ a) (y ∷ b) ≤ suc (lcs (w ∷ a) b))
unfolding lcs
right_step w y a b h = elim (Bool-cases (same w y)) [
  | inl equal ↦ rw equal (omega arith, omega arith)
  | inr differs ↦ rw differs (ground arith)
]

-- A line more adds at most one and takes nothing away.
lcs-Bounds : (a b : List Runes) (x y : Runes) → Bounds a b x y
lcs-Bounds [] [] x y = omega (arith, lcs-nil [], lcs-nil (x ∷ []), nil-lcs [], nil-lcs (y ∷ []))
lcs-Bounds [] (z ∷ b) x y =
    let l = left_step x z [] b (lcs-Bounds [] b x z) in
    (l.0, omega (arith, nil-lcs (z ∷ b)), l.1, omega (arith, nil-lcs (y ∷ z ∷ b)))
lcs-Bounds (w ∷ a) [] x y =
    let r = right_step w y a [] (lcs-Bounds a [] w y) in
    (omega (arith, lcs-nil (w ∷ a)), r.0, omega (arith, lcs-nil (x ∷ w ∷ a)), r.1)
lcs-Bounds (w ∷ a) (z ∷ b) x y =
    let l = left_step x z (w ∷ a) b (lcs-Bounds (w ∷ a) b x z) in
    let r = right_step w y a (z ∷ b) (lcs-Bounds a (z ∷ b) w y) in (l.0, r.0, l.1, r.1)

pub Common-le-lcs : {a b : List Runes} {n : ℕ} → Common a b n → n ≤ lcs a b
unfolding lcs
Common-le-lcs (done a b) = omega arith
Common-le-lcs (both x a b n c) = ground (arith, same_refl x, Common-le-lcs c)
Common-le-lcs (left x a b n c) = omega (arith, Common-le-lcs c, lcs-Bounds a b x x)
Common-le-lcs (right y a b n c) = omega (arith, Common-le-lcs c, lcs-Bounds a b y y)

pub lcs-Common : (a b : List Runes) → Common a b (lcs a b)
unfolding lcs
lcs-Common [] b = done [] b
lcs-Common (x ∷ a) [] = done (x ∷ a) []
lcs-Common (x ∷ a) (y ∷ b) = elim (Bool-cases (same x y)) [
  | inl equal ↦ rw equal (
      subst (λ z. Common (x ∷ a) (z ∷ b) (suc (lcs a b))) (same→eq x y equal)
        (both x a b (lcs a b) (lcs-Common a b)))
  | inr differs ↦ elim (Bool-cases (leb (lcs (x ∷ a) b) (lcs a (y ∷ b)))) [
    | inl above ↦ rw (differs, above) (left x a (y ∷ b) (lcs a (y ∷ b)) (lcs-Common a (y ∷ b)))
    | inr beside ↦ rw (differs, beside) (right y (x ∷ a) b (lcs (x ∷ a) b) (lcs-Common (x ∷ a) b))
  ]
]
