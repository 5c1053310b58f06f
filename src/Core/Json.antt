-- ===== src/Core/Json.antt =====
-- Parsed JSON documents, and what `encoding/json` of Go's standard library does when it stores one
-- into a struct: a missing key and a `null` leave the field at its zero value, a value of another
-- type is an error, and of a repeated key the last one counts.
use piglet.Prelude.{
  ℕ, String, ◌≡◌, refl, Bool, true, false, ◌&&◌, Option, none, some, List, [], ◌∷◌, str_eq,
  if◌then◌else◌, ap,
}

mutual
  pub data Json : Type 0 where
    null : Json
    bool : Bool → Json
    num : ℕ → Json
    str : String → Json
    arr : Items → Json
    obj : Fields → Json

  pub data Items : Type 0 where
    nil : Items
    cons : Json → Items → Items

  pub data Fields : Type 0 where
    end : Fields
    field : String → Json → Fields → Fields

unfoldable pub is_null : Json → Bool
is_null null = true
is_null _ = false

-- The value under a key, `null` when there is none.
unfoldable pub get : String → Fields → Json
unfolding is_null
get k end = null
get k (field j v rest) = let later = get k rest in if str_eq j k && is_null later then v else later

unfoldable pub to_items : List Json → Items
to_items [] = nil
to_items (x ∷ xs) = cons x (to_items xs)

unfoldable pub of_items : Items → List Json
of_items nil = []
of_items (cons x xs) = x ∷ of_items xs

pub of_items-to_items : (xs : List Json) → of_items (to_items xs) ≡ xs
unfolding to_items of_items
of_items-to_items [] = refl
of_items-to_items (x ∷ xs) = ap (λ t. x ∷ t) (of_items-to_items xs)

-- `json.Unmarshal` into a `string`, a `bool`, a number, a slice, and a struct or map.
unfoldable pub as_str : Json → Option String
as_str null = some ""
as_str (str s) = some s
as_str _ = none

unfoldable pub as_bool : Json → Option Bool
as_bool null = some false
as_bool (bool b) = some b
as_bool _ = none

unfoldable pub as_num : Json → Option ℕ
as_num null = some 0
as_num (num n) = some n
as_num _ = none

unfoldable pub as_list : Json → Option (List Json)
unfolding of_items
as_list null = some []
as_list (arr xs) = some (of_items xs)
as_list _ = none

unfoldable pub as_obj : Json → Option Fields
as_obj null = some end
as_obj (obj fs) = some fs
as_obj _ = none

-- A map keeps the difference between `null` and an empty object.
unfoldable pub as_map : Json → Option (Option Fields)
as_map null = some none
as_map (obj fs) = some (some fs)
as_map _ = none

unfoldable pub of_map : Option Fields → Json
of_map none = null
of_map (some fs) = obj fs

pub as_map-of_map : (m : Option Fields) → as_map (of_map m) ≡ some m
unfolding as_map of_map
as_map-of_map none = refl
as_map-of_map (some fs) = refl

-- What a probe struct holds after an `Unmarshal` whose error is ignored.
unfoldable pub probe : String → Json → String
unfolding get
probe k (obj fs) = elim (get k fs) [ str s ↦ s | _ ↦ "" ]
probe k _ = ""
