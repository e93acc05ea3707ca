-- ===== src/Database/Columns.antt =====
-- The values that the JSON columns of src/infrastructure/database/mappers.py hold.
use agentic_gpu_platform.Shared.{
  Bool, Fields, Items, Json, List, Option, String, [], array, bool, end, false, field, get_field,
  if◌then◌else◌, is_true, item, negsuc, nil, none, null, number, object, pos, refl, some, suc, text,
  true, zero, ℕ, ℤ, ◌∷◌, ◌≡◌,
}
use agentic_gpu_platform.Errors.{Result, missing_key, ok, raise, type_error, ◌>>=◌}

abbrev pub of_nat : ℕ → Json
of_nat n = number n false 0

abbrev pub of_optional : Option String → Json
of_optional none = null
of_optional (some s) = text s

unfoldable pub as_nat : Json → Result ℕ
as_nat (number n false zero) = ok n
as_nat _ = raise (type_error "not a natural number")

unfoldable pub as_flag : Json → Result Bool
as_flag (bool b) = ok b
as_flag _ = raise (type_error "not a Boolean")

unfoldable pub as_text : Json → Result String
as_text (text s) = ok s
as_text _ = raise (type_error "not a text")

unfoldable pub as_optional : Json → Result (Option String)
as_optional null = ok none
as_optional (text s) = ok (some s)
as_optional _ = raise (type_error "not a text")

-- `raw.get(key, default)`, read as a value of the type that the mapper writes.
unfoldable pub at : {A : Type 0} → (Json → Result A) → A → (key : String) → Fields → Result A
unfolding get_field
at read default key raw = elim (get_field key raw) [ none ↦ ok default | some v ↦ read v ]

-- `raw[key]`
unfoldable pub need : {A : Type 0} → (Json → Result A) → (key : String) → Fields → Result A
unfolding get_field
need read key raw = elim (get_field key raw) [ none ↦ raise (missing_key key) | some v ↦ read v ]

pub as_optional-of_optional : (s : Option String) → as_optional (of_optional s) ≡ ok s
unfolding as_optional
as_optional-of_optional none = refl
as_optional-of_optional (some s) = refl

abbrev pub of_int : ℤ → Json
of_int (pos n) = number n false 0
of_int (negsuc n) = number (suc n) true 0

unfoldable pub as_int : Json → Result ℤ
as_int (number n false zero) = ok (pos n)
as_int (number (suc n) true zero) = ok (negsuc n)
as_int _ = raise (type_error "not an integer")

pub as_int-of_int : (i : ℤ) → as_int (of_int i) ≡ ok i
unfolding as_int
as_int-of_int (pos n) = refl
as_int-of_int (negsuc n) = refl

unfoldable pub as_object : Json → Result Fields
as_object (object fs) = ok fs
as_object _ = raise (type_error "not an object")

unfoldable pub as_array : Json → Result Items
as_array (array js) = ok js
as_array _ = raise (type_error "not an array")

-- `dict(value or {})`
unfoldable pub as_mapping : Json → Result Fields
unfolding is_true as_object
as_mapping v = if is_true v then as_object v else ok end

module _ {A : Type 0} where
  -- A list of values, each in its JSON form.
  unfoldable pub dump_items : (dump : A → Json) → List A → Items
  dump_items dump [] = nil
  dump_items dump (x ∷ xs) = item (dump x) (dump_items dump xs)

  unfoldable pub load_items : (load : Json → Result A) → Items → Result (List A)
  load_items load nil = ok []
  load_items load (item j js) =
      let rest = load_items load js in load j >>= λ x. rest >>= λ xs. ok (x ∷ xs)

  pub load_items-dump_items :
      (dump : A → Json) (load : Json → Result A)
      → ((x : A) → load (dump x) ≡ ok x)
      → (xs : List A) → load_items load (dump_items dump xs) ≡ ok xs
  unfolding load_items dump_items
  load_items-dump_items dump load h [] = refl
  load_items-dump_items dump load h (x ∷ xs) = rw (h x, load_items-dump_items dump load h xs) refl

-- A list of texts.
unfoldable pub load_texts : Json → Result (List String)
unfolding as_array load_items as_text
load_texts v = as_array v >>= load_items as_text

pub load_texts-restored : (xs : List String) → load_texts (array (dump_items text xs)) ≡ ok xs
unfolding load_texts
load_texts-restored xs = load_items-dump_items text as_text (λ s. unfold as_text in refl) xs

pub as_mapping-restored : (fs : Fields) → as_mapping (object fs) ≡ ok fs
unfolding as_mapping
as_mapping-restored end = refl
as_mapping-restored (field k v fs) = refl
