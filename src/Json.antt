-- ===== src/Json.antt =====
-- The values that Python's `json` module reads and writes, and the ways in which the loaders take
-- them apart. A value of a shape that the loader does not expect raises here where it is read;
-- Python may carry it on untyped.
pub mod Lists
use reactifact.Prelude.{
  ℕ, String, Bool, true, false, Option, none, some, List, [], ◌∷◌, ◌==◌, if◌then◌else◌, string_eq,
}
use reactifact.Prelude.Dict.{Dict}
use reactifact.Result.{Result, ok, err, key_error, type_error, ◌>>=◌}

mutual
  pub data Json : Type 0 where
    null : Json
    flag : Bool → Json
    num : ℕ → Json
    text : String → Json
    arr : Items → Json
    obj : Fields → Json

  pub data Items : Type 0 where
    nil : Items
    cons : Json → Items → Items

  pub data Fields : Type 0 where
    end : Fields
    field : String → Json → Fields → Fields

unfoldable pub find : String → Fields → Option Json
find k end = none
find k (field j v fs) = if j == k then some v else find k fs

-- `d[k]`
unfoldable pub item : String → Json → Result Json
unfolding find
item k (obj fs) = elim (find k fs) [ none ↦ err key_error | some v ↦ ok v ]
item k v = err type_error

-- `d.get(k, default)`
unfoldable pub item_or : Json → String → Json → Result Json
unfolding find
item_or default k (obj fs) = elim (find k fs) [ none ↦ ok default | some v ↦ ok v ]
item_or default k v = err type_error

abbrev pub as_text : Json → Result String
as_text (text s) = ok s
as_text v = err type_error

abbrev pub as_num : Json → Result ℕ
as_num (num n) = ok n
as_num v = err type_error

abbrev pub as_optional_text : Json → Result (Option String)
as_optional_text null = ok none
as_optional_text (text s) = ok (some s)
as_optional_text v = err type_error

abbrev pub as_optional_num : Json → Result (Option ℕ)
as_optional_num null = ok none
as_optional_num (num n) = ok (some n)
as_optional_num v = err type_error

abbrev pub optional_text : Option String → Json
optional_text none = null
optional_text (some s) = text s

abbrev pub optional_num : Option ℕ → Json
optional_num none = null
optional_num (some n) = num n

unfoldable pub text_at : String → Json → Result String
unfolding item
text_at k d = item k d >>= as_text

unfoldable pub num_at : String → Json → Result ℕ
unfolding item
num_at k d = item k d >>= as_num

-- `d.get(k)` of a field that may be `None`
unfoldable pub optional_text_at : String → Json → Result (Option String)
unfolding item_or
optional_text_at k d = item_or null k d >>= as_optional_text

unfoldable pub optional_num_at : String → Json → Result (Option ℕ)
unfolding item_or
optional_num_at k d = item_or null k d >>= as_optional_num

-- The list and dict comprehensions of the loaders and of their opposites.
module _ {ℓ} {A : Type ℓ} where
  unfoldable pub items_of : (A → Json) → List A → Items
  items_of write [] = nil
  items_of write (x ∷ xs) = cons (write x) (items_of write xs)

  unfoldable pub read_items : (Json → Result A) → Items → Result (List A)
  read_items read nil = ok []
  read_items read (cons v vs) = read v >>= λ x. read_items read vs >>= λ xs. ok (x ∷ xs)

  unfoldable pub fields_of : (A → Json) → List (String × A) → Fields
  fields_of write [] = end
  fields_of write ((k, x) ∷ d) = field k (write x) (fields_of write d)

  unfoldable pub read_fields : (Json → Result A) → Fields → Result (List (String × A))
  read_fields read end = ok []
  read_fields read (field k v fs) = read v >>= λ x. read_fields read fs >>= λ d. ok ((k, x) ∷ d)

  abbrev pub as_list : (Json → Result A) → Json → Result (List A)
  as_list read (arr vs) = read_items read vs
  as_list read v = err type_error

  abbrev pub as_dict : (Json → Result A) → Json → Result (List (String × A))
  as_dict read (obj fs) = read_fields read fs
  as_dict read v = err type_error

  unfoldable pub list_at : (Json → Result A) → String → Json → Result (List A)
  unfolding item
  list_at read k d = item k d >>= as_list read

  -- `d.get(k, [])`
  unfoldable pub optional_list_at : (Json → Result A) → String → Json → Result (List A)
  unfolding item_or
  optional_list_at read k d = item_or (arr nil) k d >>= as_list read

  unfoldable pub dict_at : (Json → Result A) → String → Json → Result (List (String × A))
  unfolding item
  dict_at read k d = item k d >>= as_dict read
