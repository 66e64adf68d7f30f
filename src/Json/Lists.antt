-- ===== src/Json/Lists.antt =====
-- Reading back the items and fields that were written.
use reactifact.Prelude.{ℕ, String, ◌≡◌, refl, Option, none, some, List, [], ◌∷◌}
use reactifact.Result.{Result, ok}
use reactifact.Json.{
  Json, as_optional_text, optional_text, as_optional_num, optional_num, items_of, read_items,
  fields_of, read_fields,
}

pub optional_text_reads_back : (o : Option String) → as_optional_text (optional_text o) ≡ ok o
optional_text_reads_back none = refl
optional_text_reads_back (some t) = refl

pub optional_num_reads_back : (o : Option ℕ) → as_optional_num (optional_num o) ≡ ok o
optional_num_reads_back none = refl
optional_num_reads_back (some n) = refl

-- Every member of the list is read back as it was.
abbrev pub ReadsBack {ℓ} : {A : Type ℓ} → (A → Json) → (Json → Result A) → List A → Type ℓ
ReadsBack write read [] = Unit
ReadsBack write read (x ∷ xs) = (read (write x) ≡ ok x) × ReadsBack write read xs

abbrev pub ReadsBackValues {ℓ} :
    {A : Type ℓ} → (A → Json) → (Json → Result A) → List (String × A) → Type ℓ
ReadsBackValues write read [] = Unit
ReadsBackValues write read ((k, x) ∷ d) = (read (write x) ≡ ok x) × ReadsBackValues write read d

module _ {ℓ} {A : Type ℓ} (write : A → Json) (read : Json → Result A) where
  pub read_items-items_of :
      (xs : List A) → ReadsBack write read xs → read_items read (items_of write xs) ≡ ok xs
  unfolding read_items items_of
  read_items-items_of [] h = refl
  read_items-items_of (x ∷ xs) h = rw (h.0, read_items-items_of xs h.1) refl

  pub read_fields-fields_of :
      (d : List (String × A))
      → ReadsBackValues write read d
      → read_fields read (fields_of write d) ≡ ok d
  unfolding read_fields fields_of
  read_fields-fields_of [] h = refl
  read_fields-fields_of ((k, x) ∷ d) h = rw (h.0, read_fields-fields_of d h.1) refl

  pub ReadsBackValues-all :
      ((x : A) → read (write x) ≡ ok x) → (d : List (String × A)) → ReadsBackValues write read d
  ReadsBackValues-all h [] = tt
  ReadsBackValues-all h ((k, x) ∷ d) = (h x, ReadsBackValues-all h d)

  pub ReadsBack-all : ((x : A) → read (write x) ≡ ok x) → (xs : List A) → ReadsBack write read xs
  ReadsBack-all h [] = tt
  ReadsBack-all h (x ∷ xs) = (h x, ReadsBack-all h xs)
