-- ===== src/Json.antt =====
-- Decoded JSON, as `json.loads` and the Matrix client library hand it to the program: Python's
-- `dict`, `list`, `str`, `int`, `float`, `bool` and `None`.
-- A `float` carries no value: the modelled code only tells it from the other kinds.
use matrix_federation_scanne.Prelude.{
  ℕ, Bool, true, false, Option, none, some, String, str_eq, if◌then◌else◌, List, [], ◌∷◌,
}
use matrix_federation_scanne.Prelude.Text.{Text}

-- Python's unbounded `int`: `negsuc n` is -(n + 1).
pub data ℤ : Type 0 where
  pos : ℕ → ℤ
  negsuc : ℕ → ℤ

mutual
  pub data Json : Type 0 where
    null : Json
    bool : Bool → Json
    int : ℤ → Json
    float : Json
    str : Text → Json
    arr : Items → Json
    obj : Fields → Json

  pub data Items : Type 0 where
    nil : Items
    cons : Json → Items → Items

  -- The keys of a `dict` are distinct; the first entry of a key is the one that is read.
  pub data Fields : Type 0 where
    end : Fields
    field : String → Json → Fields → Fields

-- `d.get(key)`, `none` where the key is missing.
unfoldable pub find : String → Fields → Option Json
find key end = none
find key (field k v rest) = if str_eq k key then some v else find key rest

-- `d.get(key, default)`.
unfoldable pub get_or : String → Json → Fields → Json
unfolding find
get_or key default d = elim (find key d) [ none ↦ default | some v ↦ v ]

abbrev pub to_list : Items → List Json
to_list nil = []
to_list (cons j js) = j ∷ to_list js

abbrev pub is_end : Fields → Bool
is_end end = true
is_end (field k v rest) = false
