-- ===== src/Json.antt =====
-- JSON values, as the free-form columns of the models hold them.
use text.Mathlib.Text.{◌==◌ as str_eq}
use agent_on_demand.Prelude.{
  ℕ, zero, suc, ◌+◌, ◌==◌, ℤ, pos, negsuc, String, Bool, true, false, ◌&&◌, Option, none, some,
  List, [], ◌∷◌, if◌then◌else◌,
}

mutual
  pub data Json : Type 0 where
    null : Json
    bool : Bool → Json
    int : ℤ → Json
    str : String → Json
    arr : Items → Json
    obj : Fields → Json

  pub data Items : Type 0 where
    nil : Items
    cons : Json → Items → Items

  pub data Fields : Type 0 where
    end : Fields
    field : String → Json → Fields → Fields

abbrev pub items : Items → List Json
items nil = []
items (cons v vs) = v ∷ items vs

abbrev pub fields : Fields → List (String × Json)
fields end = []
fields (field k v fs) = (k, v) ∷ fields fs

-- `d.get(k)`.
unfoldable pub lookup : String → Fields → Option Json
lookup k end = none
lookup k (field j v fs) = if str_eq j k then some v else lookup k fs

-- `d.get(k, default)`.
abbrev pub or_default : Json → Option Json → Json
or_default d none = d
or_default d (some v) = v

-- `{k: v for k, v in d.items() if k != …}`.
unfoldable pub without : String → Fields → Fields
without k end = end
without k (field j v fs) = let rest = without k fs in if str_eq j k then rest else field j v rest

abbrev width : Fields → ℕ
width end = 0
width (field k v fs) = width fs + 1

-- Python's `==`: the order of a dict's keys does not count, and True and False equal 1 and 0.
unfoldable mutual
  pub json_eq : Json → Json → Bool
  json_eq null null = true
  json_eq (bool true) (bool true) = true
  json_eq (bool false) (bool false) = true
  json_eq (bool true) (int (pos (suc zero))) = true
  json_eq (bool false) (int (pos zero)) = true
  json_eq (int (pos (suc zero))) (bool true) = true
  json_eq (int (pos zero)) (bool false) = true
  json_eq (int (pos m)) (int (pos n)) = m == n
  json_eq (int (negsuc m)) (int (negsuc n)) = m == n
  json_eq (str s) (str t) = str_eq s t
  json_eq (arr xs) (arr ys) = items_eq xs ys
  json_eq (obj fs) (obj gs) = width fs == width gs && fields_within fs gs
  json_eq _ _ = false

  pub items_eq : Items → Items → Bool
  items_eq nil nil = true
  items_eq (cons x xs) (cons y ys) = json_eq x y && items_eq xs ys
  items_eq _ _ = false

  pub fields_within : Fields → Fields → Bool
  fields_within end gs = true
  fields_within (field k v fs) gs =
      elim (lookup k gs) [ none ↦ false | some w ↦ json_eq v w ] && fields_within fs gs
