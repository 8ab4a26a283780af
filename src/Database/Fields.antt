-- ===== src/Database/Fields.antt =====
-- The payload dicts of embers/core, which embers/db.py keeps as the data of records: reading and
-- overriding their keys. The classes of embers/core declare the types of their fields, and payloads
-- are read at those types: a value of another type gives `value_error` here. A list of pairs, which
-- `dict` would also take, counts as no dict.
use embers_diaries.Prelude.{
  eq_iff, arith, refl, String, false, Option, none, some, List, [], ◌∷◌, ◌==◌, if◌then◌else◌,
  nat_eq, ◌||◌, ◌≡◌,
}
use embers_diaries.Core.Record.{
  Value, Items, Fields, Time, null, flag, int, float, text, list, dict, nil, cons, end, field,
}
use embers_diaries.Core.Result.{Result, ok, err, value_error, key_error}

-- `d.get(k)`
unfoldable pub get_field : Fields → String → Option Value
get_field end k = none
get_field (field j v d) k = let rest = get_field d k in if j == k then some v else rest

-- `{**d, k: v}`
unfoldable pub put_field : Fields → String → Value → Fields
put_field end k v = field k v end
put_field (field j w d) k v =
    let rest = put_field d k v in if j == k then field j v d else field j w rest

pub get_field-put_field :
    (d : Fields) (k l : String) (v : Value)
    → get_field (put_field d k v) l ≡ (if k == l then some v else get_field d l)
unfolding get_field put_field
get_field-put_field end k l v = refl
get_field-put_field (field j w d) k l v =
    ground (arith, eq_iff j k, eq_iff j l, eq_iff k l, get_field-put_field d k l v)

-- `dict(data or {})`: what is falsy counts as no data.
unfoldable pub as_dict : Value → Result Fields
as_dict null = ok end
as_dict (dict d) = ok d
as_dict (flag b) = if b then err value_error else ok end
as_dict (int n) = if nat_eq n 0 then ok end else err value_error
as_dict (float x) = if nat_eq x 0 || nat_eq x 0x8000000000000000 then ok end else err value_error
as_dict (text s) = if s == "" then ok end else err value_error
as_dict (list nil) = ok end
as_dict (list (cons v vs)) = err value_error

-- `d.get(k, default)`, for a text.
text_of : String → Option Value → Result String
text_of default none = ok default
text_of default (some (text s)) = ok s
text_of default (some _) = err value_error

unfoldable pub text_at : Fields → String → String → Result String
unfolding text_of
text_at d k default = text_of default (get_field d k)

-- `d[k]`, of a text.
unfoldable pub required_text : Fields → String → Result String
required_text d k = elim (get_field d k) [ none ↦ err key_error | some v ↦ text_at d k "" ]

-- `d.get(k)`, for a text or None.
optional_of : Option Value → Result (Option String)
optional_of none = ok none
optional_of (some null) = ok none
optional_of (some (text s)) = ok (some s)
optional_of (some _) = err value_error

unfoldable pub optional_at : Fields → String → Result (Option String)
unfolding optional_of
optional_at d k = optional_of (get_field d k)

-- `d.get(k, [])`, for a list of texts.
unfoldable pub texts_in : Items → Result (List String)
texts_in nil = ok []
texts_in (cons (text s) vs) = elim (texts_in vs) [ ok rest ↦ ok (s ∷ rest) | err e ↦ err e ]
texts_in (cons _ vs) = err value_error

texts_of : Option Value → Result (List String)
texts_of none = ok []
texts_of (some (list vs)) = texts_in vs
texts_of (some _) = err value_error

unfoldable pub texts_at : Fields → String → Result (List String)
unfolding texts_of
texts_at d k = texts_of (get_field d k)

-- `list(xs)` as a payload holds it.
unfoldable pub of_texts : List String → Items
of_texts [] = nil
of_texts (x ∷ xs) = cons (text x) (of_texts xs)

abbrev pub of_optional : Option String → Value
of_optional none = null
of_optional (some s) = text s

-- `datetime.isoformat` and `datetime.fromisoformat`, of Python's library.
pub record IsoFormat : Type 0 where
  pub isoformat : Time → String
  pub fromisoformat : String → Result Time

module _ ⦃i : IsoFormat⦄ where
  -- `fromisoformat(d[k]) if d.get(k) else default`
  time_of : Option Time → Option Value → Result (Option Time)
  time_of default none = ok default
  time_of default (some null) = ok default
  time_of default (some (text s)) =
      if s == ""
      then ok default
      else (elim (i.fromisoformat s) [ ok t ↦ ok (some t) | err e ↦ err e ])
  time_of default (some _) = err value_error

  unfoldable pub time_at : Fields → String → Option Time → Result (Option Time)
  unfolding time_of
  time_at d k default = time_of default (get_field d k)

  abbrev pub of_time : Option Time → Value
  of_time none = null
  of_time (some t) = text (i.isoformat t)

  -- What a payload needs of the format: a time that is printed is read back, and not the empty text.
  abbrev pub Shows : Time → Type 0
  Shows t = (i.fromisoformat (i.isoformat t) ≡ ok t) × ((i.isoformat t == "") ≡ false)
