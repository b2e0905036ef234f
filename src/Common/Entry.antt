-- ===== src/Common/Entry.antt =====
-- labgrid/remote/common.py: `set_map_from_dict`, `build_dict_from_map` and `ResourceEntry`.
pub mod Laws
use labgrid.Prelude.{
  ℕ, ◌^◌, ◌≡◌, Bool, true, false, List, [], ◌∷◌, String, Option, none, some, if◌then◌else◌, ltb,
  leb, string_eq, Outcome, ok, raised, ◌>>=◌, ◌>>◌, check, value_error, assertion_error,
}
use labgrid.Prelude.Int.{ℤ, pos, negsuc}
use labgrid.Prelude.Text.{str_empty}
use labgrid.Prelude.Dict.{Dict, put}

-- A Python value. A float is its bit pattern; `other` is a list or another object.
pub data Value : Type 0 where
  none_value : Value
  bool : Bool → Value
  int : ℤ → Value
  float : ℕ → Value
  str : String → Value
  other : Value

-- The `kind` of a `MapValue` message.
pub data MapValue : Type 0 where
  unset : MapValue
  bool_value : Bool → MapValue
  int_value : ℤ → MapValue
  uint_value : ℕ → MapValue
  float_value : ℕ → MapValue
  string_value : String → MapValue

-- A value outside `uint64` or `int64` is refused by the message with a ValueError.
to_map_value : Value → Outcome MapValue
to_map_value none_value = ok unset
to_map_value (bool b) = ok (bool_value b)
to_map_value (int (pos n)) = if ltb n (2 ^ 64) then ok (uint_value n) else raised value_error
to_map_value (int (negsuc n)) =
    if ltb n (2 ^ 63) then ok (int_value (negsuc n)) else raised value_error
to_map_value (float bits) = ok (float_value bits)
to_map_value (str s) = ok (string_value s)
to_map_value other = raised value_error

-- The loop over `d.items()`: a message's map is a dict.
unfoldable pub set_map_from_dict :
    Dict String MapValue → Dict String Value → Outcome (Dict String MapValue)
unfolding to_map_value put
set_map_from_dict m [] = ok m
set_map_from_dict m ((k, v) ∷ d) = to_map_value v >>= λ w. set_map_from_dict (put k w m) d

of_map_value : MapValue → Value
of_map_value unset = none_value
of_map_value (bool_value b) = bool b
of_map_value (int_value n) = int n
of_map_value (uint_value n) = int (pos n)
of_map_value (float_value bits) = float bits
of_map_value (string_value s) = str s

unfoldable pub build_dict_from_map : Dict String Value → Dict String MapValue → Dict String Value
unfolding of_map_value put
build_dict_from_map d [] = d
build_dict_from_map d ((k, v) ∷ m) = build_dict_from_map (put k (of_map_value v) d) m

-- The `data` of a `ResourceEntry`. `params["extra"]` is a dict of its own and stands in a field.
pub record ResourceData : Type 0 where
  pub cls : String
  pub params : Dict String Value
  pub extra : Option (Dict String Value)
  pub acquired : Option String
  pub avail : Bool

-- The `Resource` message without its path. `acquired` is a plain string: unset is empty.
pub record ResourceMsg : Type 0 where
  pub cls : String
  pub params : Dict String MapValue
  pub extra : Dict String MapValue
  pub acquired : String
  pub avail : Bool

abbrev pub or_empty : Option String → String
or_empty none = ""
or_empty (some s) = s

-- `s or None`
abbrev pub or_none : String → Option String
or_none s = if str_empty s then none else some s

-- `params.pop("extra", {})`
abbrev or_no_extra : Option (Dict String Value) → Dict String Value
or_no_extra none = []
or_no_extra (some d) = d

unfoldable pub as_pb2 : ResourceData → Outcome ResourceMsg
unfolding set_map_from_dict
as_pb2 r = do
  params ← set_map_from_dict [] r.params
  extra ← set_map_from_dict [] (or_no_extra r.extra)
  ok (record {
    cls = r.cls;
    params = params;
    extra = extra;
    acquired = or_empty r.acquired;
    avail = r.avail;
  })

unfoldable pub data_from_pb2 : ResourceMsg → ResourceData
unfolding build_dict_from_map
data_from_pb2 m = record {
  cls = m.cls;
  params = build_dict_from_map [] m.params;
  extra = some (build_dict_from_map [] m.extra);
  acquired = or_none m.acquired;
  avail = m.avail;
}

-- `acquire` and `release`
unfoldable pub acquire : String → ResourceData → Outcome ResourceData
acquire place_name r = elim r.acquired [
  | none ↦ ok (record r { acquired = some place_name })
  | some _ ↦ raised assertion_error
]

unfoldable pub release : ResourceData → ResourceData
release r = record r { acquired = none }

unfoldable pub asdict : ResourceData → ResourceData
asdict r = record {
  cls = r.cls;
  params = r.params;
  extra = r.extra;
  acquired = r.acquired;
  avail = r.avail;
}
