-- ===== src/Common/Entry/Laws.antt =====
-- labgrid/remote/common.py: a resource survives the way through its message.
use labgrid.Prelude.{
  ◌≡◌, refl, sym, ◌∙◌, false, List, [], ◌∷◌, ◌++◌, String, Option, none, some, string_eq, ==_iff,
  ok, >>=-eq-ok, arith, contains, Distinct, All, ◌≢◌,
}
use labgrid.Prelude.Int.{pos, negsuc}
use labgrid.Prelude.Dict.{Dict, put, keys, has, has-put, put-append}
use labgrid.Common.Entry.{
  Value, none_value, bool, int, float, str, other, MapValue, to_map_value, of_map_value,
  set_map_from_dict, build_dict_from_map, ResourceData, ResourceMsg, as_pb2, data_from_pb2,
  or_no_extra, or_none, or_empty,
}
use mathlib.Core.List.{append-nil, append_assoc}

of_map_value-to_map_value : (v : Value) {w : MapValue} → to_map_value v ≡ ok w → of_map_value w ≡ v
unfolding to_map_value of_map_value
of_map_value-to_map_value none_value h = ground arith
of_map_value-to_map_value (bool b) h = ground arith
of_map_value-to_map_value (int (pos n)) h = ground arith
of_map_value-to_map_value (int (negsuc n)) h = ground arith
of_map_value-to_map_value (float bits) h = ground arith
of_map_value-to_map_value (str s) h = ground arith
of_map_value-to_map_value other h = cc

decode : Dict String MapValue → Dict String Value
decode [] = []
decode ((k, w) ∷ m) = (k, of_map_value w) ∷ decode m

-- None of the keys is in the dictionary yet.
abbrev Fresh {ℓ} : {V : Type ℓ} → Dict String V → List String → Type 0
Fresh m ks = All (λ k. has k m ≡ false) ks

Fresh-put {ℓ} :
    {V : Type ℓ} (k : String) (v : V) (m : Dict String V) (ks : List String)
    → contains k ks ≡ false
    → Fresh m ks
    → Fresh (put k v m) ks
unfolding contains
Fresh-put k v m [] h f = tt
Fresh-put k v m (j ∷ ks) h f =
    (ground (arith, has-put k j v m, ==_iff k j), Fresh-put k v m ks (ground arith) f.1)

-- What the loop adds to the message, for keys that are new to it.
set_map_from_dict-append :
    (d : Dict String Value) (m : Dict String MapValue) {m' : Dict String MapValue}
    → Distinct (keys d)
    → Fresh m (keys d)
    → set_map_from_dict m d ≡ ok m'
    → (w : Dict String MapValue) × (m' ≡ m ++ w) × (keys w ≡ keys d) × (decode w ≡ d)
unfolding set_map_from_dict decode
set_map_from_dict-append [] m ds f h = ([], ground (arith, append-nil m), refl, refl)
set_map_from_dict-append ((k, v) ∷ d) m ds f h =
    let (w, hw, rest) = >>=-eq-ok (to_map_value v) _ h in
    let (ws, e, ks, dec) =
      set_map_from_dict-append d (put k w m) ds.1 (Fresh-put k w m (keys d) ds.0 f.1) rest in
    (
      (k, w) ∷ ws,
      cc (e, put-append k w m f.0, append_assoc m ((k, w) ∷ []) ws),
      cc ks,
      cc (of_map_value-to_map_value v hw, dec),
    )

build_dict_from_map-append :
    (m : Dict String MapValue) (d : Dict String Value)
    → Distinct (keys m)
    → Fresh d (keys m)
    → build_dict_from_map d m ≡ d ++ decode m
unfolding build_dict_from_map decode
build_dict_from_map-append [] d ds f = sym (append-nil d)
build_dict_from_map-append ((k, v) ∷ m) d ds f = cc (
  build_dict_from_map-append m (put k (of_map_value v) d) ds.1
      (Fresh-put k (of_map_value v) d (keys m) ds.0 f.1),
  put-append k (of_map_value v) d f.0,
  append_assoc d ((k, of_map_value v) ∷ []) (decode m),
)

Fresh-nil {ℓ} : (V : Type ℓ) (ks : List String) → Fresh {V = V} [] ks
unfolding has
Fresh-nil V [] = tt
Fresh-nil V (k ∷ ks) = (refl, Fresh-nil V ks)

-- Whatever a dict is turned into a message map, the message map gives the same dict back.
build_dict_from_map-set_map_from_dict :
    (d : Dict String Value) {m : Dict String MapValue}
    → Distinct (keys d)
    → set_map_from_dict [] d ≡ ok m
    → build_dict_from_map [] m ≡ d
build_dict_from_map-set_map_from_dict d ds h =
    let (w, e, ks, dec) = set_map_from_dict-append d [] ds (Fresh-nil _ (keys d)) h in
    rw e (build_dict_from_map-append w [] (rw ks ds) (Fresh-nil _ (keys w)) ∙ dec)

or_none-or_empty : (a : Option String) → a ≢ some "" → or_none (or_empty a) ≡ a
or_none-or_empty none h = refl
or_none-or_empty (some String.[]) h = absurd (h refl)
or_none-or_empty (some (String.◌∷◌ c s)) h = refl

-- The data that the coordinator reads from an exporter's message are those that were sent. The
-- keys are distinct, as in every dict, and no resource is acquired by the empty name. A missing
-- `extra` arrives as an empty one.
pub data_from_pb2-as_pb2 :
    (r : ResourceData) {m : ResourceMsg}
    → Distinct (keys r.params)
    → Distinct (keys (or_no_extra r.extra))
    → r.acquired ≢ some ""
    → as_pb2 r ≡ ok m
    → data_from_pb2 m ≡ record r { extra = some (or_no_extra r.extra) }
unfolding as_pb2 data_from_pb2
data_from_pb2-as_pb2 r dp de ha h =
    let (ps, ep, h') = >>=-eq-ok (set_map_from_dict [] r.params) _ h in
    let (es, ee, h'') = >>=-eq-ok (set_map_from_dict [] (or_no_extra r.extra)) _ h' in
    ground (
      arith,
      build_dict_from_map-set_map_from_dict r.params dp ep,
      build_dict_from_map-set_map_from_dict (or_no_extra r.extra) de ee,
      or_none-or_empty r.acquired ha,
    )
