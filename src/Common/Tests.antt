-- ===== src/Common/Tests.antt =====
-- labgrid/remote/common.py on concrete messages and patterns.
use labgrid.Prelude.{
  ℕ, List, [], ◌∷◌, String, Option, none, some, ◌≡◌, ◌↔◌, refl, true, false, ok, raised,
  value_error, type_error, Bool, string_eq, contains, arith, Outcome, ◌+◌, map, ◌≢◌, ◌==◌, ==_iff,
  ◌≤◌,
}
use labgrid.Prelude.Int.{pos, negsuc}
use labgrid.Prelude.Text.{split, count_char, join}
use labgrid.Prelude.Dict.{Dict, put}
use labgrid.Common.Tags.{tag_val_match}
use labgrid.Common.Match.{opt_eq, ResourceMatch, ResourcePath, fromstr, repr}
use labgrid.Common.Match.Laws.{opt_eq_iff, fromstr-repr}
use labgrid.Common.Entry.{
  ResourceData, ResourceMsg, Value, int, str, MapValue, uint_value, string_value, int_value,
  set_map_from_dict, build_dict_from_map, data_from_pb2,
}
use labgrid.Common.Entry.Laws.{data_from_pb2-as_pb2}
use labgrid.Common.Entry
use labgrid.Common.Place.{Place, PlaceMsg, from_pb2}
use labgrid.Common.Place.Laws.{from_pb2-as_pb2_place, client_view}
use labgrid.Common.Place
use labgrid.Common.Reservation.{Reservation, ReservationMsg, allocated, refresh, is_expired}
use labgrid.Common.Reservation.Laws.{from_pb2-as_pb2, refresh_lasts}
use labgrid.Common.Reservation

tag_val_match_test : tag_val_match "../?" ≡ true
unfolding tag_val_match
tag_val_match_test = refl

abbrev usb_match : ResourceMatch
usb_match = record {
  exporter = "*";
  group = "rack1";
  cls = "USBSerialPort";
  name = some "console";
  rename = some "uart";
}

fromstr-repr_example : fromstr (repr usb_match) ≡ ok (record usb_match { rename = none })
unfolding count_char
fromstr-repr_example = fromstr-repr usb_match (refl, (refl, (refl, (refl, tt))))

fromstr_tests :
    (fromstr "*/rack1/USBSerialPort" ≡ ok (record usb_match { name = none; rename = none }))
    × (fromstr "rack1/USBSerialPort" ≡ raised value_error)
    × (fromstr "a/b/c/d/e" ≡ raised value_error)
unfolding fromstr
fromstr_tests = (refl, refl, refl)

abbrev port_params : Dict String Value
port_params = ("port", int (pos 4242)) ∷ ("offset", int (negsuc 2)) ∷ ("host", str "lab") ∷ []

abbrev port_map : Dict String MapValue
port_map =
    ("port", uint_value 4242) ∷ ("offset", int_value (negsuc 2)) ∷ ("host", string_value "lab") ∷ []

build_dict_test :
    (set_map_from_dict [] port_params ≡ ok port_map)
    × (build_dict_from_map [] port_map ≡ port_params)
unfolding set_map_from_dict put build_dict_from_map
build_dict_test = (refl, refl)

abbrev port_data : ResourceData
port_data = record {
  cls = "NetworkSerialPort";
  params = port_params;
  extra = none;
  acquired = some "board";
  avail = true;
}

abbrev port_msg : ResourceMsg
port_msg = record {
  cls = "NetworkSerialPort";
  params = port_map;
  extra = [];
  acquired = "board";
  avail = true;
}

named : port_data.acquired ≢ some ""
named e =
    let same : opt_eq (some "board") (some "") ≡ true = (opt_eq_iff (some "board") (some "")).1 e in
    ground (arith, same)

data_from_pb2-as_pb2_example : data_from_pb2 port_msg ≡ record port_data { extra = some [] }
unfolding contains Entry.as_pb2 put
data_from_pb2-as_pb2_example =
    data_from_pb2-as_pb2 port_data (refl, (refl, (refl, tt))) tt named refl

abbrev board : Place ResourcePath
board = record {
  name = "board";
  aliases = [];
  comment = "desk";
  tags = ("soc", "imx6") ∷ [];
  matches = usb_match ∷ [];
  acquired = some "alice";
  acquired_resources =
      record { exporter = "exp1"; group = "rack1"; cls = "USBSerialPort"; name = some "console" }
      ∷ [];
  allowed = "alice" ∷ [];
  created = 3;
  changed = 9;
  reservation = none;
}

abbrev same_path : ResourcePath → ResourcePath
same_path p = p

abbrev board_msg : PlaceMsg
board_msg = record {
  name = "board";
  aliases = [];
  comment = "desk";
  tags = ("soc", "imx6") ∷ [];
  matches =
      record {
        exporter = "*";
        group = "rack1";
        cls = "USBSerialPort";
        name = some "console";
        rename = some "uart";
      }
      ∷ [];
  acquired = some "alice";
  acquired_resources = "exp1/rack1/USBSerialPort/console" ∷ [];
  allowed = "alice" ∷ [];
  created = 3;
  changed = 9;
  reservation = none;
}

from_pb2-as_pb2_place_example : from_pb2 board_msg ≡ ok (client_view same_path board)
unfolding count_char Place.as_pb2 labgrid.Prelude.Text.append_sep
from_pb2-as_pb2_place_example =
    from_pb2-as_pb2_place same_path board (((refl, (refl, (refl, (refl, tt)))), refl), tt) refl

abbrev booking : Reservation
booking = record {
  owner = "alice";
  token = "T1";
  state = allocated;
  prio = negsuc 0;
  filters = ("main", ("soc", "imx6") ∷ []) ∷ [];
  allocations = ("main", "board" ∷ []) ∷ [];
  created = 10;
  timeout = 70;
}

abbrev booking_msg : ReservationMsg
booking_msg = record {
  owner = "alice";
  token = "T1";
  state = 1;
  prio = negsuc 0;
  filters = ("main", ("soc", "imx6") ∷ []) ∷ [];
  allocations = ("main", "board") ∷ [];
  created = 10;
  timeout = 70;
}

reservation_message_test : Reservation.from_pb2 booking_msg ≡ ok booking
unfolding Reservation.as_pb2
reservation_message_test = from_pb2-as_pb2 booking refl

refresh_lasts_example :
    (100 ≤ 50 + 60 → is_expired 100 (refresh 60 50 booking) ≡ false)
    × (is_expired 100 booking ≡ false → is_expired 100 (refresh 60 50 booking) ≡ false)
refresh_lasts_example = refresh_lasts booking 60 50 100
