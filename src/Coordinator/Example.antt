-- ===== src/Coordinator/Example.antt =====
-- labgrid/remote/coordinator.py: a laboratory with one place, one exporter and one user.
use labgrid.Prelude.{
  ℕ, ◌≤◌, refl, Bool, true, false, [], ◌∷◌, none, some, string_eq, nat_eq, ==_iff, arith,
}
use labgrid.Prelude.Dict.{has}
use labgrid.Coordinator.Publish.{path_of}
use labgrid.Common.Match.{ResourcePath}
use labgrid.Common.Place.{Place}
use labgrid.Coordinator.State.{Coordinator, ResourceImport, response}
use labgrid.Coordinator.Acquire.{same_path}
use labgrid.Coordinator.Frame.{IsHeap}
use labgrid.Coordinator.Exclusive.{IsExclusive, one_if}

abbrev pub console_path : ResourcePath
console_path = record {
  exporter = "exp1";
  group = "rack1";
  cls = "USBSerialPort";
  name = some "console";
}

abbrev pub console : ResourceImport
console = record {
  data_ = record {
    cls = "USBSerialPort";
    params = [];
    extra = none;
    acquired = none;
    avail = true;
  };
  path = console_path;
  orphaned = false;
}

abbrev pub board : Place ℕ
board = record {
  name = "board";
  aliases = [];
  comment = "";
  tags = ("soc", "imx6") ∷ [];
  matches =
      record { exporter = "*"; group = "rack1"; cls = "USBSerialPort"; name = none; rename = none }
      ∷ [];
  acquired = none;
  acquired_resources = [];
  allowed = [];
  created = 1;
  changed = 1;
  reservation = none;
}

abbrev pub held_board : Place ℕ
held_board = record board { acquired = some "alice"; acquired_resources = 0 ∷ [] }

abbrev pub lab_with : Place ℕ → Coordinator
lab_with p = record {
  places = ("board", p) ∷ [];
  reservations = [];
  exporters =
      (
        "ipv4:10.0.0.7:4711",
        record {
          name = "exp1";
          version = "24";
          groups = ("rack1", ("console", 0) ∷ []) ∷ [];
          queue = [];
        },
      )
      ∷ [];
  clients = ("ipv4:10.0.0.2:999", record { name = "alice"; version = "24"; queue = [] }) ∷ [];
  heap = record { cells = (0, console) ∷ []; next = 1 };
  save_scheduled = false;
  clock = 100;
  waits = record { elapsed = 1; events = []; answer = response true } ∷ [];
  default_places = [];
}

abbrev pub lab : Coordinator
lab = lab_with board

abbrev pub held_lab : Coordinator
held_lab = lab_with held_board

pub one_if_le : (b : Bool) → one_if b ≤ 1
one_if_le true = omega arith
one_if_le false = omega arith

pub lab-IsHeap : (p : Place ℕ) → IsHeap (lab_with p).heap
unfolding has
lab-IsHeap p ref h = ground (arith, ==_iff 0 ref)

pub lab-IsExclusive : IsExclusive lab
unfolding has labgrid.Coordinator.Exclusive.holders
lab-IsExclusive = record {
  heap_ok = lab-IsHeap board;
  there = (tt, tt);
  exclusive = λ q. omega arith;
}

pub held_lab-IsExclusive : IsExclusive held_lab
unfolding has labgrid.Coordinator.Exclusive.holders
held_lab-IsExclusive = record {
  heap_ok = lab-IsHeap held_board;
  there = ((refl, tt), tt);
  exclusive = λ q. omega (arith, one_if_le (same_path q (path_of lab.heap 0)));
}
