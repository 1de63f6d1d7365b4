-- ===== src/Controlplane/Machine/Tests.antt =====
-- Runs of `Apply` of internal/controlplane/fsm.go, and its theorems at concrete inputs.
use bpc.Base.{ℕ, ◌^◌, ◌<◌, true, false, List, [], ◌∷◌, Bytes, codes, Option, none, some, ◌≡◌, arith}
use bpc.Base.Int.{pos}
use bpc.Base.Dict.{Dict, lookup, insert, delete}
use bpc.Base.InsertionSort.{insertion_sorter}
use bpc.Controlplane.RaftLog.{Log, decode_u64}
use bpc.Controlplane.Bolt.Sorted.{sorted_bolt}
use bpc.Controlplane.Store.{Store, revision, meta_u64}
use bpc.Controlplane.Command.{Operation, Mutation, put_op}
use bpc.Controlplane.Ownership.{Json}
use bpc.Controlplane.Ownership.Owned.{nothing-Owned}
use bpc.Controlplane.Machine.{Disk, Outside, Machine, transact}
use bpc.Controlplane.Machine.Branches.{Transacted, transact-Transacted}
use bpc.Controlplane.Machine.Replay.{apply_all, replay_restart}
use bpc.Controlplane.Machine.Owners.{OwnedStore, apply_all-Owned}

abbrev put_at : Bytes → Bytes → Operation
put_at path contents = record {
  op = put_op;
  path = path;
  contents = contents;
  if_absent = false;
  require_present = false;
  expected_sha256 = [];
}

abbrev command : List Operation → Mutation
command ops = record {
  version = pos 1;
  id = codes "m";
  kind = codes "Write";
  issued_at = pos 0;
  operations = ops;
  revision_minimum = 0;
}

-- The owner n1 with a grant and a route below it.
abbrev first_command : Mutation
first_command = command (
    put_at (codes "control/nodes/n1.json") (codes "10.0.0.0/8")
    ∷ put_at (codes "control/routes/a.json") (codes "10.1.0.0/16")
    ∷ [])

-- A route outside the grant.
abbrev second_command : Mutation
second_command = command (put_at (codes "control/routes/b.json") (codes "192.168.0.0/16") ∷ [])

abbrev decode_test : Bytes → Option Mutation
decode_test [] = some first_command
decode_test (x ∷ raw) = some second_command

minimum_test :
    (raw : Bytes) (c : Mutation) → decode_test raw ≡ some c → c.revision_minimum < 256 ^ 8
minimum_test [] c h = ground arith
minimum_test (x ∷ raw) c h = ground arith

-- A record is its prefix, of the node n1.
abbrev test_json : Json
test_json = record {
  decode_route = λ raw. some (record { cidr = raw; node_id = codes "n1"; owner_node_id = [] });
  decode_node = λ raw. some (record {
    authorized_routes = some (raw ∷ []);
    advertised_routes = [];
    node_id = codes "n1";
    revoked = false;
    roles = (codes "site_router", true) ∷ [];
  });
}

abbrev outside : Outside
outside = record {
  json = test_json;
  decode_mutation = decode_test;
  minimum_lt = minimum_test;
  encode_snapshot = λ s. [];
  decode_snapshot = λ raw. none;
  sha256 = λ raw. [];
  sorter = insertion_sorter;
}

abbrev test_disk : Disk
test_disk = record {
  Files = Dict Bytes;
  write = λ path contents files. (insert path contents files, true);
  remove = λ path files. (delete path files, true);
}

abbrev empty_store : Store sorted_bolt
empty_store = record {
  logs = sorted_bolt.empty;
  stable = sorted_bolt.empty;
  canonical = sorted_bolt.empty;
  meta = sorted_bolt.empty;
}

abbrev machine : Machine sorted_bolt outside test_disk (codes "/state")
machine = record { store = empty_store; files = [] }

abbrev entry : ℕ → Bytes → Log
entry index contents = record {
  index = index;
  term = 1;
  log_type = 0;
  appended_at = 0;
  log_data = contents;
  extensions = [];
}

-- The second entry is refused.
abbrev entries : List Log
entries = entry 4 [] ∷ entry 5 (1 ∷ []) ∷ []

small : revision sorted_bolt empty_store < 256 ^ 8
unfolding revision meta_u64 decode_u64 lookup
small = omega arith

transact-Transacted_example :
    Transacted sorted_bolt outside 4 first_command first_command.operations empty_store
      (transact sorted_bolt outside 4 first_command first_command.operations empty_store)
transact-Transacted_example =
    transact-Transacted sorted_bolt outside 4 first_command first_command.operations empty_store
      (omega arith) small (omega arith)

replay_restart_example :
    apply_all sorted_bolt outside test_disk
      (codes "/state")
      (apply_all sorted_bolt outside test_disk (codes "/state") machine entries)
      entries
    ≡ apply_all sorted_bolt outside test_disk (codes "/state") machine entries
replay_restart_example =
    replay_restart sorted_bolt outside test_disk (codes "/state") machine entries small
      (omega arith, omega arith, (omega arith, tt), (omega arith, omega arith, tt, tt))

apply_all-Owned_example :
    OwnedStore sorted_bolt outside
      (apply_all sorted_bolt outside test_disk (codes "/state") machine entries).store
apply_all-Owned_example =
    apply_all-Owned sorted_bolt outside test_disk (codes "/state") machine entries small
      (omega arith, (omega arith, tt)) (nothing-Owned test_json _ sorted_bolt.get-empty)
