-- ===== src/Controlplane/Command.antt =====
-- internal/controlplane/fsm.go: the commands of the replicated state machine, and the paths that
-- they may name. What the repository takes from elsewhere is a parameter: the JSON decoder and
-- SHA-256.
use bpc.Base.{
  ℕ, Bool, true, false, not, ◌&&◌, ◌||◌, List, [], ◌∷◌, ltb, ◌==◌, if◌then◌else◌, length, drop,
  Bytes, bytes_eq, codes, has, has_prefix, Option, none, some, Result, ok, err, ◌>>=◌, ◌>>◌,
  fail_if,
}
use bpc.Base.Int.{ℤ, pos}
use bpc.Base.Encoding.{trim_space}
use bpc.Base.FilePath.{slash, dot, clean_path}

abbrev pub control_schema_version : ℕ
control_schema_version = 1

abbrev pub replicated_prefixes : List Bytes
replicated_prefixes =
    codes "control/identity/users/"
    ∷ codes "control/identity/usernames/"
    ∷ codes "control/identity/access/"
    ∷ codes "control/identity/refresh/"
    ∷ codes "control/devices/"
    ∷ codes "control/device-addresses/"
    ∷ codes "control/device-public-keys/"
    ∷ codes "control/access/"
    ∷ codes "control/p2p-delivery/"
    ∷ codes "control/node-join/"
    ∷ codes "control/node-join-used/"
    ∷ codes "control/nodes/"
    ∷ codes "control/node-public-keys/"
    ∷ codes "control/node-credentials/"
    ∷ codes "control/routes/"
    ∷ codes "control/topology/links/"
    ∷ codes "control/revocations/"
    ∷ codes "cluster/controllers/"
    ∷ []

abbrev pub replicated_exact : List Bytes
replicated_exact = codes "cluster/cluster.json" ∷ codes "control/config.json" ∷ []

pub record Operation : Type 0 where
  pub op : Bytes
  pub path : Bytes
  pub contents : Bytes
  pub if_absent : Bool
  pub require_present : Bool
  pub expected_sha256 : Bytes

pub record Mutation : Type 0 where
  pub version : ℤ
  pub id : Bytes
  pub kind : Bytes
  pub issued_at : ℤ
  pub operations : List Operation
  pub revision_minimum : ℕ

pub data CommandError : Type 0 where
  invalid_encoding incomplete invalid_reconciliation needs_reconciliation : CommandError
  invalid_path not_replicated unsupported_operation : CommandError

-- Whether a path is longer than one of the prefixes that it starts with.
under_prefix : Bytes → List Bytes → Bool
under_prefix path [] = false
under_prefix path (p ∷ ps) =
    (has_prefix path p && ltb (length p) (length path)) || under_prefix path ps

-- `strings.TrimPrefix`
trim_prefix : Bytes → Bytes → Bytes
trim_prefix s p = if has_prefix s p then drop (length p) s else s

unfoldable pub normalize_replicated_path : Bytes → Result CommandError Bytes
unfolding under_prefix trim_prefix
normalize_replicated_path path =
    let clean = trim_prefix (clean_path (trim_space path)) (codes "./") in
    if bytes_eq clean dot
      || (length clean == 0 || (has_prefix clean (codes "../") || has_prefix path (slash ∷ [])))
    then err invalid_path
    else if has clean replicated_exact
    then ok clean
    else if under_prefix clean replicated_prefixes
    then ok clean
    else err not_replicated

abbrev pub put_op : Bytes
put_op = codes "put"

abbrev pub delete_op : Bytes
delete_op = codes "delete"

-- The loop that normalizes the operations.
unfoldable pub normalize_operations : List Operation → Result CommandError (List Operation)
normalize_operations [] = ok []
normalize_operations (o ∷ os) = do
  path ← normalize_replicated_path o.path
  fail_if (not (bytes_eq o.op put_op) && not (bytes_eq o.op delete_op)) unsupported_operation
  rest ← normalize_operations os
  ok (record o { path = path } ∷ rest)

abbrev pub reconcile_kind : Bytes
reconcile_kind = codes "ReconcileRevision"

abbrev pub is_one : ℤ → Bool
is_one (pos n) = n == 1
is_one _ = false

is_nil : List Operation → Bool
is_nil [] = true
is_nil (o ∷ os) = false

-- The checks of `Apply` that do not read the state, and the normalized operations.
unfoldable pub check_command : Option Mutation → Result CommandError (Mutation × List Operation)
unfolding is_nil
check_command none = err invalid_encoding
check_command (some c) = do
  fail_if (not (is_one c.version) || (length c.id == 0 || length c.kind == 0)) incomplete
  if bytes_eq c.kind reconcile_kind
      then fail_if (c.revision_minimum == 0 || not (is_nil c.operations)) invalid_reconciliation
      else fail_if (not (c.revision_minimum == 0)) needs_reconciliation
  ops ← normalize_operations c.operations
  ok (c, ops)
