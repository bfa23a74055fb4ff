-- ===== src/Registry/Ops.antt =====
-- The operations of a batch (tools/learning-loop-mastra/core/meta-state.js, `metaStateBatch`).
use learning_loop_template.Base.{ℕ, String, Option, List}
use learning_loop_template.Registry.Entry.{Entry}
use learning_loop_template.Registry.Patch.{Change}

-- An update is the patch without `op`, `id` and `_expected_version`. A `reason` and an `archived_by` are
-- `none` where they are missing or null.
pub data BatchOp : Type 0 where
  write_op : Entry → BatchOp
  update_op : String → List Change → Option ℕ → BatchOp
  delete_op archive_op : String → Option String → Option String → BatchOp
  unknown_op : String → BatchOp

-- `op.op`
abbrev pub op_name : BatchOp → String
op_name (write_op e) = "write"
op_name (update_op id cs v) = "update"
op_name (delete_op id reason by) = "delete"
op_name (archive_op id reason by) = "archive"
op_name (unknown_op name) = name

-- The id that an operation is sorted by for the hash, `""` where it has none.
abbrev pub op_id : BatchOp → String
op_id (write_op e) = e.id
op_id (update_op id cs v) = id
op_id (delete_op id reason by) = id
op_id (archive_op id reason by) = id
op_id (unknown_op name) = ""
