-- ===== src/Ceremony/Evidence.antt =====
-- The block annotation in the completion evidence: `extract_block_cleared_annotation` and
-- `strip_block_cleared_annotation` of crates/mp/src/milestone/complete.rs.
use master_plan.Prelude.{String, Option, none, some}
use mathlib.Core.Option
use master_plan.Prelude.Text.{push_str, from_match, through_char, drop_bytes, trim_start, byte_len}

abbrev pub annotation_prefix : String
annotation_prefix = "[block-cleared-on-complete:"

unfoldable pub extract_block_cleared_annotation : String → Option String
extract_block_cleared_annotation evidence = elim (from_match annotation_prefix evidence) [
  | none ↦ none
  | some after ↦ through_char "]" after
]

-- The text is cut behind as many bytes as the annotation has; `none` where that slice panics.
unfoldable pub strip_block_cleared_annotation : String → Option String
strip_block_cleared_annotation evidence = elim (extract_block_cleared_annotation evidence) [
  | none ↦ some evidence
  | some annotation ↦ Option.map trim_start (drop_bytes (byte_len annotation) evidence)
]

-- `format!("[block-cleared-on-complete: {reason}]")`
unfoldable pub block_annotation : String → String
block_annotation reason = push_str "[block-cleared-on-complete: " (push_str reason "]")
