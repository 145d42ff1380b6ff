-- ===== src/Thread/Entries/Kinds.antt =====
-- The mutation of each kind of entry leaves the entry's id alone.
use tethys.Prelude.{String, Option, List, arith}
use tethys.Schema.Thread.{
  Role, ContentBlock, ToolCallPatch, ToolCallContent, PlanContent, PermissionRequested, PermOutcome,
  entry_id,
}
use tethys.Thread.Entries.{
  push_block, replace_blocks, merge_patch, append_output, replace_plan, replace_output, push_bytes,
  replace_request, record_outcome, replace_error,
}
use tethys.Thread.Entries.Find.{KeepsId}

pub push_block-KeepsId : (b : ContentBlock) → KeepsId (push_block b)
unfolding push_block entry_id
push_block-KeepsId b e new h = ground arith

pub replace_blocks-KeepsId :
    (r : Role) (bs : Option (List ContentBlock)) → KeepsId (replace_blocks r bs)
unfolding replace_blocks entry_id
replace_blocks-KeepsId r bs e new h = ground arith

pub merge_patch-KeepsId : (p : ToolCallPatch) → KeepsId (merge_patch p)
unfolding merge_patch entry_id
merge_patch-KeepsId p e new h = ground arith

pub append_output-KeepsId : (item : ToolCallContent) → KeepsId (append_output item)
unfolding append_output entry_id
append_output-KeepsId item e new h = ground arith

pub replace_plan-KeepsId : (p : PlanContent) → KeepsId (replace_plan p)
unfolding replace_plan entry_id
replace_plan-KeepsId p e new h = ground arith

pub replace_output-KeepsId : (o : Option String) → KeepsId (replace_output o)
unfolding replace_output entry_id
replace_output-KeepsId o e new h = ground arith

pub push_bytes-KeepsId : (bytes : String) → KeepsId (push_bytes bytes)
unfolding push_bytes entry_id
push_bytes-KeepsId bytes e new h = ground arith

pub replace_request-KeepsId : (q : PermissionRequested) → KeepsId (replace_request q)
unfolding replace_request entry_id
replace_request-KeepsId q e new h = ground arith

pub record_outcome-KeepsId : (o : PermOutcome) → KeepsId (record_outcome o)
unfolding record_outcome entry_id
record_outcome-KeepsId o e new h = ground arith

pub replace_error-KeepsId : (code reason : String) → KeepsId (replace_error code reason)
unfolding replace_error entry_id
replace_error-KeepsId code reason e new h = ground arith
