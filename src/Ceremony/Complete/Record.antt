-- ===== src/Ceremony/Complete/Record.antt =====
-- What a completion leaves in the evidence, crates/mp/src/milestone/complete.rs.
use Prim.Native.String.{◌∷◌ as ◌▹◌}
use master_plan.Prelude.{
  if◌then◌else◌, Bool-cases, inl, inr, refl, false, String, ◌≡◌, ap, ◌∙◌, true, false, some, ok,
}
use master_plan.Prelude.Text.{
  push_str, from_match, trim_start, push_str_assoc, from_match-push_str, drop_bytes-push_str,
  is_empty, through_char-plain,
}
use master_plan.Ceremony.Evidence.{
  block_annotation, extract_block_cleared_annotation, strip_block_cleared_annotation,
  annotation_prefix,
}
use master_plan.Ceremony.Complete.{new_evidence, join_annotation, annotation_to_keep}
use master_plan.Prelude.Text.Decimal.{has_char}

abbrev opening : String
opening = "[block-cleared-on-complete: "

-- The annotated text, cut at the pattern and at the closing bracket.
at_prefix :
    (reason rest : String)
    → push_str (block_annotation reason) rest
      ≡ push_str annotation_prefix (push_str " " (push_str reason ("]" ▹ rest)))
unfolding block_annotation push_str
at_prefix reason rest = ap (push_str opening) (push_str_assoc reason "]" rest)

at_bracket :
    (reason rest : String)
    → push_str (block_annotation reason) rest ≡ push_str (push_str opening reason) ("]" ▹ rest)
unfolding block_annotation push_str
at_bracket reason rest = ap (push_str opening) (push_str_assoc reason "]" rest)

opening-plain :
    (reason : String)
    → has_char b']' reason ≡ false
    → has_char b']' (push_str opening reason) ≡ false
unfolding push_str
opening-plain reason h = h

annotation_text :
    (reason : String) → push_str (push_str opening reason) "]" ≡ block_annotation reason
unfolding block_annotation
annotation_text reason = push_str_assoc opening reason "]"

annotation_found :
    (reason rest : String)
    → has_char b']' reason ≡ false
    → extract_block_cleared_annotation (push_str (block_annotation reason) rest)
      ≡ some (block_annotation reason)
unfolding extract_block_cleared_annotation
annotation_found reason rest h =
    let found : from_match annotation_prefix (push_str (block_annotation reason) rest)
        ≡ some (push_str (block_annotation reason) rest) =
      rw (at_prefix reason rest) (from_match-push_str annotation_prefix _) in
    rw (found, extract_block_cleared_annotation)
      (rw (at_bracket reason rest) (
        through_char-plain "]" (push_str opening reason) rest (opening-plain reason h)
        ∙ ap some (annotation_text reason)))

-- An annotation whose reason has no closing bracket is found at the start of a text, and stripping
-- it leaves what stood behind it, less the white space at its start.
pub block_annotation-round_trip :
    (reason rest : String)
    → has_char b']' reason ≡ false
    → let text = push_str (block_annotation reason) rest in
      (extract_block_cleared_annotation text ≡ some (block_annotation reason))
      × (strip_block_cleared_annotation text ≡ some (trim_start rest))
unfolding strip_block_cleared_annotation
block_annotation-round_trip reason rest h = (
  annotation_found reason rest h,
  rw (annotation_found reason rest h, strip_block_cleared_annotation)
      (rw (drop_bytes-push_str (block_annotation reason) rest)),
)

join_kept :
    (reason old base : String)
    → is_empty reason ≡ false
    → is_empty base ≡ false
    → join_annotation (annotation_to_keep reason old) base
      ≡ push_str (block_annotation reason) (push_str " " base)
join_kept reason old base h n = rw (h, annotation_to_keep) (rw (n, join_annotation))

-- The evidence of an accepted completion of a milestone with a block reason. Given evidence that
-- starts with an old annotation (whose reason has no closing bracket) and has more text behind it is
-- stored as the new annotation, a space and that text; without given evidence an empty record
-- receives the annotation alone, and a record that is not empty stays as it was.
pub new_evidence-cases :
    (reason old rest given text : String)
    → is_empty reason ≡ false
    → has_char b']' given ≡ false
    → is_empty (trim_start rest) ≡ false
    → (new_evidence (push_str (block_annotation given) rest) true reason old
        ≡ ok (push_str (block_annotation reason) (push_str " " (trim_start rest))))
      × (new_evidence text false reason old
          ≡ ok (if is_empty old then block_annotation reason else old))
unfolding new_evidence
new_evidence-cases reason old rest given text h p n = (
  rw ((block_annotation-round_trip given rest p).1, new_evidence)
      (ap ok (join_kept reason old (trim_start rest) h n)),
  elim (Bool-cases (is_empty old)) [ inl e ↦ rw (e, h) refl | inr e ↦ rw e refl ],
)
