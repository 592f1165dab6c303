-- ===== src/Steps/TrackRefs.antt =====
-- `extract_track_refs`, `parse_track_ref` and `auto_close_track_refs` of crates/mp/src/step.rs.
use Prim.Native.Char.{Char, code}
use Prim.Native.String.{[] as nil, ◌∷◌ as ◌▹◌}
use master_plan.Prelude.{
  Bool, not, ◌&&◌, String, List, [], ◌∷◌, Option, none, some, str_eq, ◌==◌, if◌then◌else◌, find,
  update_first, ℕ, false,
}
use master_plan.Prelude.Text.{push_str, split_once, is_empty, push}
use master_plan.Prelude.Text.Decimal.{is_ascii_digit}
use master_plan.Model.Track.{TrackFile, TrackItem}

-- Where the loop over `chars` stands: between references, before the second letter of a prefix,
-- before the dash, or among the digits.
pub data Mode : Type 0 where
  scanning : Mode
  second : String → Mode
  dash : String → Mode
  digits : String → String → Mode

abbrev pub starts_with_code : ℕ → String → Bool
starts_with_code n nil = false
starts_with_code n (c ▹ s) = code c == n

-- What the loop does with a character `c` between references, `rest` being what `peek` sees.
abbrev pub scan_char : Char → String → Mode
scan_char c rest =
    if code c == b'T' && starts_with_code b'W' rest
    then second "TW"
    else if code c == b'B' && starts_with_code b'F' rest
    then second "BF"
    else scanning

abbrev pub reference : String → String → String
reference prefix num = push_str prefix (push_str "-" num)

-- `if !num.is_empty() { refs.push(..) }`
abbrev pub emit : String → String → List String → List String
emit prefix num refs = if is_empty num then refs else reference prefix num ∷ refs

pub scan : Mode → String → List String
scan (digits prefix num) nil = emit prefix num []
scan scanning nil = []
scan (second prefix) nil = []
scan (dash prefix) nil = []
scan scanning (c ▹ s) = scan (scan_char c s) s
scan (second prefix) (c ▹ s) = scan (dash prefix) s
scan (dash prefix) (c ▹ s) = scan (if code c == b'-' then digits prefix nil else scan_char c s) s
scan (digits prefix num) (c ▹ s) =
    if is_ascii_digit c
    then scan (digits prefix (push num c)) s
    else emit prefix num (scan (scan_char c s) s)

unfoldable pub extract_track_refs : String → List String
unfolding scan
extract_track_refs text = scan scanning text

abbrev pub kind_of_prefix : String → Option String
kind_of_prefix prefix =
    if str_eq prefix "TW" then some "tweak" else if str_eq prefix "BF" then some "bugfix" else none

unfoldable pub parse_track_ref : String → Option (String × String)
unfolding split_once
parse_track_ref track_ref = elim (split_once b'-' track_ref) [
  | none ↦ none
  | some (prefix, num) ↦
      if is_empty num
      then none
      else elim (kind_of_prefix prefix) [ none ↦ none | some kind ↦ some (kind, track_ref) ]
]

-- The track files by kind; `none` where `load_track` fails.
abbrev pub Tracks : Type 0
Tracks = String → Option TrackFile

abbrev pub set_track : Tracks → String → TrackFile → Tracks
set_track tracks kind file k = if str_eq k kind then some file else tracks k

abbrev pub is_open : TrackItem → Bool
is_open i = not (str_eq i.status "done") && not (str_eq i.status "archived")

abbrev pub close_item : String → TrackItem → TrackItem
close_item today i = record i { status = "done"; completed = today }

module _ (today : String) (accepts : TrackFile → Bool) where
  -- One reference. `accepts` is the schema check of `write_track`, whose error is dropped.
  unfoldable pub close_ref : Tracks → String → Tracks
  unfolding parse_track_ref
  close_ref tracks track_ref = elim (parse_track_ref track_ref) [
    | none ↦ tracks
    | some (kind, id) ↦ elim (tracks kind) [
      | none ↦ tracks
      | some file ↦ elim (find (λ i. str_eq i.id id) file.items) [
        | none ↦ tracks
        | some item ↦
            let closed : TrackFile = record file {
              items = update_first (λ i. str_eq i.id id) (close_item today) file.items;
            } in
            if is_open item && accepts closed then set_track tracks kind closed else tracks
      ]
    ]
  ]

  unfoldable pub close_refs : Tracks → List String → Tracks
  close_refs tracks [] = tracks
  close_refs tracks (r ∷ rs) = close_refs (close_ref tracks r) rs

  unfoldable pub auto_close_track_refs : Tracks → String → Tracks
  auto_close_track_refs tracks action = close_refs tracks (extract_track_refs action)
