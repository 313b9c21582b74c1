-- ===== src/ReadTests.antt =====
-- Reading rows, pages and content types.
use pl8_base.Base.{
  ◌≡◌, refl, ◌↔◌, ◌≤◌, Bool, true, false, Option, none, some, List, [], ◌∷◌, length,
}
use pl8_base.Base.Text.{Text, codes, text_eq}
use pl8_base.Errors.{ok, Exec}
use pl8_base.Const.{max_content_type_len}
use pl8_base.Dynamo.{Attr, Table}
use pl8_base.Dynamo.Memory.{memory}
use pl8_base.Types.{todo, init_issue}
use pl8_base.Util.{str, validate_content_type}
use pl8_base.Util.MediaType.{IsMediaType, validate_content_type_iff}
use pl8_base.Manager.Parse.{BaseObject, issue_info, parse_item}
use pl8_base.Manager.ParseLaws.{serialized, serialized_attr, parse_item-serialized}
use pl8_base.Manager.Query.{Rows}
use pl8_base.Manager.Paginate.{paginate}
use pl8_base.Manager.PaginateRows.{reading, over_rows, rows_from, paginate-over_rows}
use pl8_base.Samples.{plain}
use pl8_base.CauseTests.{an_issue}

abbrev kept : BaseObject
kept = issue_info (an_issue (codes "aaaaaa") todo)

abbrev empty : Table
empty = []

parse_item-serialized_example :
    ((a : Attr) → serialized_attr plain kept a ≡ ok (serialized plain kept a))
    × ((parse_item memory plain (some (serialized plain kept)) empty).0 ≡ ok (some kept))
unfolding init_issue
parse_item-serialized_example = parse_item-serialized memory plain kept empty (λ now. refl)

abbrev octets : Text
octets = codes "application/octet-stream"

validate_content_type_iff_example :
    (validate_content_type (str octets) ≡ ok tt)
    ↔ (IsMediaType octets × (length octets ≤ max_content_type_len))
validate_content_type_iff_example = validate_content_type_iff octets

-- Three pages of one row each.
abbrev three_pages : Option Text → Rows
three_pages none = (kept ∷ [], some (codes "1"))
three_pages (some cursor) = elim (text_eq cursor (codes "1")) [
  | true ↦ (kept ∷ [], some (codes "2"))
  | false ↦ (kept ∷ [], none)
]

-- A body that keeps what it sees.
abbrev collect : BaseObject → Exec (List BaseObject) Bool
collect x seen = (ok true, x ∷ seen)

paginate-over_rows_example :
    paginate collect (reading three_pages) 5 none []
    ≡ over_rows collect (rows_from three_pages 5 none) []
paginate-over_rows_example = paginate-over_rows collect three_pages 5 none []
