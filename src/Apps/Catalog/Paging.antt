-- ===== src/Apps/Catalog/Paging.antt =====
-- parseLimitOffset and the cut into pages that the list handlers of services/apps/handlers.go
-- make. A limit is at most 100, so a page's end cannot overflow.
pub mod Pages
use messages.Text.Numbers.{atoi}
use Prim.Native.String.{String}
use messages.Base.{
  ℤ, pos, negsuc, ℕ, zero, suc, ◌+◌, ◌-◌, ◌*◌, ◌^◌, Bool, true, false, ◌&&◌, Option, none, some,
  List, [], ◌∷◌, ◌++◌, Text, Map, lookup, ltb, leb, ◌==◌, length, take, drop, if◌then◌else◌,
}
use messages.Text.{codes, trim_space}
use messages.Apps.View.{AppView, Page}

-- r.URL.Query().Get(key)
abbrev pub query_get_text : Text → Map Text → Text
query_get_text k query = elim (lookup k query) [ none ↦ [] | some v ↦ v ]

abbrev pub query_get : String → Map Text → Text
query_get k query = query_get_text (codes k) query

abbrev pub clamp_limit : ℕ → Option ℤ → ℕ
clamp_limit default none = default
clamp_limit default (some (negsuc n)) = default
clamp_limit default (some (pos n)) = if n == 0 then default else if ltb 100 n then 100 else n

unfoldable pub parse_limit : Text → ℕ → ℕ
parse_limit raw default = clamp_limit default (atoi (trim_space raw))

abbrev offset_of : Option ℤ → ℕ
offset_of (some (pos n)) = n
offset_of _ = 0

unfoldable pub parse_offset : Text → ℕ
parse_offset raw = offset_of (atoi (trim_space raw))

abbrev pub at_most : ℕ → ℕ → ℕ
at_most bound n = if ltb bound n then bound else n

-- items[offset:end] with the cursor of the next page.
unfoldable pub page : ℕ → ℕ → List AppView → Page
page limit offset items =
    let total = length items in
    let start = at_most total offset in
    let stop = at_most total (start + limit) in
    record {
      items = take (stop - start) (drop start items);
      next_cursor = if ltb stop total then some stop else none;
      total = total;
    }
