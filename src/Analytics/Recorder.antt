-- ===== src/Analytics/Recorder.antt =====
-- internal/analytics/recorder.go. A map of counters is a list of its entries, one for each key.
pub mod Counts
use Prim.Native.Nat.{ℕ, ◌+◌, ◌-◌}
use Prim.Native.Char.{code}
use rlaas.Base.{
  String, List, [], ◌∷◌, Bool, true, false, Option, none, some, ◌||◌, ◌<>◌, ◌==◌, ltb, codes,
  if◌then◌else◌,
}
use rlaas.Base.Lists.{length}
use rlaas.Base.Int.{pos, ltb_ℤ}
use rlaas.Base.Int64.{Int64, ◌+w◌, ◌*w◌}
use rlaas.Base.TextOrder.{text_gt}
use rlaas.Model.{StringMap}

abbrev pub Counters : Type 0
Counters = List (String × Int64)

pub record Recorder : Type 0 where
  pub event_count : Counters
  pub tag_count : Counters
  pub total : Int64

abbrev pub new_recorder : Recorder
new_recorder = record { event_count = []; tag_count = []; total = pos 0 }

abbrev pub max_analytics_keys : ℕ
max_analytics_keys = 50000

-- `m[key]`, 0 if it is missing.
unfoldable pub count_of : String → Counters → Int64
count_of key [] = pos 0
count_of key ((j, n) ∷ rest) = if j == key then n else count_of key rest

unfoldable pub has_key : String → Counters → Bool
has_key key [] = false
has_key key ((j, n) ∷ rest) = if j == key then true else has_key key rest

-- `m[key]++`.
unfoldable pub increment : String → Counters → Counters
increment key [] = (key, pos 1) ∷ []
increment key ((j, n) ∷ rest) =
    let others = increment key rest in if j == key then (j, n +w pos 1) ∷ rest else (j, n) ∷ others

-- The guard against too many keys.
unfoldable pub bump : String → Counters → Counters
unfolding has_key increment
bump key m = if has_key key m || ltb (length m) max_analytics_keys then increment key m else m

-- The loop over the tags.
unfoldable pub bump_tags : StringMap → Counters → Counters
unfolding bump
bump_tags [] m = m
bump_tags ((k, v) ∷ tags) m = bump_tags tags (bump (k <> "=" <> v) m)

-- `Record`.
unfoldable pub record_event : String → StringMap → Recorder → Recorder
unfolding bump bump_tags
record_event event tags r = record {
  event_count = bump event r.event_count;
  total = r.total +w pos 1;
  tag_count = bump_tags tags r.tag_count;
}

-- `sort.Slice` by name.
unfoldable pub insert_row : String × Int64 → Counters → Counters
insert_row row [] = row ∷ []
insert_row row (other ∷ rest) =
    let later = other ∷ insert_row row rest in
    if text_gt (row.0) (other.0) then later else row ∷ other ∷ rest

unfoldable pub sort_rows : Counters → Counters
unfolding insert_row
sort_rows [] = []
sort_rows (row ∷ rest) = insert_row row (sort_rows rest)

-- The loop over the characters of `top`: `none` for a character that is no digit.
unfoldable pub parse_top : Int64 → List ℕ → Option Int64
parse_top limit [] = some limit
parse_top limit (ch ∷ rest) =
    let more = parse_top (limit *w pos 10 +w pos (ch - b'0')) rest in
    if ltb ch b'0' || ltb b'9' ch then none else more

-- The first `limit` rows, all of them without a positive limit.
unfoldable pub top_rows : ℕ → Counters → Counters
top_rows n [] = []
top_rows Prim.Native.Nat.zero (row ∷ rest) = []
top_rows (Prim.Native.Nat.suc n) (row ∷ rest) = row ∷ top_rows n rest

unfoldable pub limit_rows : Int64 → Counters → Counters
unfolding top_rows
limit_rows limit rows = elim limit [
  | pos n ↦ (if ltb 0 n then top_rows n rows else rows)
  | _ ↦ rows
]

pub record Summary : Type 0 where
  pub total_events : Int64
  pub by_event : Counters
  pub by_tag : Counters

-- `SummaryHandler` on a `GET` with the query's `top`: `none` is the answer 400.
unfoldable pub summary : String → Recorder → Option Summary
unfolding parse_top limit_rows sort_rows
summary top r = elim (parse_top (pos 0) (codes top)) [
  | none ↦ none
  | some limit ↦ some (record {
    total_events = r.total;
    by_event = limit_rows limit (sort_rows r.event_count);
    by_tag = limit_rows limit (sort_rows r.tag_count);
  })
]
