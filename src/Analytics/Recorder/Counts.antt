-- ===== src/Analytics/Recorder/Counts.antt =====
-- What the counters of recorder.go hold.
use Prim.Native.Nat.{ℕ, suc, ◌+◌, ◌≤◌, ◌<◌, ◌^◌}
use rlaas.Base.{
  String, List, [], ◌∷◌, ◌≡◌, ◌∙◌, refl, ap, arith, eq_iff, ◌==◌, if◌then◌else◌, Bool-cases, inl,
  inr,
}
use rlaas.Base.Lists.{length}
use rlaas.Base.Int.{pos, ◌+ℤ◌}
use rlaas.Base.Int64.{◌+w◌, wrap64, of_bits}
use rlaas.Model.{StringMap}
use rlaas.Analytics.Recorder.{
  Counters, Recorder, new_recorder, max_analytics_keys, count_of, has_key, increment, bump,
  bump_tags, record_event,
}

length-increment :
    (key : String) (m : Counters)
    → length (increment key m) ≡ (if has_key key m then length m else suc (length m))
unfolding increment has_key
length-increment key [] = refl
length-increment key ((j, n) ∷ rest) = ground (arith, length-increment key rest)

length-bump :
    (key : String) (m : Counters)
    → length m ≤ max_analytics_keys
    → (length m ≤ length (bump key m)) × (length (bump key m) ≤ max_analytics_keys)
unfolding bump
length-bump key m h = ground (arith, length-increment key m)

length-bump_tags :
    (tags : StringMap) (m : Counters)
    → length m ≤ max_analytics_keys
    → length (bump_tags tags m) ≤ max_analytics_keys
unfolding bump_tags
length-bump_tags [] m h = h
length-bump_tags ((k, v) ∷ tags) m h = length-bump_tags tags _ ((length-bump _ m h).1)

-- A history of recorded events with their tags.
unfoldable pub record_all : List (String × StringMap) → Recorder → Recorder
unfolding record_event
record_all [] r = r
record_all ((event, tags) ∷ rest) r = record_all rest (record_event event tags r)

record_all-length :
    (h : List (String × StringMap)) (r : Recorder)
    → length r.event_count ≤ max_analytics_keys
    → length r.tag_count ≤ max_analytics_keys
    → (length r.event_count ≤ length (record_all h r).event_count)
      × (length (record_all h r).event_count ≤ max_analytics_keys)
      × (length (record_all h r).tag_count ≤ max_analytics_keys)
unfolding record_all record_event
record_all-length [] r e t = (omega arith, e, t)
record_all-length ((event, tags) ∷ rest) r e t =
    let (grows, small) = length-bump event r.event_count e in
    let later =
      record_all-length rest (record_event event tags r) small
        (length-bump_tags tags r.tag_count t) in
    (omega (arith, grows, later.0), later.1, later.2)

-- Whatever is recorded, there are at most 50,000 distinct events and as many distinct tags.
pub record_all-bounded :
    (h : List (String × StringMap))
    → (length (record_all h new_recorder).event_count ≤ max_analytics_keys)
      × (length (record_all h new_recorder).tag_count ≤ max_analytics_keys)
record_all-bounded h =
    let all = record_all-length h new_recorder (omega arith) (omega arith) in (all.1, all.2)

-- How often an event was recorded.
unfoldable pub times : String → List (String × StringMap) → ℕ
times event [] = 0
times event ((j, tags) ∷ rest) =
    let later = times event rest in if j == event then suc later else later

one_up : (n : ℕ) → suc n < 2 ^ 63 → pos n +w pos 1 ≡ pos (suc n)
unfolding ◌+w◌ wrap64 of_bits ◌+ℤ◌
one_up n h = ground arith

count-increment :
    (event key : String) (m : Counters)
    → count_of event (increment key m)
      ≡ (if key == event then count_of event m +w pos 1 else count_of event m)
unfolding count_of increment
count-increment event key [] = ground (arith, one_up 0 (omega arith))
count-increment event key ((j, n) ∷ rest) =
    ground (arith, eq_iff j key, eq_iff j event, eq_iff key event, count-increment event key rest)

count-bump :
    (event key : String) (m : Counters)
    → length (bump key m) < max_analytics_keys
    → count_of event (bump key m)
      ≡ (if key == event then count_of event m +w pos 1 else count_of event m)
unfolding bump
count-bump event key m room = ground (arith, count-increment event key m)

counts_exactly :
    (event : String) (h : List (String × StringMap)) (r : Recorder) (c : ℕ)
    → length r.event_count ≤ max_analytics_keys
    → length r.tag_count ≤ max_analytics_keys
    → length (record_all h r).event_count < max_analytics_keys
    → count_of event r.event_count ≡ pos c
    → c + length h < 2 ^ 63
    → count_of event (record_all h r).event_count ≡ pos (c + times event h)
unfolding record_all record_event times
counts_exactly event [] r c e t room now small = now ∙ ap pos (omega arith)
counts_exactly event ((j, tags) ∷ rest) r c e t room now small =
    let (grows, fits) = length-bump j r.event_count e in
    let fits_tags = length-bump_tags tags r.tag_count t in
    let later = record_all-length rest (record_event j tags r) fits fits_tags in
    let step = count-bump event j r.event_count (omega (arith, later.0, room)) in
    elim (Bool-cases (j == event)) [
      | inl hit ↦ rw hit (
          counts_exactly event rest (record_event j tags r) (suc c) fits fits_tags room
            (step ∙ (rw hit (ap (λ x. x +w pos 1) now ∙ one_up c (omega (arith, small)))))
            (omega (arith, small))
          ∙ ap pos (omega arith))
      | inr miss ↦ rw miss (
          counts_exactly event rest (record_event j tags r) c fits fits_tags room
            (step ∙ rw miss now) (omega (arith, small)))
    ]

-- As long as fewer than 50,000 distinct events have come, an event's counter says exactly how often it was
-- recorded.
pub record_all-exact :
    (event : String) (h : List (String × StringMap))
    → length h < 2 ^ 63
    → length (record_all h new_recorder).event_count < max_analytics_keys
    → count_of event (record_all h new_recorder).event_count ≡ pos (times event h)
record_all-exact event h small room =
    counts_exactly event h new_recorder 0 (omega arith) (omega arith) room (unfold count_of in refl)
      (omega (arith, small))
    ∙ ap pos (omega arith)
