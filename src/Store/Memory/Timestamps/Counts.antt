-- ===== src/Store/Memory/Timestamps/Counts.antt =====
-- How many entries of a log are not before a time, across the operations on logs.
use Prim.Native.Nat.{ℕ, ◌+◌, ◌≤◌}
use rlaas.Base.{List, [], ◌∷◌, ◌++◌, ◌≡◌, ◌∙◌, refl, not, arith}
use rlaas.Base.Lists.{length, length-keep_if}
use rlaas.Base.Int.{◌≤ℤ◌}
use rlaas.Base.Time.{Time, before}
use rlaas.Store.Memory.Timestamps.{insert_time, sort_times, not_before}

unfoldable pub count_from : Time → List Time → ℕ
count_from cutoff l = length (not_before cutoff l)

pub count_from-le-length : (cutoff : Time) (l : List Time) → count_from cutoff l ≤ length l
unfolding count_from not_before
count_from-le-length cutoff l = length-keep_if (λ t. not (before t cutoff)) l

pub count_from-append :
    (cutoff : Time) (xs ys : List Time)
    → count_from cutoff (xs ++ ys) ≡ count_from cutoff xs + count_from cutoff ys
unfolding count_from not_before
count_from-append cutoff [] ys = omega arith
count_from-append cutoff (x ∷ xs) ys = ground (arith, count_from-append cutoff xs ys)

count_from-insert :
    (cutoff t : Time) (l : List Time)
    → count_from cutoff (insert_time t l) ≡ count_from cutoff (t ∷ l)
unfolding count_from not_before insert_time
count_from-insert cutoff t [] = refl
count_from-insert cutoff t (u ∷ us) = ground (arith, count_from-insert cutoff t us)

count_from-cons :
    (cutoff t : Time) (xs ys : List Time)
    → count_from cutoff xs ≡ count_from cutoff ys
    → count_from cutoff (t ∷ xs) ≡ count_from cutoff (t ∷ ys)
unfolding count_from not_before
count_from-cons cutoff t xs ys h = ground arith

pub count_from-sort :
    (cutoff : Time) (l : List Time) → count_from cutoff (sort_times l) ≡ count_from cutoff l
unfolding sort_times
count_from-sort cutoff [] = refl
count_from-sort cutoff (t ∷ ts) =
    count_from-insert cutoff t (sort_times ts)
    ∙ count_from-cons cutoff t (sort_times ts) ts (count_from-sort cutoff ts)

-- Trimming at an earlier time does not show.
pub count_from-not_before :
    (early late : Time) (l : List Time)
    → early ≤ℤ late
    → count_from late (not_before early l) ≡ count_from late l
unfolding count_from not_before
count_from-not_before early late [] h = refl
count_from-not_before early late (t ∷ ts) h = ground (arith, count_from-not_before early late ts h)

pub count_from-anti :
    (early late : Time) (l : List Time) → early ≤ℤ late → count_from late l ≤ count_from early l
unfolding count_from not_before
count_from-anti early late [] h = omega arith
count_from-anti early late (t ∷ ts) h = ground (arith, count_from-anti early late ts h)
