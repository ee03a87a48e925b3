-- ===== src/Control/Policies/Choice.antt =====
-- Which of the policies that internal/store/policy/file/store.go has kept is the one that `selectVersionForRollback`
-- of internal/adapter/http/controlplane.go chooses.
use Prim.Native.Nat.{ℕ, zero, suc, ◌+◌}
use mathlib.Core.Path.{subst}
use mathlib.Core.Option.{map}
use rlaas.Base.{
  String, List, [], ◌∷◌, true, false, Option, none, some, ◌==◌, ◌≡◌, refl, arith, ◌∙◌, ap, inl, inr,
  eq_iff, Bool-cases,
}
use rlaas.Base.Int.{pos, negsuc, ◌=ℤ◌, =ℤ_iff, ltb_ℤ}
use rlaas.Base.Int64.{Int64}
use rlaas.Base.Lists.{length, All}
use rlaas.Base.Workers.{get_elem?}
use rlaas.Model.{Policy, PolicyVersion}
use rlaas.Store.Policies.Versions.{Numbered, upserts_of}
use rlaas.Store.Policies.Lookup.{Change, upsert, delete}
use rlaas.Control.Rules.{find_version, last_but_one, select_version_for_rollback}

abbrev pub snapshot_of : PolicyVersion → Policy
snapshot_of v = v.snapshot

missed : (n k : ℕ) → (pos n =ℤ pos (n + suc k)) ≡ false
missed n k = ground arith

find-Numbered :
    (n k : ℕ) (vs : List PolicyVersion) (ps : List Policy)
    → Numbered n vs ps
    → map snapshot_of (find_version (pos (n + k)) vs) ≡ get_elem? ps k
unfolding find_version
find-Numbered n k [] [] h = refl
find-Numbered n k [] (q ∷ ps) h = elim h [ ]
find-Numbered n k (v ∷ vs) [] h = elim h [ ]
find-Numbered n zero (v ∷ vs) (q ∷ ps) h =
    let hit = (=ℤ_iff v.version (pos (n + 0))).1 (h.0 ∙ ap pos (omega arith)) in
    rw hit (ap some h.1)
find-Numbered n (suc k) (v ∷ vs) (q ∷ ps) h =
    let miss = ap (λ z. z =ℤ pos (n + suc k)) h.0 ∙ missed n k in
    rw miss (
      subst (λ i. map snapshot_of (find_version (pos i) vs) ≡ get_elem? ps k) (omega arith)
        (find-Numbered (suc n) k vs ps h.2))

last_but_one-Numbered :
    (n : ℕ) (vs : List PolicyVersion) (ps : List Policy)
    → Numbered n vs ps
    → map snapshot_of (last_but_one vs) ≡ last_but_one ps
unfolding last_but_one
last_but_one-Numbered n [] [] h = refl
last_but_one-Numbered n [] (q ∷ ps) h = elim h [ ]
last_but_one-Numbered n (v ∷ vs) [] h = elim h [ ]
last_but_one-Numbered n (v ∷ []) (p ∷ []) h = refl
last_but_one-Numbered n (v ∷ []) (p ∷ q ∷ ps) h = elim (h.2) [ ]
last_but_one-Numbered n (v ∷ w ∷ vs) (p ∷ []) h = elim (h.2) [ ]
last_but_one-Numbered n (v ∷ w ∷ []) (p ∷ q ∷ []) h = ap some h.1
last_but_one-Numbered n (v ∷ w ∷ []) (p ∷ q ∷ r ∷ ps) h = elim (h.2.2) [ ]
last_but_one-Numbered n (v ∷ w ∷ x ∷ vs) (p ∷ q ∷ []) h = elim (h.2.2) [ ]
last_but_one-Numbered n (v ∷ w ∷ x ∷ vs) (p ∷ q ∷ r ∷ ps) h =
    last_but_one-Numbered (suc n) (w ∷ x ∷ vs) (q ∷ r ∷ ps) h.2

at_end : {A : Type 0} → ℕ → List A → Option A
at_end (suc (suc k)) xs = get_elem? xs k
at_end (suc zero) xs = none
at_end zero xs = none

last_but_one-at_end : {A : Type 0} (xs : List A) → last_but_one xs ≡ at_end (length xs) xs
unfolding last_but_one at_end
last_but_one-at_end [] = refl
last_but_one-at_end (a ∷ []) = refl
last_but_one-at_end (a ∷ b ∷ []) = refl
last_but_one-at_end (a ∷ b ∷ c ∷ xs) = last_but_one-at_end (b ∷ c ∷ xs)

-- The policy to restore, of those that were stored: the one of a positive number, else the last but one.
unfoldable pub policy_to_restore : Int64 → List Policy → Option Policy
unfolding at_end
policy_to_restore (pos (suc k)) ps = get_elem? ps k
policy_to_restore (pos zero) ps = at_end (length ps) ps
policy_to_restore (negsuc k) ps = at_end (length ps) ps

positive : (k : ℕ) → ltb_ℤ (pos 0) (pos (suc k)) ≡ true
positive k = ground arith

negative : (k : ℕ) → ltb_ℤ (pos 0) (negsuc k) ≡ false
negative k = ground arith

pub select-Numbered :
    (requested : Int64) (vs : List PolicyVersion) (ps : List Policy)
    → Numbered 1 vs ps
    → map snapshot_of (select_version_for_rollback vs requested) ≡ policy_to_restore requested ps
unfolding select_version_for_rollback policy_to_restore
select-Numbered (pos (suc k)) vs ps h =
    let one : 1 + k ≡ suc k = omega arith in
    rw (positive k) (
      subst (λ i. map snapshot_of (find_version (pos i) vs) ≡ get_elem? ps k) one
        (find-Numbered 1 k vs ps h))
select-Numbered (pos zero) vs ps h = last_but_one-Numbered 1 vs ps h ∙ last_but_one-at_end ps
select-Numbered (negsuc k) vs ps h =
    rw (negative k) (last_but_one-Numbered 1 vs ps h ∙ last_but_one-at_end ps)

abbrev pub Holds : {A : Type 0} → (A → Type 0) → Option A → Type 0
Holds P none = Unit
Holds P (some a) = P a

get_elem?-Holds :
    {A : Type 0} (P : A → Type 0) (k : ℕ) (xs : List A) → All P xs → Holds P (get_elem? xs k)
get_elem?-Holds P k [] h = tt
get_elem?-Holds P zero (a ∷ xs) h = h.0
get_elem?-Holds P (suc k) (a ∷ xs) h = get_elem?-Holds P k xs h.1

at_end-Holds :
    {A : Type 0} (P : A → Type 0) (n : ℕ) (xs : List A) → All P xs → Holds P (at_end n xs)
unfolding at_end
at_end-Holds P zero xs h = tt
at_end-Holds P (suc zero) xs h = tt
at_end-Holds P (suc (suc k)) xs h = get_elem?-Holds P k xs h

pub restore-Holds :
    (P : Policy → Type 0) (requested : Int64) (ps : List Policy)
    → All P ps
    → Holds P (policy_to_restore requested ps)
unfolding policy_to_restore
restore-Holds P (pos (suc k)) ps h = get_elem?-Holds P k ps h
restore-Holds P (pos zero) ps h = at_end-Holds P (length ps) ps h
restore-Holds P (negsuc k) ps h = at_end-Holds P (length ps) ps h

pub upserts-All : (id : String) (cs : List Change) → All (λ p. p.policy_id ≡ id) (upserts_of id cs)
unfolding upserts_of
upserts-All id [] = tt
upserts-All id (delete t gone ∷ cs) = upserts-All id cs
upserts-All id (upsert t q ∷ cs) = elim (Bool-cases (q.policy_id == id)) [
  | inl own ↦ rw own ((eq_iff q.policy_id id).0 own, upserts-All id cs)
  | inr other ↦ rw other (upserts-All id cs)
]
