-- ===== src/Store/Policies/Lookup.antt =====
-- The policies in the store of policy/file/store.go after any changes.
use rlaas.Base.{
  String, List, [], ◌∷◌, Option, none, some, not, ◌≡◌, refl, arith, eq_iff, ◌==◌, if◌then◌else◌,
}
use rlaas.Base.Lists.{keep_if}
use rlaas.Model.{Policy}
use rlaas.Store.Policies.{Payload, Stamps, find_policy, replace_policy, upserted, deleted}

pub data Change : Type 0 where
  upsert : Stamps → Policy → Change
  delete : Stamps → String → Change

unfoldable pub change : Change → Payload → Payload
change (upsert t p) pl = upserted t p pl
change (delete t id) pl = deleted t id pl

unfoldable pub change_all : List Change → Payload → Payload
unfolding change
change_all [] pl = pl
change_all (c ∷ cs) pl = change_all cs (change c pl)

-- A map with one entry for each id, changed in the same way.
unfoldable pub after_change : Change → String → Option Policy → Option Policy
after_change (upsert t p) id old = if p.policy_id == id then some p else old
after_change (delete t gone) id old = if gone == id then none else old

unfoldable pub after_all : List Change → String → Option Policy → Option Policy
unfolding after_change
after_all [] id old = old
after_all (c ∷ cs) id old = after_all cs id (after_change c id old)

find-replace :
    (id : String) (p : Policy) (ps : List Policy)
    → find_policy id (replace_policy p ps)
      ≡ (if p.policy_id == id then some p else find_policy id ps)
unfolding find_policy replace_policy
find-replace id p [] = refl
find-replace id p (q ∷ qs) = ground (
  arith,
  eq_iff q.policy_id p.policy_id,
  eq_iff q.policy_id id,
  eq_iff p.policy_id id,
  find-replace id p qs,
)

find-keep_if :
    (id gone : String) (ps : List Policy)
    → find_policy id (keep_if (λ p. not (p.policy_id == gone)) ps)
      ≡ (if gone == id then none else find_policy id ps)
unfolding find_policy keep_if
find-keep_if id gone [] = ground arith
find-keep_if id gone (q ∷ qs) =
    ground (
      arith,
      eq_iff q.policy_id gone,
      eq_iff q.policy_id id,
      eq_iff gone id,
      find-keep_if id gone qs,
    )

find-change :
    (c : Change) (id : String) (pl : Payload)
    → find_policy id (change c pl).policies ≡ after_change c id (find_policy id pl.policies)
unfolding change after_change upserted deleted
find-change (upsert t p) id pl = find-replace id p pl.policies
find-change (delete t gone) id pl = find-keep_if id gone pl.policies

-- Through any changes of any payload, looking up an id finds what a map with one entry for each id holds.
pub change_all-refines :
    (cs : List Change) (id : String) (pl : Payload)
    → find_policy id (change_all cs pl).policies ≡ after_all cs id (find_policy id pl.policies)
unfolding change_all after_all
change_all-refines [] id pl = refl
change_all-refines (c ∷ cs) id pl =
    rw (← find-change c id pl) (change_all-refines cs id (change c pl))
