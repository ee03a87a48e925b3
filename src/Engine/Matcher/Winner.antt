-- ===== src/Engine/Matcher/Winner.antt =====
-- The winner of matcher.go's `SelectWinner`.
use mathlib.Core.List.{Memᴰ}
use Prim.Native.Nat.{◌<◌}
use rlaas.Base.{List, [], ◌∷◌, true, false, ◌≡◌, ◌⊎◌, inl, inr, refl, arith, eq_iff, Bool-cases}
use rlaas.Base.Int.{◌<ℤ◌}
use rlaas.Base.Lists.{All}
use rlaas.Base.TextOrder.{text_gt, text_gt-asym, text_gt-neg_trans}
use rlaas.Base.Exec.{ok}
use rlaas.Model.{Policy}
use rlaas.Engine.Matcher.{
  specificity_score, goes_before, insert_policy, sort_policies, select_winner,
}

goes_before-asym : (a b : Policy) → goes_before a b ≡ true → goes_before b a ≡ false
unfolding goes_before
goes_before-asym a b h = ground (
  arith,
  eq_iff a.policy_id b.policy_id,
  eq_iff b.policy_id a.policy_id,
  text_gt-asym a.policy_id b.policy_id,
)

goes_before-neg_trans :
    (a b c : Policy) → goes_before a b ≡ false → goes_before b c ≡ false → goes_before a c ≡ false
unfolding goes_before
goes_before-neg_trans a b c h k = ground (
  arith,
  eq_iff a.policy_id b.policy_id,
  eq_iff b.policy_id c.policy_id,
  eq_iff a.policy_id c.policy_id,
  text_gt-neg_trans a.policy_id b.policy_id c.policy_id,
)

goes_before_irrefl : (a : Policy) → goes_before a a ≡ false
goes_before_irrefl a = elim (Bool-cases (goes_before a a)) [
  | inl h ↦ goes_before-asym a a h
  | inr h ↦ h
]

-- No policy of a list goes before the policy.
abbrev Unbeaten : Policy → List Policy → Type 0
Unbeaten w ps = All (λ q. goes_before q w ≡ false) ps

Unbeaten-by :
    (w p : Policy) (ps : List Policy) → goes_before w p ≡ false → Unbeaten w ps → Unbeaten p ps
Unbeaten-by w p [] h all = tt
Unbeaten-by w p (q ∷ qs) h all = (goes_before-neg_trans q w p all.0 h, Unbeaten-by w p qs h all.1)

-- A list begins with a policy of another that is unbeaten there.
abbrev Leads : List Policy → List Policy → Type 0
Leads sorted ps =
    (w : Policy) × (rest : List Policy) × (sorted ≡ w ∷ rest) × Memᴰ w ps × Unbeaten w ps

insert-Leads :
    (p : Policy) (sorted ps : List Policy)
    → Leads sorted ps
    → Leads (insert_policy p sorted) (p ∷ ps)
unfolding insert_policy
insert-Leads p sorted ps (w, rest, begins, member, all) = elim (Bool-cases (goes_before w p)) [
  | inl before ↦ (
    w,
    insert_policy p rest,
    rw (begins, insert_policy, before) refl,
    Memᴰ.tail member,
    (goes_before-asym w p before, all),
  )
  | inr after ↦ (
    p,
    w ∷ rest,
    rw (begins, insert_policy, after) refl,
    Memᴰ.head refl,
    (goes_before_irrefl p, Unbeaten-by w p ps after all),
  )
]

sort-Leads : (p : Policy) (ps : List Policy) → Leads (sort_policies (p ∷ ps)) (p ∷ ps)
unfolding sort_policies
sort-Leads p [] = unfold insert_policy in (p, [], refl, Memᴰ.head refl, (goes_before_irrefl p, tt))
sort-Leads p (q ∷ qs) = insert-Leads p (sort_policies (q ∷ qs)) (q ∷ qs) (sort-Leads q qs)

-- The second policy wins over the first, or is as good: it is more specific, or as specific and of a higher
-- priority, or alike in both and its id is not below.
abbrev pub Yields : Policy → Policy → Type 0
Yields q w =
    (specificity_score q.scope < specificity_score w.scope)
    ⊎ ((specificity_score q.scope ≡ specificity_score w.scope)
        × ((q.priority <ℤ w.priority)
            ⊎ ((q.priority ≡ w.priority) × (text_gt q.policy_id w.policy_id ≡ false))))

Yields-to : (q w : Policy) → goes_before q w ≡ false → Yields q w
unfolding goes_before
Yields-to q w h =
    ground (arith, eq_iff q.policy_id w.policy_id, text_gt-asym q.policy_id w.policy_id)

Yields-All : (w : Policy) (ps : List Policy) → Unbeaten w ps → All (λ q. Yields q w) ps
Yields-All w [] h = tt
Yields-All w (q ∷ qs) h = (Yields-to q w h.0, Yields-All w qs h.1)

-- From a list that is not empty the winner is one of its policies, and every policy of the list is less specific,
-- or as specific and of a lower priority, or alike in both and with an id that is not greater.
pub select_winner_best :
    (p : Policy) (ps : List Policy)
    → (w : Policy) × (select_winner (p ∷ ps) ≡ ok w)
      × Memᴰ w (p ∷ ps)
      × All (λ q. Yields q w) (p ∷ ps)
unfolding select_winner
select_winner_best p ps =
    let (w, rest, begins, member, all) = sort-Leads p ps in
    (w, rw begins, member, Yields-All w (p ∷ ps) all)
