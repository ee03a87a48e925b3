-- ===== src/Store/Policies/Versions.antt =====
-- The versions in the store of policy/file/store.go.
use Prim.Native.Nat.{ℕ, suc, ◌+◌, ◌<◌, ◌^◌}
use mathlib.Core.Path.{ap, ◌∙◌, subst, sym}
use rlaas.Base.{
  String, List, [], ◌∷◌, ◌++◌, true, false, ◌≡◌, refl, arith, eq_iff, ◌==◌, if◌then◌else◌,
  Bool-cases, inl, inr,
}
use mathlib.Core.List.{append_assoc, append-nil}
use rlaas.Base.Lists.{length, length-append}
use rlaas.Base.Int.{pos, ◌+ℤ◌}
use rlaas.Base.Int64.{◌+w◌, wrap64, of_bits}
use rlaas.Base.Maps.{empty, get_or}
use rlaas.Model.{Policy, PolicyVersion}
use rlaas.Store.Policies.{Payload, Stamps, next_version, upserted, deleted}
use rlaas.Store.Policies.Lookup.{Change, upsert, delete, change, change_all}

-- The versions hold the policies in their order, and are numbered without a gap from a number on.
abbrev pub Numbered : ℕ → List PolicyVersion → List Policy → Type 0
Numbered n [] [] = Unit
Numbered n [] (p ∷ ps) = ⊥
Numbered n (v ∷ vs) [] = ⊥
Numbered n (v ∷ vs) (p ∷ ps) = (v.version ≡ pos n) × (v.snapshot ≡ p) × Numbered (suc n) vs ps

one_up : (n : ℕ) → suc n < 2 ^ 63 → pos n +w pos 1 ≡ pos (suc n)
unfolding ◌+w◌ wrap64 of_bits ◌+ℤ◌
one_up n h = ground arith

next-Numbered :
    (n : ℕ) (v : PolicyVersion) (vs : List PolicyVersion) (ps : List Policy)
    → Numbered n (v ∷ vs) ps
    → n + length (v ∷ vs) < 2 ^ 63
    → next_version (v ∷ vs) ≡ pos (n + length (v ∷ vs))
unfolding next_version
next-Numbered n v [] [] h small = elim h [ ]
next-Numbered n v (w ∷ vs) [] h small = elim h [ ]
next-Numbered n v [] (p ∷ ps) h small =
    rw (h.0) (one_up n (omega (arith, small)) ∙ ap pos (omega arith))
next-Numbered n v (w ∷ vs) (p ∷ ps) h small =
    next-Numbered (suc n) w vs ps h.2 (omega (arith, small)) ∙ ap pos (omega arith)

append-Numbered :
    (n : ℕ) (vs : List PolicyVersion) (ps : List Policy) (v : PolicyVersion)
    → Numbered n vs ps
    → v.version ≡ pos (n + length vs)
    → Numbered n (vs ++ v ∷ []) (ps ++ v.snapshot ∷ [])
append-Numbered n [] (p ∷ ps) v h e = elim h [ ]
append-Numbered n (w ∷ vs) [] v h e = elim h [ ]
append-Numbered n [] [] v h e = (e ∙ ap pos (omega arith), refl, tt)
append-Numbered n (w ∷ vs) (p ∷ ps) v h e =
    (h.0, h.1, append-Numbered (suc n) vs ps v h.2 (e ∙ ap pos (omega arith)))

next_version-Numbered :
    (vs : List PolicyVersion) (ps : List Policy)
    → Numbered 1 vs ps
    → 1 + length vs < 2 ^ 63
    → next_version vs ≡ pos (1 + length vs)
unfolding next_version
next_version-Numbered [] ps h small = refl
next_version-Numbered (v ∷ vs) ps h small = next-Numbered 1 v vs ps h small

-- The policies that changes stored under an id, the first one first.
unfoldable pub upserts_of : String → List Change → List Policy
upserts_of id [] = []
upserts_of id (upsert t p ∷ cs) =
    let rest = upserts_of id cs in if p.policy_id == id then p ∷ rest else rest
upserts_of id (delete t gone ∷ cs) = upserts_of id cs

abbrev pub empty_payload : Payload
empty_payload = record { policies = []; audits = []; versions = empty }

-- What is kept of the versions of an id.
abbrev versions_of : String → Payload → List PolicyVersion
versions_of id pl = get_or (pl.versions id) []

-- What storing a policy does to the versions of its id.
abbrev Extended : Stamps → Policy → Payload → List Policy → String → Type 0
Extended t p pl ps id =
    Numbered 1 (versions_of id pl) ps
    → 1 + length (versions_of id pl) < 2 ^ 63
    → Numbered 1 (versions_of id (upserted t p pl)) (ps ++ p ∷ [])
      × (length (versions_of id (upserted t p pl)) ≡ suc (length (versions_of id pl)))

upserted-own :
    (t : Stamps) (p : Policy) (pl : Payload) (ps : List Policy) → Extended t p pl ps p.policy_id
unfolding upserted
upserted-own t p pl ps h small =
    let history = versions_of p.policy_id pl in
    rw ((eq_iff p.policy_id p.policy_id).1 refl) (
      append-Numbered 1 history ps _ h (next_version-Numbered history ps h small),
      length-append history _ ∙ omega arith,
    )

upserted-Numbered :
    (id : String) (t : Stamps) (p : Policy) (pl : Payload) (ps : List Policy)
    → (p.policy_id == id) ≡ true
    → Extended t p pl ps id
upserted-Numbered id t p pl ps same =
    subst (λ i. Extended t p pl ps i) ((eq_iff p.policy_id id).0 same) (upserted-own t p pl ps)

upserted-other :
    (id : String) (t : Stamps) (p : Policy) (pl : Payload)
    → (p.policy_id == id) ≡ false
    → versions_of id (upserted t p pl) ≡ versions_of id pl
unfolding upserted
upserted-other id t p pl other = ground arith

change_all-Numbered :
    (id : String) (cs : List Change) (pl : Payload) (ps : List Policy)
    → Numbered 1 (versions_of id pl) ps
    → 1 + length cs + length (versions_of id pl) < 2 ^ 63
    → Numbered 1 (versions_of id (change_all cs pl)) (ps ++ upserts_of id cs)
unfolding change_all change upserts_of deleted
change_all-Numbered id [] pl ps h small =
    subst (λ l. Numbered 1 (versions_of id pl) l) (sym (append-nil ps)) h
change_all-Numbered id (delete t gone ∷ cs) pl ps h small =
    change_all-Numbered id cs (deleted t gone pl) ps h (omega (arith, small))
change_all-Numbered id (upsert t p ∷ cs) pl ps h small = elim (Bool-cases (p.policy_id == id)) [
  | inl own ↦
      let (more, longer) = upserted-Numbered id t p pl ps own h (omega (arith, small)) in
      rw own (
        subst (λ l. Numbered 1 (versions_of id (change_all cs (upserted t p pl))) l)
          (append_assoc ps (p ∷ []) (upserts_of id cs))
          (change_all-Numbered id cs (upserted t p pl) (ps ++ p ∷ []) more
            (omega (arith, small, longer))))
  | inr other ↦
      let same = upserted-other id t p pl other in
      rw other (
        change_all-Numbered id cs (upserted t p pl) ps (rw same h) (rw same (omega (arith, small))))
]

-- After any changes of an empty store, fewer than `2 ^ 62`, the versions of an id are exactly the policies that
-- were stored under it, in their order, and are numbered from 1 on without a gap; deleting a policy keeps them.
pub versions-Numbered :
    (id : String) (cs : List Change)
    → length cs < 2 ^ 62
    → Numbered 1 (get_or ((change_all cs empty_payload).versions id) []) (upserts_of id cs)
versions-Numbered id cs small = change_all-Numbered id cs empty_payload [] tt (omega (arith, small))
