-- ===== src/Tests/Policies.antt =====
-- The file policy store at concrete changes.
use rlaas.Base.{List, [], ◌∷◌, ◌≡◌, arith}
use rlaas.Base.Int.{pos}
use rlaas.Base.Maps.{get_or}
use rlaas.Store.Policies.{Stamps, find_policy}
use rlaas.Store.Policies.Lookup.{Change, upsert, delete, change_all, after_all, change_all-refines}
use rlaas.Store.Policies.Versions.{Numbered, upserts_of, empty_payload, versions-Numbered}
use rlaas.Tests.Samples.{noon, acme_policy}

abbrev stamps : Stamps
stamps = record { version_at = noon; id_at = noon; audit_at = noon }

-- Stored, deleted, and stored again with another priority, beside another policy.
abbrev changes : List Change
changes =
    upsert stamps acme_policy
    ∷ upsert stamps (record acme_policy { policy_id = "p2" })
    ∷ delete stamps "p1"
    ∷ upsert stamps (record acme_policy { priority = pos 9 })
    ∷ []

change_all-refines_example :
    find_policy "p1" (change_all changes empty_payload).policies
    ≡ after_all changes "p1" (find_policy "p1" empty_payload.policies)
change_all-refines_example = change_all-refines changes "p1" empty_payload

versions-Numbered_example :
    Numbered 1
      (get_or ((change_all changes empty_payload).versions "p1") [])
      (upserts_of "p1" changes)
versions-Numbered_example = versions-Numbered "p1" changes (omega arith)
