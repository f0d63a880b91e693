-- ===== src/Tests/Auditing.antt =====
-- The audits of wisetraceloom/audit_chain.py on a small table. The digest of the test host keeps the
-- first 64 characters only, so it has collisions.
use wisetraceloom.Prelude.{
  ◌≡◌, ◌⊎◌, refl, ap, true, false, none, some, [], ◌∷◌, ◌++◌, map, Text, codes, text_eq, text_Eq,
  option_Eq, nat_Eq, filter_by, length, decimal, join,
}
use wisetraceloom.Tests.Engine.{machine, digest, length-resize}
use wisetraceloom.Tests.Storing.{
  stream, event, race, race-Rely, empty-IsChained, first_table, first_table-IsChained,
}
use wisetraceloom.Storage.{StorageCommit, compute_entry_hash, entry_material, iso_utc}
use wisetraceloom.Storage.Append.{
  Table, append_loop, attempt, new_commit, next_version, prev_entry_hash, taken,
}
use wisetraceloom.Storage.Append.Chain.{IsChained, last_hash}
use wisetraceloom.Audit.{
  verify_chain, sound, commits_of, AnchorRecord, compute_merkle_root, verify_from, reduce_level,
  anchor_commits, hash_pairs, pad, verify_anchor,
}
use wisetraceloom.Results.{Result, ok, err}
use mathlib.Core.List.{append-nil}
use wisetraceloom.Storage.Append.Outcome.{append_loop-IsChained}
use wisetraceloom.Audit.Merkle.{compute_merkle_root_total}
use wisetraceloom.Audit.Roots.{merkle_root_binds}
use wisetraceloom.Audit.Anchors.{verify_anchor-anchor_commits}
use wisetraceloom.Audit.Chain.{verify_chain-append_loop, verify_chain-IsChained}
use wisetraceloom.Audit.Tamper.{
  verify_chain_binds, edited_payload_detected, edit_payload, row_material, Collision,
}

verify_chain-append_loop_example :
    verify_chain machine stream (append_loop machine stream event none (codes "second") race []).1
    ≡ sound
verify_chain-append_loop_example =
    verify_chain-append_loop machine stream event none (codes "second") race [] stream
      empty-IsChained race-Rely

-- The same stream beside an entry of another one.
abbrev longer_table : Table
longer_table =
    (append_loop machine (codes "other") event none (codes "more")
      (record { now = 9; others = []; locked = false } ∷ []) first_table).1

longer_table-IsChained : IsChained machine longer_table
longer_table-IsChained =
    append_loop-IsChained machine (codes "other") event none (codes "more") _ first_table
      first_table-IsChained (rw (append-nil first_table) first_table-IsChained, tt)

same_commits : commits_of machine stream first_table ≡ commits_of machine stream longer_table
unfolding append_loop attempt next_version prev_entry_hash new_commit taken filter_by text_eq
same_commits = refl

verify_chain_binds_example :
    (map (row_material machine) (commits_of machine stream first_table)
      ≡ map (row_material machine) (commits_of machine stream longer_table))
    ⊎ Collision digest
verify_chain_binds_example =
    verify_chain_binds machine stream first_table longer_table
      (ap (λ r. r.verified)
        (verify_chain-IsChained machine stream first_table first_table-IsChained))
      (ap (λ r. r.verified)
        (verify_chain-IsChained machine stream longer_table longer_table-IsChained))
      (ap length same_commits) (ap (last_hash none) same_commits)

abbrev entry : StorageCommit
entry = new_commit machine stream event none (codes "first") 1 none 5

edited_payload_detected_example :
    (((verify_from machine none (edit_payload machine entry (codes "forged") ∷ [])).verified
        ≡ false)
      × ((verify_from machine none
            (edit_payload machine entry (codes "forged") ∷ [])).broken_at_version
          ≡ some entry.version))
    ⊎ Collision digest
unfolding new_commit verify_from text_eq compute_entry_hash entry_material join iso_utc decimal
edited_payload_detected_example =
    edited_payload_detected machine none [] [] entry (codes "forged") (λ e. cc e) refl

abbrev leaf : Text → Text
leaf t = digest t

compute_merkle_root_total_example :
    (root : Text) × (reduce_level digest 2 (leaf (codes "a") ∷ leaf (codes "b") ∷ [])
      ≡ some (root ∷ []))
    × (compute_merkle_root digest (leaf (codes "a") ∷ leaf (codes "b") ∷ []) ≡ ok root)
compute_merkle_root_total_example =
    compute_merkle_root_total digest (leaf (codes "a") ∷ leaf (codes "b") ∷ []) (λ e. cc e)

merkle_root_binds_example :
    (leaf (codes "a") ∷ leaf (codes "b") ∷ [] ≡ leaf (codes "a") ∷ leaf (codes "c") ∷ [])
    ⊎ Collision digest
unfolding compute_merkle_root reduce_level hash_pairs pad
merkle_root_binds_example =
    merkle_root_binds digest (length-resize 64) (leaf (codes "a") ∷ leaf (codes "b") ∷ [])
      (leaf (codes "a") ∷ leaf (codes "c") ∷ []) refl (refl, (refl, tt)) (refl, (refl, tt))
      (leaf (codes "a")) refl refl

abbrev sink : Text → Text → Text
sink s root = codes "ledger entry"

abbrev unanchored : AnchorRecord
unanchored = record { stream_id = []; version = 0; merkle_root = []; external_reference = [] }

abbrev anchored : Result AnchorRecord → AnchorRecord
anchored (ok a) = a
anchored (err e) = unanchored

abbrev anchor : AnchorRecord
anchor = anchored (anchor_commits machine sink stream first_table)

verify_anchor-anchor_commits_example : verify_anchor machine anchor (first_table ++ []) ≡ ok true
unfolding append_loop attempt next_version prev_entry_hash new_commit taken filter_by text_eq
    anchor_commits compute_merkle_root reduce_level
verify_anchor-anchor_commits_example =
    verify_anchor-anchor_commits machine stream first_table [] first_table-IsChained
      (rw (append-nil first_table) first_table-IsChained) sink anchor refl
