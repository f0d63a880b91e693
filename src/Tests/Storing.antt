-- ===== src/Tests/Storing.antt =====
-- The append loop and the reads of wisetraceloom/storage.py on a small table.
use wisetraceloom.Prelude.{
  ℕ, ◌≡◌, inl, inr, refl, true, false, none, List, [], ◌∷◌, ◌++◌, Text, codes, text_Eq, option_Eq,
  nat_Eq, filter_by,
}
use mathlib.Core.List.{append-nil}
use wisetraceloom.Tests.Engine.{machine}
use wisetraceloom.Results.{ok}
use wisetraceloom.Storage.{StorageCommit}
use wisetraceloom.Storage.Append.{Table, Turn, append_loop}
use wisetraceloom.Storage.Append.Chain.{IsChained}
use wisetraceloom.Storage.Append.Invariant.{Rely}
use wisetraceloom.Storage.Append.Outcome.{
  append_loop-IsChained, append_loop-Outcome, append_loop_succeeds, Outcome,
}

abbrev pub stream : Text
stream = codes "s"

abbrev pub event : Text
event = codes "event"

abbrev pub alone : ℕ → Turn
alone t = record { now = t; others = []; locked = false }

-- What one append to an empty table leaves.
abbrev pub first_table : Table
first_table = (append_loop machine stream event none (codes "first") (alone 5 ∷ []) []).1

pub empty-IsChained : IsChained machine []
unfolding filter_by
empty-IsChained t = tt

pub first_table-IsChained : IsChained machine first_table
first_table-IsChained =
    append_loop-IsChained machine stream event none (codes "first") (alone 5 ∷ []) []
      empty-IsChained (empty-IsChained, tt)

-- A turn in which another writer takes the version, one that meets a lock, and a quiet one.
abbrev pub race : List Turn
race =
    record { now = 6; others = first_table; locked = false }
    ∷ record { now = 7; others = []; locked = true }
    ∷ alone 8
    ∷ []

pub race-Rely : Rely machine [] race
race-Rely =
    let again : IsChained machine (first_table ++ []) =
      rw (append-nil first_table) first_table-IsChained in
    let once_more : IsChained machine ((first_table ++ []) ++ []) =
      rw (append-nil (first_table ++ [])) again in
    (first_table-IsChained, (again, (once_more, tt)))

append_loop-IsChained_example :
    IsChained machine (append_loop machine stream event none (codes "second") race []).1
append_loop-IsChained_example =
    append_loop-IsChained machine stream event none (codes "second") race [] empty-IsChained
      race-Rely

append_loop-Outcome_example :
    Outcome machine stream event none
      (codes "second")
      (append_loop machine stream event none (codes "second") race [])
append_loop-Outcome_example =
    append_loop-Outcome machine stream event none (codes "second") race [] empty-IsChained race-Rely

append_loop_succeeds_example :
    (commit : StorageCommit) × ((append_loop machine stream event none (codes "second") race []).0
      ≡ ok commit)
unfolding filter_by
append_loop_succeeds_example =
    append_loop_succeeds machine stream event none (codes "second") race [] empty-IsChained
      race-Rely (inr (inr (inl (refl, refl))))
