-- ===== src/Durable/Tests.antt =====
-- The store at concrete databases; a record is its own key here.
use nova_voice.Base.{ℕ, String, Option, some, ◌≡◌, refl, true, false, List, [], ◌∷◌, ◌⊎◌}
use nova_voice.Durable.Store.{
  find_row, Database, written, conflict, get, insert, save, prune, unexpired,
}
use nova_voice.Durable.Laws.{DistinctRows, at_revision, Overwrites, get-save}
use nova_voice.Durable.Audit.{Write, writes_since, commit_all, Accounts, writes_of}

abbrev key : String → String
key s = s

-- All that is created expires at ten.
abbrev at_ten : String → Option ℕ
at_ten s = some 10

abbrev empty : Database String
empty = record { rows = []; audit = [] }

abbrev one : Database String
one = record { rows = record { value = "a"; revision = 1 } ∷ []; audit = [] }

one_distinct : DistinctRows key one.rows
unfolding find_row
one_distinct = (refl, tt)

get-save_example :
    ((at_revision (get key one "a") 1 ≡ true) × Overwrites key one "a" 1 (save key one "a" 1 "me"))
    ⊎ ((at_revision (get key one "a") 1 ≡ false) × (save key one "a" 1 "me" ≡ conflict))
get-save_example = get-save key one "a" 1 "me" one_distinct

saved : Database String
saved = commit_all key at_ten one (Write.update "a" 1 "me" ∷ [])

one-saved : save key one "a" 1 "me" ≡ written saved
unfolding saved commit_all save
one-saved = refl

abbrev script : List (Write String)
script =
    Write.create "a" "me"
    ∷ Write.update "a" 1 "me"
    ∷ Write.update "a" 1 "late"
    ∷ Write.prune_expired 9
    ∷ Write.create "b" "me"
    ∷ []

script_revision : Accounts (get key (commit_all key at_ten empty script) "a") 2
unfolding commit_all insert save get prune unexpired
script_revision = refl

-- A row that has expired is gone, and the next one of its key counts from one again.
abbrev renewed : List (Write String)
renewed = Write.prune_expired 10 ∷ Write.create "a" "me" ∷ []

renewed_revision :
    Accounts
      (get key (commit_all key at_ten (commit_all key at_ten empty script) renewed) "a")
      (writes_of "a" (commit_all key at_ten (commit_all key at_ten empty script) renewed).audit)
unfolding commit_all insert save get prune unexpired writes_since
renewed_revision = refl
