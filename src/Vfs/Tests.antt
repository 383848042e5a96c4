-- ===== src/Vfs/Tests.antt =====
-- The policy, the chain and the log on concrete calls, and the theorems at inputs that meet their
-- hypotheses.
use bailey_forbes_flinstone.Base.{ℕ, ◌≡◌, ◌⊎◌, refl, arith, true, List, [], ◌∷◌, map, take}
use bailey_forbes_flinstone.Vfs.Policy.{can_write, covers, starts_with, ends_component}
use bailey_forbes_flinstone.Vfs.Policy.Below.{Verdict, path_of, can_write-Verdict}
use bailey_forbes_flinstone.Vfs.Chain
use bailey_forbes_flinstone.Vfs.Chain.{AllPass, StopsAt, run_cases}
use bailey_forbes_flinstone.Vfs.PathLog.{Entry, Log, print, entries_from}
use bailey_forbes_flinstone.Vfs.PathLog.Short.{IsLogged, record_all, stored, print-record_all}

-- "/a" is protected; "/ab" and "/a/b" are asked for.
abbrev protected : List (List ℕ)
protected = (47 ∷ 97 ∷ []) ∷ []

sibling-allowed : can_write protected (47 ∷ 97 ∷ 98 ∷ []) ≡ true
unfolding can_write covers starts_with ends_component
sibling-allowed = refl

abbrev docs : List (List ℕ)
docs = (97 ∷ []) ∷ []

abbrev note : List (List ℕ)
note = (97 ∷ []) ∷ (98 ∷ []) ∷ []

can_write-Verdict_example :
    Verdict (docs ∷ []) note (can_write (map path_of (docs ∷ [])) (path_of note))
can_write-Verdict_example =
    can_write-Verdict (docs ∷ []) note ((((λ z. omega arith), tt), tt), tt)
      (((λ z. omega arith), tt), (((λ z. omega arith), tt), tt))

abbrev codes : List ℕ
codes = 0 ∷ 5 ∷ 7 ∷ []

abbrev itself : ℕ → ℕ
itself n = n

run_cases_example :
    (AllPass codes itself × (Chain.run codes itself ≡ 0))
    ⊎ StopsAt codes itself (Chain.run codes itself)
run_cases_example = run_cases codes itself

abbrev no_entry : Entry
no_entry = record { op = 0; path = [] }

abbrev empty : Log
empty = record { entries = λ i. no_entry; head = 0; count = 0; inited = true }

empty-IsLogged : IsLogged empty []
unfolding entries_from
empty-IsLogged = record { on = refl; at_end = refl; counted = refl; holds = refl }

abbrev used : List Entry
used =
    record { op = 0; path = 1 ∷ [] }
    ∷ record { op = 1; path = 2 ∷ [] }
    ∷ record { op = 2; path = 3 ∷ [] }
    ∷ []

print-record_all_example : print (record_all empty used) 2 ≡ take 2 (map stored used)
print-record_all_example =
    print-record_all empty used 2 empty-IsLogged (omega arith) (omega arith) (omega arith)
